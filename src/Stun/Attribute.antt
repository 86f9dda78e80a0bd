-- ===== src/Stun/Attribute.antt =====
-- The attributes of pkg/stun/attributes.go. Strings and slices are lists of bytes. A value of 2 ^ 16 bytes
-- or more makes `SerializeTo` panic when it clears the padding; here its length wraps, and the results
-- are about shorter values.
pub mod Decode
pub mod Wire
pub mod RoundTrip
pub mod Total
pub mod Address
use pig.Base.{
  ℕ, zero, suc, ◌+◌, ◌-◌, ◌*◌, ◌/◌, ◌%◌, ◌^◌, Bool, true, false, List, [], ◌∷◌, ◌++◌, length,
  replicate, take,
}
use pig.Stun.Header.{put_uint16, put_uint32, calculate_padding}

pub data Attribute : Type 0 where
  username_attr realm_attr nonce_attr : List ℕ → Attribute
  message_integrity_attr message_integrity_sha256_attr : List ℕ → Attribute
  error_code_attr : ℕ → List ℕ → Attribute
  mapped_address_attr xor_mapped_address_attr other_address_attr : List ℕ → Attribute
  fingerprint_attr ice_priority_attr change_request_attr : ℕ → Attribute
  ice_use_candidate_attr : Attribute
  ice_controlling_attr ice_controlled_attr : ℕ → Attribute
  unknown_attr : ℕ → List ℕ → Attribute

unfoldable pub get_type : Attribute → ℕ
get_type (username_attr v) = 0x0006
get_type (realm_attr v) = 0x0014
get_type (nonce_attr v) = 0x0015
get_type (message_integrity_attr v) = 0x0008
get_type (message_integrity_sha256_attr v) = 0x001c
get_type (error_code_attr code reason) = 0x0009
get_type (mapped_address_attr v) = 0x0001
get_type (xor_mapped_address_attr v) = 0x0020
get_type (other_address_attr v) = 0x802c
get_type (fingerprint_attr v) = 0x8028
get_type (ice_priority_attr v) = 0x0024
get_type (change_request_attr flags) = 0x0003
get_type ice_use_candidate_attr = 0x0025
get_type (ice_controlling_attr v) = 0x802a
get_type (ice_controlled_attr v) = 0x8029
get_type (unknown_attr type v) = type

unfoldable pub is_ice : Attribute → Bool
is_ice (ice_priority_attr v) = true
is_ice ice_use_candidate_attr = true
is_ice (ice_controlling_attr v) = true
is_ice (ice_controlled_attr v) = true
is_ice _ = false

abbrev pub put_uint64 : ℕ → List ℕ
put_uint64 v = put_uint32 (v / 2 ^ 32) ++ put_uint32 v

-- The bytes that `SerializeTo` writes between the prefix and the padding.
unfoldable pub value_bytes : Attribute → List ℕ
value_bytes (username_attr v) = v
value_bytes (realm_attr v) = v
value_bytes (nonce_attr v) = v
value_bytes (message_integrity_attr v) = v
value_bytes (message_integrity_sha256_attr v) = v
value_bytes (error_code_attr code reason) = 0 ∷ code / 100 % 256 ∷ code % 100 ∷ 0 ∷ reason
value_bytes (mapped_address_attr v) = v
value_bytes (xor_mapped_address_attr v) = v
value_bytes (other_address_attr v) = v
value_bytes (fingerprint_attr v) = put_uint32 v
value_bytes (ice_priority_attr v) = put_uint32 v
value_bytes (change_request_attr flags) = put_uint32 flags
value_bytes ice_use_candidate_attr = []
value_bytes (ice_controlling_attr v) = put_uint64 v
value_bytes (ice_controlled_attr v) = put_uint64 v
value_bytes (unknown_attr type v) = v

unfoldable pub attr_serialized_size : ℕ → ℕ
unfolding calculate_padding
attr_serialized_size value_len = 4 + value_len + calculate_padding value_len

unfoldable pub attr_serialize_len : Attribute → ℕ
unfolding attr_serialized_size value_bytes
attr_serialize_len a = attr_serialized_size (length (value_bytes a) % 2 ^ 16)

-- What `SerializeTo` appends: the type, the length, the value and zeros.
unfoldable pub serialize_attr : Attribute → List ℕ
unfolding get_type value_bytes calculate_padding
serialize_attr a =
    let v = value_bytes a in
    let n = length v % 2 ^ 16 in
    put_uint16 (get_type a) ++ (put_uint16 n ++ (v ++ replicate (calculate_padding n) 0))

unfoldable pub serialize_attrs : List Attribute → List ℕ
unfolding serialize_attr
serialize_attrs [] = []
serialize_attrs (a ∷ attrs) = serialize_attr a ++ serialize_attrs attrs
