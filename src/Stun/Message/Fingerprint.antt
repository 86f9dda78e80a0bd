-- ===== src/Stun/Message/Fingerprint.antt =====
-- FINGERPRINT in pkg/stun/fingerprint.go. The checksum `crc32.ChecksumIEEE` is a parameter. `put_length` on
-- a short buffer writes into its capacity, so the bytes are cut to the buffer's length again.
pub mod Ends
pub mod Removal
pub mod Laws
use Prim.Native.Nat.{bit_xor}
use pig.Base.{
  ℕ, ◌+◌, ◌-◌, ◌*◌, ◌/◌, ◌%◌, ◌^◌, Bool, true, false, Option, none, some, List, [], ◌∷◌, ◌++◌, ◌==◌,
  ltb, if◌then◌else◌, length, take, drop,
}
use pig.Stun.Attribute.{Attribute, fingerprint_attr, get_type, attr_serialize_len}
use pig.Stun.Message.{Message, put_length, append_attribute, find_attribute}

abbrev fingerprint_xor_value : ℕ
fingerprint_xor_value = 0x5354554e

unfoldable pub calculate_fingerprint : (List ℕ → ℕ) → List ℕ → ℕ
calculate_fingerprint crc b =
    bit_xor (crc (take (length b) (put_length b ((length b + 2 ^ 16 - 20 + 8) % 2 ^ 16))))
      fingerprint_xor_value

unfoldable pub last_attribute : List Attribute → Option Attribute
last_attribute [] = none
last_attribute (a ∷ []) = some a
last_attribute (a ∷ (b ∷ attrs)) = last_attribute (b ∷ attrs)

unfoldable pub without_last : List Attribute → List Attribute
without_last [] = []
without_last (a ∷ []) = []
without_last (a ∷ (b ∷ attrs)) = a ∷ without_last (b ∷ attrs)

-- The error of `appendAttribute`, and the panic when the bytes are fewer than those to remove.
pub data Added : Type 0 where
  added : Message → Added
  not_allowed : Added
  add_panics : Added

abbrev pub added_of : Option Message → Added
added_of none = not_allowed
added_of (some msg) = added msg

abbrev pub append_fingerprint : (List ℕ → ℕ) → Message → Added
append_fingerprint crc msg =
    added_of (append_attribute msg (fingerprint_attr (calculate_fingerprint crc msg.raw)))

-- The message without its last attribute, of `n` bytes.
unfoldable pub remove_last : Message → ℕ → Message
unfolding without_last
remove_last msg n = record {
  header = record msg.header {
    msg_length = (msg.header.msg_length + 2 ^ 16 - n % 2 ^ 16) % 2 ^ 16;
  };
  attributes = without_last msg.attributes;
  raw = take (length msg.raw - n) msg.raw;
  fingerprint = msg.fingerprint;
}

abbrev pub add_after : (List ℕ → ℕ) → Message → Option Attribute → Added
add_after crc msg none = append_fingerprint crc msg
add_after crc msg (some la) =
    if get_type la == 0x8028
    then if ltb (length msg.raw) (attr_serialize_len la)
      then add_panics
      else append_fingerprint crc (remove_last msg (attr_serialize_len la))
    else append_fingerprint crc msg

unfoldable pub add_fingerprint : (List ℕ → ℕ) → Message → Added
unfolding last_attribute calculate_fingerprint append_attribute remove_last attr_serialize_len
    get_type
add_fingerprint crc msg = add_after crc msg (last_attribute msg.attributes)

abbrev pub verify_found : (List ℕ → ℕ) → List ℕ → Option Attribute → Bool
verify_found crc raw (some (fingerprint_attr v)) =
    if ltb (length raw) 8 then false else v == calculate_fingerprint crc (take (length raw - 8) raw)
verify_found crc raw _ = false

unfoldable pub verify_fingerprint : (List ℕ → ℕ) → Message → Bool
unfolding find_attribute calculate_fingerprint
verify_fingerprint crc msg = verify_found crc msg.raw (find_attribute 0x8028 msg.attributes)
