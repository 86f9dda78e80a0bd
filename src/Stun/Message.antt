-- ===== src/Stun/Message.antt =====
-- Messages of pkg/stun/message.go. The buffer of pkg/stun/buffer.go is the list of the bytes written to it;
-- its errors are always nil, so `AppendAttribute` fails by the order of the attributes only.
pub mod Order
pub mod WellFormed
pub mod RoundTrip
pub mod Fingerprint
pub mod Integrity
pub mod Delivery
pub mod Query
mod Tests
use mathlib.Core.Option
use pig.Base.{
  ℕ, zero, suc, ◌+◌, ◌-◌, ◌*◌, ◌/◌, ◌%◌, ◌^◌, Bool, true, false, not, ◌&&◌, ◌||◌, Option, none,
  some, List, [], ◌∷◌, ◌++◌, ◌==◌, ltb, leb, if◌then◌else◌, length, take, drop, get_or,
}
use pig.Stun.Header
use pig.Stun.Header.{Header, new_header, put_uint16, serialize_to}
use pig.Stun.Attribute.{
  Attribute, error_code_attr, username_attr, realm_attr, nonce_attr, get_type, attr_serialize_len,
  serialize_attr, serialize_attrs,
}
use pig.Stun.Attribute.Decode.{AttrError, Decoded, decoded, refused, panics, decode_attributes}

pub record Message : Type 0 where
  pub header : Header
  pub attributes : List Attribute
  pub raw : List ℕ
  pub fingerprint : Bool

-- `binary.BigEndian.PutUint16(raw[2:4], n)`.
abbrev pub put_length : List ℕ → ℕ → List ℕ
put_length raw n = take 2 raw ++ (put_uint16 n ++ drop 4 raw)

unfoldable pub unsafe_append_attribute : Message → Attribute → Message
unfolding attr_serialize_len serialize_attr
unsafe_append_attribute msg a =
    let n = (msg.header.msg_length + attr_serialize_len a % 2 ^ 16) % 2 ^ 16 in
    record {
      header = record msg.header { msg_length = n };
      attributes = msg.attributes ++ (a ∷ []);
      raw = put_length (msg.raw ++ serialize_attr a) n;
      fingerprint = msg.fingerprint;
    }

-- The last attribute's type, and whether the code appends one of another type after it.
unfoldable pub last_type : List Attribute → Option ℕ
unfolding get_type
last_type [] = none
last_type (a ∷ []) = some (get_type a)
last_type (a ∷ (b ∷ attrs)) = last_type (b ∷ attrs)

abbrev pub may_follow : ℕ → ℕ → Bool
may_follow last type =
    if last == 0x8028
    then false
    else if last == 0x0008
    then type == 0x001c || type == 0x8028
    else if last == 0x001c
    then type == 0x8028
    else true

-- `appendAttribute`; `none` is an error.
unfoldable pub append_attribute : Message → Attribute → Option Message
unfolding last_type get_type unsafe_append_attribute
append_attribute msg a = elim (last_type msg.attributes) [
  | none ↦ some (unsafe_append_attribute msg a)
  | some last ↦ if may_follow last (get_type a) then some (unsafe_append_attribute msg a) else none
]

-- `AppendAttribute`, for several attributes.
unfoldable pub append_attributes : Message → List Attribute → Option Message
unfolding append_attribute
append_attributes msg [] = some msg
append_attributes msg (a ∷ attrs) = elim (append_attribute msg a) [
  | none ↦ none
  | some next ↦ append_attributes next attrs
]

abbrev pub empty_message : ℕ → List ℕ → Message
empty_message msg_type tx_id = record {
  header = new_header msg_type tx_id;
  attributes = [];
  raw = serialize_to [] (new_header msg_type tx_id);
  fingerprint = false;
}

unfoldable pub new_message_with_transaction_id : ℕ → List Attribute → List ℕ → Option Message
unfolding append_attributes new_header serialize_to
new_message_with_transaction_id msg_type attrs tx_id =
    append_attributes (empty_message msg_type tx_id) attrs

pub data DecodedMessage : Type 0 where
  message : Message → DecodedMessage
  header_error : DecodedMessage
  truncated : DecodedMessage
  attribute_error : AttrError → DecodedMessage
  decode_panics : DecodedMessage

abbrev pub with_attributes : Header → List ℕ → Decoded (List Attribute) → DecodedMessage
with_attributes h raw (decoded attrs) =
    message (record { header = h; attributes = attrs; raw = raw; fingerprint = false })
with_attributes h raw (refused e) = attribute_error e
with_attributes h raw panics = decode_panics

-- `DecodeMessage`; `beyond` are the bytes of the input's capacity, and `none` stands for rounds that run out.
unfoldable pub decode_message : List ℕ → List ℕ → Option DecodedMessage
unfolding decode_attributes Header.decode_from_bytes
decode_message b beyond = elim (Header.decode_from_bytes b) [
  | none ↦ some header_error
  | some h ↦
      if ltb (length b) (20 + h.msg_length)
      then some truncated
      else Option.map (with_attributes h (take (20 + h.msg_length) b))
          (decode_attributes (take h.msg_length (drop 20 b)) (drop (20 + h.msg_length) b ++ beyond))
]

unfoldable pub find_attribute : ℕ → List Attribute → Option Attribute
unfolding get_type
find_attribute type [] = none
find_attribute type (a ∷ attrs) =
    let rest = find_attribute type attrs in if get_type a == type then some a else rest

-- `SerializeTo`, without the flag that has it add a fingerprint first.
unfoldable pub serialize_message : List ℕ → Message → List ℕ
unfolding serialize_to serialize_attrs
serialize_message sb msg = serialize_to sb msg.header ++ serialize_attrs msg.attributes
