-- ===== src/Stun/Attribute/RoundTrip.antt =====
-- Writing and reading the attributes of pkg/stun/attributes.go.
use pig.Base.{
  ℕ, zero, suc, ◌+◌, ◌/◌, ◌%◌, ◌^◌, ◌≤◌, ◌<◌, ◌≡◌, refl, ap, subst, ◌∙◌, some, List, [], ◌∷◌, ◌++◌,
  length, drop, replicate, arith, length-append, length-replicate, drop-length_append, append_assoc,
  ltb_of_le,
}
use pig.Stun.Header.{uint16_at, calculate_padding}
use pig.Stun.Attribute.{
  Attribute, username_attr, realm_attr, nonce_attr, message_integrity_attr,
  message_integrity_sha256_attr, error_code_attr, mapped_address_attr, xor_mapped_address_attr,
  other_address_attr, fingerprint_attr, ice_priority_attr, change_request_attr,
  ice_use_candidate_attr, ice_controlling_attr, ice_controlled_attr, unknown_attr, get_type,
  value_bytes, attr_serialized_size, attr_serialize_len, serialize_attr, serialize_attrs,
}
use pig.Stun.Attribute.Decode.{
  decoded, decode_registered, reads, decode_round, decode_loop, decode_attributes,
}
use pig.Stun.Attribute.Wire.{IsWritable, AreWritable, wire, wire_type, decode_registered-wire}

pub value_short : (a : Attribute) → IsWritable a → length (value_bytes a) < 65536
unfolding value_bytes
value_short (username_attr v) h = omega arith
value_short (realm_attr v) h = omega arith
value_short (nonce_attr v) h = omega arith
value_short (message_integrity_attr v) h = omega arith
value_short (message_integrity_sha256_attr v) h = omega arith
value_short (error_code_attr code reason) h = omega arith
value_short (mapped_address_attr v) h = ground arith
value_short (xor_mapped_address_attr v) h = ground arith
value_short (other_address_attr v) h = ground arith
value_short (fingerprint_attr v) h = omega arith
value_short (ice_priority_attr v) h = omega arith
value_short (change_request_attr flags) h = omega arith
value_short ice_use_candidate_attr h = omega arith
value_short (ice_controlling_attr v) h = omega arith
value_short (ice_controlled_attr v) h = omega arith
value_short (unknown_attr type v) h = absurd h

pub type_short : (a : Attribute) → IsWritable a → get_type a < 65536
unfolding get_type
type_short (unknown_attr type v) h = absurd h
type_short _ h = omega arith

abbrev pub padding_of : Attribute → List ℕ
padding_of a = replicate (calculate_padding (length (value_bytes a))) 0

pub serialize_attr-wire :
    (a : Attribute) (after : List ℕ)
    → length (value_bytes a) < 65536
    → serialize_attr a ++ after ≡ wire (get_type a) (value_bytes a) (padding_of a ++ after)
unfolding serialize_attr
serialize_attr-wire a after h =
    let e : length (value_bytes a) % 2 ^ 16 ≡ length (value_bytes a) = omega arith in
    rw (e, serialize_attr)
      (ap
        (λ x.
          get_type a / 2 ^ 8 % 256
          ∷ get_type a % 256
          ∷ length (value_bytes a) / 2 ^ 8 % 256
          ∷ length (value_bytes a) % 256
          ∷ x)
        (append_assoc (value_bytes a) (padding_of a) after))

pub length-serialize_attr :
    (a : Attribute)
    → length (value_bytes a) < 65536
    → length (serialize_attr a) ≡ attr_serialize_len a
unfolding serialize_attr attr_serialize_len attr_serialized_size
length-serialize_attr a h =
    let n = length (value_bytes a) in
    let e : n % 2 ^ 16 ≡ n = omega arith in
    let r : length (replicate {A = ℕ} (calculate_padding n) 0) ≡ calculate_padding n =
      length-replicate (calculate_padding n) 0 in
    let l : length (value_bytes a ++ replicate (calculate_padding n) 0) ≡ n + calculate_padding n =
      length-append (value_bytes a) (replicate (calculate_padding n) 0) ∙ ap (λ k. n + k) r in
    rw (e, serialize_attr, attr_serialize_len, attr_serialized_size) (omega (arith, l))

decode_round-reads :
    (b beyond : List ℕ) (a : Attribute)
    → 4 ≤ length b
    → decode_registered (uint16_at b 0) b beyond ≡ some (decoded a)
    → decode_round b beyond ≡ reads a
unfolding decode_round
decode_round-reads b beyond a h e = rw (ltb_of_le (length b) 4 h, e, decode_round) refl

decode_round-serialize :
    (a : Attribute) (after beyond : List ℕ)
    → IsWritable a
    → decode_round (serialize_attr a ++ after) beyond ≡ reads a
decode_round-serialize a after beyond h =
    let s = value_short a h in
    let rest = padding_of a ++ after in
    let w = wire (get_type a) (value_bytes a) rest in
    let d : decode_registered (uint16_at w 0) w beyond ≡ some (decoded a) =
      ap (λ t. decode_registered t w beyond)
        (wire_type (get_type a) (value_bytes a) rest (type_short a h))
      ∙ decode_registered-wire a rest beyond h in
    rw (serialize_attr-wire a after s) (decode_round-reads w beyond a (omega arith) d)

decode_loop-serialize :
    (rounds : ℕ) (attrs : List Attribute) (beyond : List ℕ)
    → AreWritable attrs
    → length attrs < rounds
    → decode_loop rounds (serialize_attrs attrs) beyond ≡ some (decoded attrs)
unfolding decode_loop serialize_attrs
decode_loop-serialize zero attrs beyond h l = absurd (omega arith)
decode_loop-serialize (suc rounds) [] beyond h l = unfold decode_round in refl
decode_loop-serialize (suc rounds) (a ∷ attrs) beyond h l =
    let next : drop (attr_serialize_len a) (serialize_attr a ++ serialize_attrs attrs)
        ≡ serialize_attrs attrs =
      subst (λ n. drop n (serialize_attr a ++ serialize_attrs attrs) ≡ serialize_attrs attrs)
        (length-serialize_attr a (value_short a h.0))
        (drop-length_append (serialize_attr a) (serialize_attrs attrs)) in
    rw
      (
        decode_round-serialize a (serialize_attrs attrs) beyond h.0,
        decode_loop,
        next,
        decode_loop-serialize rounds attrs beyond h.1 (omega arith),
      )
      refl

pub length-serialize_attrs :
    (attrs : List Attribute) → length attrs ≤ length (serialize_attrs attrs)
unfolding serialize_attrs serialize_attr
length-serialize_attrs [] = omega arith
length-serialize_attrs (a ∷ attrs) =
    let l = length-append (serialize_attr a) (serialize_attrs attrs) in
    omega (arith, length-serialize_attrs attrs)

-- Any sequence of registered attributes, with values that fit, is decoded from what the code
-- serializes for it, whatever bytes lie behind the data.
pub decode_attributes-serialize :
    (attrs : List Attribute) (beyond : List ℕ)
    → AreWritable attrs
    → decode_attributes (serialize_attrs attrs) beyond ≡ some (decoded attrs)
unfolding decode_attributes
decode_attributes-serialize attrs beyond h =
    decode_loop-serialize (suc (length (serialize_attrs attrs))) attrs beyond h
      (omega (arith, length-serialize_attrs attrs))
