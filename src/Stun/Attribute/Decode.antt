-- ===== src/Stun/Attribute/Decode.antt =====
-- The `DecodeFromBytes` methods of pkg/stun/attributes.go, and `DecodeAttributes`. Go slices up to the
-- capacity, not the length: `beyond` are the bytes between the two, which ERROR-CODE can read.
use pig.Base.{
  ℕ, zero, suc, ◌+◌, ◌-◌, ◌*◌, ◌^◌, not, ◌&&◌, Option, none, some, List, [], ◌∷◌, ◌++◌, ◌==◌, ltb,
  leb, if◌then◌else◌, length, get_or, take, drop,
}
use pig.Stun.Header.{uint16_at, uint32_at}
use pig.Stun.Attribute.{
  Attribute, username_attr, realm_attr, nonce_attr, message_integrity_attr,
  message_integrity_sha256_attr, error_code_attr, mapped_address_attr, xor_mapped_address_attr,
  other_address_attr, fingerprint_attr, ice_priority_attr, change_request_attr,
  ice_use_candidate_attr, ice_controlling_attr, ice_controlled_attr, unknown_attr,
  attr_serialize_len,
}

pub data AttrError : Type 0 where
  too_short wrong_type invalid_length exceeds_buffer : AttrError

pub data Decoded (A : Type 0) : Type 0 where
  decoded : A → Decoded A
  refused : AttrError → Decoded A
  panics : Decoded A

-- Bytes `4` to `4 + n` of `b`: a `uint16` end that has wrapped lies before the start.
abbrev pub value_of : List ℕ → ℕ → (List ℕ → Attribute) → Decoded Attribute
value_of b n make = if leb (2 ^ 16) (4 + n) then panics else decoded (make (take n (drop 4 b)))

-- USERNAME, REALM and NONCE.
unfoldable pub decode_string : ℕ → (List ℕ → Attribute) → List ℕ → Decoded Attribute
decode_string type make b =
    if ltb (length b) 4
    then refused too_short
    else if not (uint16_at b 0 == type)
    then refused wrong_type
    else if ltb (length b - 4) (uint16_at b 2)
    then refused exceeds_buffer
    else value_of b (uint16_at b 2) make

-- MAPPED-ADDRESS, XOR-MAPPED-ADDRESS and OTHER-ADDRESS.
unfoldable pub decode_address : ℕ → (List ℕ → Attribute) → List ℕ → Decoded Attribute
decode_address type make b =
    if ltb (length b) 4
    then refused too_short
    else if not (uint16_at b 0 == type)
    then refused wrong_type
    else if not (uint16_at b 2 == 8) && not (uint16_at b 2 == 20)
    then refused invalid_length
    else if ltb (length b - 4) (uint16_at b 2)
    then refused exceeds_buffer
    else value_of b (uint16_at b 2) make

-- The attributes with a value of `n` bytes, which `make` reads from `b`.
unfoldable pub decode_fixed : ℕ → ℕ → (List ℕ → Attribute) → List ℕ → Decoded Attribute
decode_fixed type n make b =
    if ltb (length b) (4 + n)
    then refused too_short
    else if not (uint16_at b 0 == type)
    then refused wrong_type
    else if not (uint16_at b 2 == n)
    then refused invalid_length
    else decoded (make b)

abbrev pub uint64_at : List ℕ → ℕ → ℕ
uint64_at b i = uint32_at b i * 2 ^ 32 + uint32_at b (i + 4)

-- The values of the fixed lengths.
abbrev pub read_integrity : List ℕ → Attribute
read_integrity b = message_integrity_attr (take 20 (drop 4 b))

abbrev pub read_integrity_sha256 : List ℕ → Attribute
read_integrity_sha256 b = message_integrity_sha256_attr (take 32 (drop 4 b))

abbrev pub read_fingerprint : List ℕ → Attribute
read_fingerprint b = fingerprint_attr (uint32_at b 4)

abbrev pub read_priority : List ℕ → Attribute
read_priority b = ice_priority_attr (uint32_at b 4)

abbrev pub read_use_candidate : List ℕ → Attribute
read_use_candidate b = ice_use_candidate_attr

abbrev pub read_controlled : List ℕ → Attribute
read_controlled b = ice_controlled_attr (uint64_at b 4)

abbrev pub read_controlling : List ℕ → Attribute
read_controlling b = ice_controlling_attr (uint64_at b 4)

-- CHANGE-REQUEST tests the buffer after the length.
unfoldable pub decode_change_request : List ℕ → Decoded Attribute
decode_change_request b =
    if ltb (length b) 4
    then refused too_short
    else if not (uint16_at b 0 == 0x0003)
    then refused wrong_type
    else if not (uint16_at b 2 == 4)
    then refused invalid_length
    else if ltb (length b - 4) 4
    then refused exceeds_buffer
    else decoded (change_request_attr (uint32_at b 4))

-- ERROR-CODE slices its reason without a test against the buffer.
unfoldable pub decode_error_code : List ℕ → List ℕ → Decoded Attribute
decode_error_code b beyond =
    let n = uint16_at b 2 in
    let code = get_or b 5 0 * 100 + get_or b 6 0 in
    if ltb (length b) 8
    then refused too_short
    else if not (uint16_at b 0 == 0x0009)
    then refused wrong_type
    else if ltb n 4
    then refused invalid_length
    else if ltb 4 n
    then if ltb (length (drop 4 b ++ beyond)) n
      then panics
      else decoded (error_code_attr code (take (n - 4) (drop 8 (b ++ beyond))))
    else decoded (error_code_attr code [])

unfoldable pub decode_unknown : List ℕ → Decoded Attribute
decode_unknown b =
    if ltb (length b) 4
    then refused too_short
    else if ltb (length b - 4) (uint16_at b 2)
    then refused exceeds_buffer
    else value_of b (uint16_at b 2) (unknown_attr (uint16_at b 0))

-- The `DecodeFromBytes` of each type.
abbrev pub decode_mapped_address_attr : List ℕ → Decoded Attribute
decode_mapped_address_attr b = decode_address 0x0001 mapped_address_attr b

abbrev pub decode_username_attr : List ℕ → Decoded Attribute
decode_username_attr b = decode_string 0x0006 username_attr b

abbrev pub decode_message_integrity_attr : List ℕ → Decoded Attribute
decode_message_integrity_attr b = decode_fixed 0x0008 20 read_integrity b

abbrev pub decode_message_integrity_sha256_attr : List ℕ → Decoded Attribute
decode_message_integrity_sha256_attr b = decode_fixed 0x001c 32 read_integrity_sha256 b

abbrev pub decode_realm_attr : List ℕ → Decoded Attribute
decode_realm_attr b = decode_string 0x0014 realm_attr b

abbrev pub decode_nonce_attr : List ℕ → Decoded Attribute
decode_nonce_attr b = decode_string 0x0015 nonce_attr b

abbrev pub decode_xor_mapped_address_attr : List ℕ → Decoded Attribute
decode_xor_mapped_address_attr b = decode_address 0x0020 xor_mapped_address_attr b

abbrev pub decode_fingerprint_attr : List ℕ → Decoded Attribute
decode_fingerprint_attr b = decode_fixed 0x8028 4 read_fingerprint b

abbrev pub decode_ice_priority_attr : List ℕ → Decoded Attribute
decode_ice_priority_attr b = decode_fixed 0x0024 4 read_priority b

abbrev pub decode_ice_use_candidate_attr : List ℕ → Decoded Attribute
decode_ice_use_candidate_attr b = decode_fixed 0x0025 0 read_use_candidate b

abbrev pub decode_ice_controlled_attr : List ℕ → Decoded Attribute
decode_ice_controlled_attr b = decode_fixed 0x8029 8 read_controlled b

abbrev pub decode_ice_controlling_attr : List ℕ → Decoded Attribute
decode_ice_controlling_attr b = decode_fixed 0x802a 8 read_controlling b

abbrev pub decode_other_address_attr : List ℕ → Decoded Attribute
decode_other_address_attr b = decode_address 0x802c other_address_attr b

-- The registry's attribute for a type, decoded; `none` is a type without one.
unfoldable pub decode_registered : ℕ → List ℕ → List ℕ → Option (Decoded Attribute)
decode_registered type b beyond =
    if type == 0x0001
    then some (decode_mapped_address_attr b)
    else if type == 0x0006
    then some (decode_username_attr b)
    else if type == 0x0008
    then some (decode_message_integrity_attr b)
    else if type == 0x001c
    then some (decode_message_integrity_sha256_attr b)
    else if type == 0x0009
    then some (decode_error_code b beyond)
    else if type == 0x0014
    then some (decode_realm_attr b)
    else if type == 0x0015
    then some (decode_nonce_attr b)
    else if type == 0x0020
    then some (decode_xor_mapped_address_attr b)
    else if type == 0x8028
    then some (decode_fingerprint_attr b)
    else if type == 0x0024
    then some (decode_ice_priority_attr b)
    else if type == 0x0025
    then some (decode_ice_use_candidate_attr b)
    else if type == 0x8029
    then some (decode_ice_controlled_attr b)
    else if type == 0x802a
    then some (decode_ice_controlling_attr b)
    else if type == 0x0003
    then some (decode_change_request b)
    else if type == 0x802c
    then some (decode_other_address_attr b)
    else none

-- How a decoding of one attribute goes on to the rest of the data.
abbrev pub and_rest : Attribute → Decoded (List Attribute) → Decoded (List Attribute)
and_rest a (decoded attrs) = decoded (a ∷ attrs)
and_rest a (refused e) = refused e
and_rest a panics = panics

-- One round of the loop of `DecodeAttributes`: it returns, skips `n` bytes, or reads an attribute.
pub data DecodeRound : Type 0 where
  ends : DecodeRound
  fails : AttrError → DecodeRound
  round_panics : DecodeRound
  skips : ℕ → DecodeRound
  reads : Attribute → DecodeRound

abbrev pub round_of : ℕ → Option (Decoded Attribute) → DecodeRound
round_of n none = skips (n + 4)
round_of n (some (decoded a)) = reads a
round_of n (some (refused e)) = fails e
round_of n (some panics) = round_panics

unfoldable pub decode_round : List ℕ → List ℕ → DecodeRound
decode_round b beyond =
    if ltb (length b) 4
    then ends
    else round_of (uint16_at b 2) (decode_registered (uint16_at b 0) b beyond)

-- The loop on what is left of the data, for a count of rounds; `none` is a count that is too small.
unfoldable pub decode_loop : ℕ → List ℕ → List ℕ → Option (Decoded (List Attribute))
unfolding decode_round attr_serialize_len
decode_loop zero b beyond = none
decode_loop (suc rounds) b beyond = elim (decode_round b beyond) [
  | ends ↦ some (decoded [])
  | fails e ↦ some (refused e)
  | round_panics ↦ some panics
  | skips n ↦ decode_loop rounds (drop n b) beyond
  | reads a ↦ elim (decode_loop rounds (drop (attr_serialize_len a) b) beyond) [
    | none ↦ none
    | some rest ↦ some (and_rest a rest)
  ]
]

-- Every round moves on by four bytes at least, so the length bounds the rounds.
unfoldable pub decode_attributes : List ℕ → List ℕ → Option (Decoded (List Attribute))
unfolding decode_loop
decode_attributes data_bytes beyond = decode_loop (suc (length data_bytes)) data_bytes beyond
