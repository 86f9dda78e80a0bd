-- ===== src/Stun/Message/Tests.antt =====
-- Runs of the attributes and messages of pkg/stun at concrete inputs.
use pig.Base.{
  ℕ, ◌+◌, ◌*◌, ◌%◌, ◌^◌, ◌<◌, ◌≡◌, refl, ◌⊎◌, inl, true, false, none, some, List, [], ◌∷◌, ◌++◌,
  length, replicate, arith,
}
use pig.Stun.Header.{Header, InRange, new_header}
use pig.Stun.Attribute.{
  Attribute, username_attr, ice_priority_attr, message_integrity_attr, error_code_attr, nonce_attr,
  serialize_attrs, value_bytes, get_type,
}
use pig.Stun.Attribute.Decode.{
  decoded, panics, decode_attributes, decode_registered, decode_error_code,
}
use pig.Stun.Attribute.Wire.{AreWritable}
use pig.Stun.Attribute.RoundTrip.{decode_attributes-serialize}
use pig.Stun.Attribute.Total.{Returns, decode_attributes-Returns}
use pig.Stun.Attribute.Address.{
  udp_addr, created, addr_port, addr_panics, new_xor_mapped_address_attr, decode_mapped_address,
  decode_other_address, value_too_short,
}
use pig.Stun.Attribute.Address.RoundTrip.{canonical}
use pig.Stun.Message.{
  Message, message, decode_message, append_attribute, new_message_with_transaction_id,
}
use pig.Stun.Message.Order.{InOrder, IsAppended, append_attribute_lem}
use pig.Stun.Message.WellFormed.{AllFit, message_of, new_message_lem}
use pig.Stun.Message.RoundTrip.{decode_message-message_of}
use pig.Stun.Message.Fingerprint.{add_fingerprint}
use pig.Stun.Message.Fingerprint.Laws.{IsFingerprinted, verify_fingerprint-add_fingerprint}
use pig.Stun.Message.Integrity.{
  Keyed, bytes_equal, signed, add_message_integrity, validate_short_term_integrity,
}
use pig.Stun.Message.Integrity.Scan.{expected_sum}
use pig.Stun.Message.Integrity.Sign.{IsSha1Sized}
use pig.Stun.Message.Delivery.{
  validate_short_term_integrity-message_of, signed_request_accepted, mapped_address_delivered,
}
use pig.Stun.Message.Query.{mapped_addr_port, mapped}

-- A username of five bytes and a priority.
abbrev name : List ℕ
name = 97 ∷ 108 ∷ 105 ∷ 99 ∷ 101 ∷ []

abbrev some_attrs : List Attribute
some_attrs = username_attr name ∷ ice_priority_attr 77 ∷ []

abbrev some_header : Header
some_header = new_header 1 (replicate 12 5)

some_header-InRange : InRange some_header
unfolding new_header
some_header-InRange = record {
  type16 = omega arith;
  length16 = omega arith;
  cookie32 = omega arith;
  id12 = refl;
}

some_attrs-AreWritable : AreWritable some_attrs
some_attrs-AreWritable = (omega arith, (omega arith, tt))

some_attrs-AllFit : AllFit some_attrs
unfolding value_bytes
some_attrs-AllFit = (omega arith, (omega arith, tt))

some_attrs-InOrder : InOrder some_attrs
unfolding get_type
some_attrs-InOrder = ((inl refl, tt), (tt, tt))

-- A hash with sums of 20 bytes.
abbrev toy_hash : Keyed
toy_hash = record {
  size = 20;
  sum = λ key b. replicate 20 ((length key * 7 + length b) % 256);
  opaque_string = λ s. s;
}

toy_hash-IsSha1Sized : IsSha1Sized toy_hash
toy_hash-IsSha1Sized = record { size20 = refl; sum20 = λ key b. refl }

decode_attributes-serialize_example :
    decode_attributes (serialize_attrs some_attrs) (9 ∷ []) ≡ some (decoded some_attrs)
decode_attributes-serialize_example =
    decode_attributes-serialize some_attrs (9 ∷ []) some_attrs-AreWritable

decode_attributes-Returns_example : Returns (decode_attributes (0 ∷ 99 ∷ 0 ∷ 0 ∷ []) [])
decode_attributes-Returns_example = decode_attributes-Returns (0 ∷ 99 ∷ 0 ∷ 0 ∷ []) []

append_attribute_lem_example :
    let msg = message_of some_header some_attrs false in
    (IsAppended msg (nonce_attr name) × InOrder (msg.attributes ++ (nonce_attr name ∷ [])))
    ⊎ ((append_attribute msg (nonce_attr name) ≡ none)
        × (InOrder (msg.attributes ++ (nonce_attr name ∷ [])) → ⊥))
append_attribute_lem_example =
    append_attribute_lem (message_of some_header some_attrs false) (nonce_attr name)
      some_attrs-InOrder

new_message_lem_example :
    (InOrder some_attrs
      × (new_message_with_transaction_id 1 some_attrs (replicate 12 5)
          ≡ some (message_of (new_header 1 (replicate 12 5)) some_attrs false)))
    ⊎ ((InOrder some_attrs → ⊥)
        × (new_message_with_transaction_id 1 some_attrs (replicate 12 5) ≡ none))
new_message_lem_example = new_message_lem 1 some_attrs (replicate 12 5) some_attrs-AllFit

total_short : length (serialize_attrs some_attrs) < 2 ^ 16
total_short = unfold serialize_attrs in omega arith

decode_message-message_of_example :
    decode_message ((message_of some_header some_attrs false).raw ++ (1 ∷ 2 ∷ [])) []
    ≡ some (message (message_of some_header some_attrs false))
decode_message-message_of_example =
    decode_message-message_of some_header some_attrs (1 ∷ 2 ∷ []) [] some_header-InRange
      some_attrs-AreWritable total_short

verify_fingerprint-add_fingerprint_example :
    IsFingerprinted length some_header some_attrs false
      (add_fingerprint length (message_of some_header some_attrs false))
verify_fingerprint-add_fingerprint_example =
    verify_fingerprint-add_fingerprint length some_header some_attrs false some_attrs-InOrder
      some_attrs-AllFit

signable : (w : List ℕ) → InOrder (some_attrs ++ (message_integrity_attr w ∷ []))
unfolding get_type
signable w = ((inl refl, (inl refl, tt)), ((inl refl, tt), (tt, tt)))

validate_short_term_integrity-message_of_example :
    validate_short_term_integrity toy_hash
      (message_of some_header (some_attrs ++ (message_integrity_attr (replicate 20 3) ∷ [])) false)
      name
      name
    ≡ bytes_equal (replicate 20 3) (expected_sum toy_hash some_header some_attrs name)
unfolding new_header
validate_short_term_integrity-message_of_example =
    validate_short_term_integrity-message_of toy_hash some_header name (ice_priority_attr 77 ∷ [])
      (replicate 20 3) [] false name refl refl refl some_attrs-AreWritable
      (signable (replicate 20 3)) refl

signed_request_accepted_example :
    (msg : Message) × (add_message_integrity toy_hash
        (message_of some_header some_attrs false)
        name
        0x0008
      ≡ signed msg)
    × (decode_message (msg.raw ++ (1 ∷ [])) [] ≡ some (message msg))
    × (validate_short_term_integrity toy_hash msg name name ≡ true)
signed_request_accepted_example =
    signed_request_accepted toy_hash some_header name (ice_priority_attr 77 ∷ []) name (1 ∷ []) []
      toy_hash-IsSha1Sized some_header-InRange refl refl some_attrs-AreWritable (signable [])
      (unfold serialize_attrs in omega arith)

mapped_address_delivered_example :
    (a : Attribute) × (msg : Message) × (new_xor_mapped_address_attr
        (udp_addr (some (10 ∷ 0 ∷ 0 ∷ 1 ∷ [])) 443)
        (replicate 12 5)
      ≡ created a)
    × (new_message_with_transaction_id 257 (a ∷ []) (replicate 12 5) ≡ some msg)
    × (decode_message (msg.raw ++ []) [] ≡ some (message msg))
    × (mapped_addr_port msg ≡ mapped (addr_port (canonical (10 ∷ 0 ∷ 0 ∷ 1 ∷ [])) 443))
mapped_address_delivered_example =
    mapped_address_delivered 257 (10 ∷ 0 ∷ 0 ∷ 1 ∷ []) (replicate 12 5) 443 [] [] [] (omega arith)
      (inl refl) (omega arith) refl tt tt (unfold serialize_attrs in omega arith)

-- An unknown attribute with one byte and its padding, then a priority: the code does not skip the padding,
-- and reads the rest from the padding on.
unknown_skip :
    decode_attributes (0 ∷ 99 ∷ 0 ∷ 1 ∷ 7 ∷ 0 ∷ 0 ∷ 0 ∷ 0 ∷ 36 ∷ 0 ∷ 4 ∷ 0 ∷ 0 ∷ 0 ∷ 77 ∷ []) []
    ≡ some (decoded [])
unfolding decode_attributes decode_registered decode_error_code
unknown_skip = refl

-- An ERROR-CODE whose length passes the end of the data takes its reason from the bytes behind it, or panics.
over_read :
    decode_attributes (0 ∷ 9 ∷ 0 ∷ 6 ∷ 0 ∷ 4 ∷ 1 ∷ 0 ∷ []) (65 ∷ 66 ∷ [])
    ≡ some (decoded (error_code_attr 401 (65 ∷ 66 ∷ []) ∷ []))
unfolding decode_attributes decode_registered decode_error_code
over_read = refl

over_read_panic : decode_attributes (0 ∷ 9 ∷ 0 ∷ 6 ∷ 0 ∷ 4 ∷ 1 ∷ 0 ∷ []) [] ≡ some panics
unfolding decode_attributes decode_registered decode_error_code
over_read_panic = refl

-- A MAPPED-ADDRESS of 8 bytes that claims IPv6 panics, an OTHER-ADDRESS does not.
family_panic : decode_mapped_address (0 ∷ 2 ∷ 0 ∷ 80 ∷ 10 ∷ 0 ∷ 0 ∷ 1 ∷ []) ≡ addr_panics
unfolding decode_mapped_address
family_panic = refl

family_tested : decode_other_address (0 ∷ 2 ∷ 0 ∷ 80 ∷ 10 ∷ 0 ∷ 0 ∷ 1 ∷ []) ≡ value_too_short
unfolding decode_other_address
family_tested = refl
