-- ===== src/Stun/Binding/Sealed.antt =====
-- Messages of pkg/stun/binding.go with MESSAGE-INTEGRITY at their end, and a fingerprint when it is asked for.
use pig.Base.{
  ℕ, ◌+◌, ◌%◌, ◌^◌, ◌<◌, ◌≤◌, ◌≡◌, refl, sym, ap, subst, ◌∙◌, Bool, true, false, not, ◌&&◌, ◌||◌,
  none, some, List, [], ◌∷◌, ◌++◌, length, arith, append_assoc, append-nil,
}
use pig.Base.Xor.{bit_xor_lt}
use pig.Stun.Header
use pig.Stun.Header.{
  Header, InRange, calculate_padding, calculate_padding_lem, magic_cookie, serialize_to,
}
use pig.Stun.Attribute.{
  Attribute, username_attr, message_integrity_attr, fingerprint_attr, get_type, serialize_attrs,
}
use pig.Stun.Attribute.Wire.{AreWritable}
use pig.Stun.Message.{message, decode_message}
use pig.Stun.Message.Order.{InOrder}
use pig.Stun.Message.WellFormed.{message_of, with_length, length-serialize_attrs_end}
use pig.Stun.Message.RoundTrip.{decode_message-message_of, with_length-InRange}
use pig.Stun.Message.Fingerprint.{
  added, add_after, append_fingerprint, add_fingerprint, verify_fingerprint, calculate_fingerprint,
}
use pig.Stun.Message.Fingerprint.Laws.{
  append_fingerprint-stale, fingerprint-Fits, fingerprint_length, verify_fingerprint-message_of,
}
use pig.Stun.Message.Integrity.{Keyed, is_empty, validate_short_term_integrity}
use pig.Stun.Message.Integrity.Scan.{expected_sum}
use pig.Stun.Message.Integrity.Sign.{IsSha1Sized, integrity_total}
use pig.Stun.Message.Delivery.{
  bytes_equal_refl, AreWritable-append, validate_short_term_integrity-message_of,
}
use pig.Stun.Binding.{write_to, is_none}
use pig.Stun.Binding.Free.{
  AllFree, AllFree-InOrder, last_attribute-append, integrity_then, serialize_attrs_words,
}

module _ (k : Keyed) (crc : List ℕ → ℕ) (h : Header) (name : List ℕ) (rest : List Attribute)
    (password : List ℕ) where
  -- The attributes with the integrity at the end, and a fingerprint after it.
  abbrev pub signed_attrs : List Attribute
  signed_attrs =
      username_attr name
      ∷ (rest
          ++ (message_integrity_attr (expected_sum k h (username_attr name ∷ rest) password) ∷ []))

  abbrev pub sealing : ℕ
  sealing = calculate_fingerprint crc (message_of h signed_attrs false).raw

  abbrev pub sealed : Bool → List Attribute
  sealed false = signed_attrs
  sealed true = signed_attrs ++ (fingerprint_attr sealing ∷ [])

  pub signed_InOrder : AllFree (username_attr name ∷ rest) → InOrder signed_attrs
  signed_InOrder f =
      AllFree-InOrder (username_attr name ∷ rest)
        (message_integrity_attr (expected_sum k h (username_attr name ∷ rest) password) ∷ []) f
        (tt, tt)

  sealed_InOrder :
      AllFree (username_attr name ∷ rest)
      → (w : ℕ) → InOrder (signed_attrs ++ (fingerprint_attr w ∷ []))
  sealed_InOrder f w =
      let mi = message_integrity_attr (expected_sum k h (username_attr name ∷ rest) password) in
      subst InOrder
        (sym (append_assoc (username_attr name ∷ rest) (mi ∷ []) (fingerprint_attr w ∷ [])))
        (AllFree-InOrder (username_attr name ∷ rest) (mi ∷ (fingerprint_attr w ∷ [])) f
          (integrity_then _ w))

  sealed_size_signed :
      IsSha1Sized k
      → length (serialize_attrs signed_attrs)
        ≡ length (serialize_attrs (username_attr name ∷ rest)) + 24
  sealed_size_signed s = integrity_total (username_attr name ∷ rest) _ (s.sum20 _ _)

  pub write_to-sealed :
      (flag : Bool)
      → AllFree (username_attr name ∷ rest)
      → write_to crc (message_of h signed_attrs flag) ≡ added (message_of h (sealed flag) flag)
  unfolding write_to
  write_to-sealed false f = refl
  write_to-sealed true f =
      let msg = message_of h signed_attrs true in
      let mi = message_integrity_attr (expected_sum k h (username_attr name ∷ rest) password) in
      let plain : add_after crc msg (some mi) ≡ append_fingerprint crc msg =
        unfold get_type in refl in
      (unfold add_fingerprint in
        ap (add_after crc msg) (last_attribute-append (username_attr name ∷ rest) mi))
      ∙ plain
      ∙ append_fingerprint-stale crc h (length (serialize_attrs signed_attrs) % 2 ^ 16) signed_attrs
          true (signed_InOrder f) (λ w. sealed_InOrder f w)

  signed-AreWritable :
      IsSha1Sized k → AreWritable (username_attr name ∷ rest) → AreWritable signed_attrs
  signed-AreWritable s w =
      AreWritable-append (username_attr name ∷ rest)
        (message_integrity_attr (expected_sum k h (username_attr name ∷ rest) password)) w
        (s.sum20 _ _)

  sealed-AreWritable :
      (flag : Bool)
      → IsSha1Sized k
      → ((b : List ℕ) → crc b < 2 ^ 32)
      → AreWritable (username_attr name ∷ rest)
      → AreWritable (sealed flag)
  sealed-AreWritable false s c w = signed-AreWritable s w
  sealed-AreWritable true s c w =
      AreWritable-append signed_attrs (fingerprint_attr sealing) (signed-AreWritable s w) short
    where
      short : sealing < 2 ^ 32
      short = unfold calculate_fingerprint in bit_xor_lt 32 _ _ (c _) (omega arith)

  sealed_size :
      (flag : Bool)
      → IsSha1Sized k
      → length (serialize_attrs (sealed flag))
        ≤ length (serialize_attrs (username_attr name ∷ rest)) + 32
  sealed_size false s = omega (arith, integrity_total (username_attr name ∷ rest) _ (s.sum20 _ _))
  sealed_size true s = omega (
    arith,
    sealed_size_signed s,
    length-serialize_attrs_end signed_attrs (fingerprint_attr sealing) (fingerprint-Fits sealing),
    fingerprint_length sealing,
  )

  -- The receiver decodes the message.
  pub decode_message-sealed :
      (flag : Bool) (beyond : List ℕ)
      → IsSha1Sized k
      → ((b : List ℕ) → crc b < 2 ^ 32)
      → InRange h
      → AreWritable (username_attr name ∷ rest)
      → length (serialize_attrs (username_attr name ∷ rest)) + 32 < 2 ^ 16
      → decode_message (message_of h (sealed flag) false).raw beyond
        ≡ some (message (message_of h (sealed flag) false))
  decode_message-sealed flag beyond s c r w l =
      ap (λ x. decode_message x beyond) (sym (append-nil (message_of h (sealed flag) false).raw))
      ∙ decode_message-message_of h (sealed flag) [] beyond r (sealed-AreWritable flag s c w)
          (omega (arith, sealed_size flag s, l))

  -- Its header is valid.
  pub header_valid :
      (flag : Bool)
      → IsSha1Sized k
      → ((b : List ℕ) → crc b < 2 ^ 32)
      → InRange h
      → h.msg_type < 2 ^ 14
      → h.cookie ≡ magic_cookie
      → AreWritable (username_attr name ∷ rest)
      → length (serialize_attrs (username_attr name ∷ rest)) + 32 < 2 ^ 16
      → Header.validate (with_length h (sealed flag)) ≡ none
  header_valid flag s c r t m w l =
      let words = serialize_attrs_words (sealed flag) (sealed-AreWritable flag s c w) in
      (Header.validate_lem (with_length h (sealed flag)) (with_length-InRange h (sealed flag) r)).1
        (t, m, omega (arith, words, sealed_size flag s, l))

  -- Its integrity and its fingerprint verify.
  pub auth_valid :
      (flag : Bool)
      → IsSha1Sized k
      → InRange h
      → is_empty password ≡ false
      → is_empty (k.opaque_string name) ≡ false
      → AllFree (username_attr name ∷ rest)
      → AreWritable (username_attr name ∷ rest)
      → validate_short_term_integrity k (message_of h (sealed flag) false) name password ≡ true
  auth_valid false s r p q f w =
      validate_short_term_integrity-message_of k h name rest
        (expected_sum k h (username_attr name ∷ rest) password) [] false password r.id12 p q w
        (signed_InOrder f) (s.sum20 _ _)
      ∙ bytes_equal_refl (expected_sum k h (username_attr name ∷ rest) password)
  auth_valid true s r p q f w =
      ap (λ x. validate_short_term_integrity k (message_of h x false) name password)
        (append_assoc (username_attr name ∷ rest)
          (message_integrity_attr (expected_sum k h (username_attr name ∷ rest) password) ∷ [])
          (fingerprint_attr sealing ∷ []))
      ∙ validate_short_term_integrity-message_of k h name rest
          (expected_sum k h (username_attr name ∷ rest) password) (fingerprint_attr sealing ∷ [])
          false password r.id12 p q w (signed_InOrder f) (s.sum20 _ _)
      ∙ bytes_equal_refl (expected_sum k h (username_attr name ∷ rest) password)

  pub fingerprint_valid :
      AllFree (username_attr name ∷ rest)
      → verify_fingerprint crc (message_of h (sealed true) false) ≡ true
  fingerprint_valid f =
      verify_fingerprint-message_of crc h signed_attrs false (sealed_InOrder f sealing)

  fingerprint_part :
      (flag : Bool)
      → AllFree (username_attr name ∷ rest)
      → (not flag || verify_fingerprint crc (message_of h (sealed flag) false)) ≡ true
  fingerprint_part false f = refl
  fingerprint_part true f = fingerprint_valid f

  -- What the receiver's `Validate` tests, together.
  pub all_valid :
      (flag : Bool)
      → IsSha1Sized k
      → ((b : List ℕ) → crc b < 2 ^ 32)
      → InRange h
      → h.msg_type < 2 ^ 14
      → h.cookie ≡ magic_cookie
      → is_empty password ≡ false
      → is_empty (k.opaque_string name) ≡ false
      → AllFree (username_attr name ∷ rest)
      → AreWritable (username_attr name ∷ rest)
      → length (serialize_attrs (username_attr name ∷ rest)) + 32 < 2 ^ 16
      → (is_none (Header.validate (with_length h (sealed flag)))
          && (validate_short_term_integrity k (message_of h (sealed flag) false) name password
              && (not flag || verify_fingerprint crc (message_of h (sealed flag) false))))
        ≡ true
  all_valid flag s c r t m p q f w l =
      let header = ap is_none (header_valid flag s c r t m w l) in
      rw (header, auth_valid flag s r p q f w) (fingerprint_part flag f)
