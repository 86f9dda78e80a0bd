-- ===== src/Stun/Message/Integrity/Laws.antt =====
-- The sums that pkg/stun/integrity.go adds and those that it verifies.
use pig.Base.{
  ℕ, ◌%◌, ◌^◌, ◌≡◌, refl, sym, ap, ◌∙◌, Bool, false, some, List, [], ◌∷◌, ◌++◌, length, arith,
  append_assoc, append-nil, ==_refl, ==_of_ne,
}
use pig.Stun.Header.{Header, serialize_to, calculate_padding}
use pig.Stun.Attribute.{
  Attribute, message_integrity_attr, get_type, value_bytes, serialize_attr, serialize_attrs,
}
use pig.Stun.Attribute.Wire.{AreWritable}
use pig.Stun.Message.{find_attribute}
use pig.Stun.Message.Order.{InOrder}
use pig.Stun.Message.WellFormed.{message_of}
use pig.Stun.Message.Fingerprint.Ends.{IsBefore-end}
use pig.Stun.Message.Integrity.{
  Keyed, computed, is_empty, bytes_equal, checked, checked_against, verify_attribute,
  verify_message_integrity, calculate_short_term_message_integrity,
}
use pig.Stun.Message.Integrity.Scan.{Lacks, expected_sum, calculate-before}

pub InOrder-Lacks :
    (attrs : List Attribute) (v : List ℕ)
    → InOrder (attrs ++ (message_integrity_attr v ∷ []))
    → Lacks 0x0008 attrs
unfolding get_type
InOrder-Lacks [] v o = tt
InOrder-Lacks (a ∷ attrs) v o =
    let m = IsBefore-end a attrs (message_integrity_attr v) o.0 in
    (λ e. ground arith, InOrder-Lacks attrs v o.1)

pub find_attribute-after :
    (attrs : List Attribute) (type : ℕ) (a : Attribute) (more : List Attribute)
    → Lacks type attrs
    → get_type a ≡ type
    → find_attribute type (attrs ++ (a ∷ more)) ≡ some a
unfolding find_attribute
find_attribute-after [] type a more n e = rw (e, ==_refl type, find_attribute) refl
find_attribute-after (b ∷ attrs) type a more n e =
    rw (==_of_ne (get_type b) type n.0, find_attribute)
      (find_attribute-after attrs type a more n.1 e)

-- An attribute of 20 bytes has no padding.
integrity_bytes :
    (v : List ℕ) → length v ≡ 20 → serialize_attr (message_integrity_attr v) ≡ 0 ∷ 8 ∷ 0 ∷ 20 ∷ v
unfolding serialize_attr get_type value_bytes calculate_padding
integrity_bytes v e = rw (e, serialize_attr) (ap (λ x. 0 ∷ 8 ∷ 0 ∷ 20 ∷ x) (append-nil v))

pub serialize_attrs-integrity :
    (attrs : List Attribute) (v : List ℕ) (more : List Attribute)
    → length v ≡ 20
    → serialize_attrs (attrs ++ (message_integrity_attr v ∷ more))
      ≡ serialize_attrs attrs ++ (0 ∷ 8 ∷ 0 ∷ 20 ∷ (v ++ serialize_attrs more))
unfolding serialize_attrs
serialize_attrs-integrity [] v more e = ap (λ x. x ++ serialize_attrs more) (integrity_bytes v e)
serialize_attrs-integrity (a ∷ attrs) v more e =
    ap (λ x. serialize_attr a ++ x) (serialize_attrs-integrity attrs v more e)
    ∙ sym (append_assoc (serialize_attr a) (serialize_attrs attrs) _)

-- The sum that the code computes on any message with the attribute after the given ones.
pub calculate-message_of :
    (k : Keyed) (h : Header) (attrs : List Attribute) (w : List ℕ) (more : List Attribute)
    (flag : Bool) (password : List ℕ)
    → length h.transaction_id ≡ 12
    → is_empty password ≡ false
    → AreWritable attrs
    → InOrder (attrs ++ (message_integrity_attr w ∷ []))
    → length w ≡ 20
    → calculate_short_term_message_integrity k
        (message_of h (attrs ++ (message_integrity_attr w ∷ more)) flag).raw
        password
        0x0008
      ≡ computed (expected_sum k h attrs password)
calculate-message_of k h attrs w more flag password id12 p ok o e =
    let all = attrs ++ (message_integrity_attr w ∷ more) in
    let n = length (serialize_attrs all) % 2 ^ 16 in
    ap
      (λ x.
        calculate_short_term_message_integrity k
          (serialize_to [] (record h { msg_length = n }) ++ x) password 0x0008)
      (serialize_attrs-integrity attrs w more e)
    ∙ calculate-before k h n 0x0008 attrs (0 ∷ 8 ∷ 0 ∷ 20 ∷ (w ++ serialize_attrs more)) password
        id12 p ok (InOrder-Lacks attrs w o) (omega arith) refl

-- `VerifyMessageIntegrity` on a message with the attribute, and any attributes after it, compares its
-- value with the sum over what stands before it.
pub verify_message_integrity-message_of :
    (k : Keyed) (h : Header) (attrs : List Attribute) (w : List ℕ) (more : List Attribute)
    (flag : Bool) (password : List ℕ)
    → length h.transaction_id ≡ 12
    → is_empty password ≡ false
    → AreWritable attrs
    → InOrder (attrs ++ (message_integrity_attr w ∷ []))
    → length w ≡ 20
    → verify_message_integrity k
        (message_of h (attrs ++ (message_integrity_attr w ∷ more)) flag)
        password
        0x0008
      ≡ checked (bytes_equal w (expected_sum k h attrs password))
unfolding verify_message_integrity
verify_message_integrity-message_of k h attrs w more flag password id12 p ok o e =
    let msg = message_of h (attrs ++ (message_integrity_attr w ∷ more)) flag in
    let found =
      find_attribute-after attrs 0x0008 (message_integrity_attr w) more (InOrder-Lacks attrs w o)
        (integrity_type w) in
    rw (p, verify_message_integrity)
      (ap (verify_attribute k msg password 0x0008) found
        ∙ ap (checked_against w)
            (calculate-message_of k h attrs w more flag password id12 p ok o e))
  where
    integrity_type : (w : List ℕ) → get_type (message_integrity_attr w) ≡ 0x0008
    integrity_type w = unfold get_type in refl
