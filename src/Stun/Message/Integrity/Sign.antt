-- ===== src/Stun/Message/Integrity/Sign.antt =====
-- What `AddMessageIntegrity` of pkg/stun/integrity.go makes of a message.
use pig.Base.{
  ℕ, ◌+◌, ◌-◌, ◌%◌, ◌^◌, ◌≤◌, ◌≡◌, refl, sym, ap, ap₂, ◌∙◌, inl, inr, Bool, true, false, some, List,
  [], ◌∷◌, ◌++◌, ◌==◌, length, take, arith, length-append, append_assoc, append-nil,
  take-length_append, take_all, drop_all, ltb_of_le, replicate,
}
use pig.Stun.Header.{Header, serialize_to}
use pig.Stun.Attribute.{Attribute, message_integrity_attr, value_bytes, serialize_attrs, get_type}
use pig.Stun.Attribute.Wire.{AreWritable}
use pig.Stun.Message.{Message, append_attribute}
use pig.Stun.Message.Order.{InOrder, append_attribute_lem}
use pig.Stun.Message.WellFormed.{
  message_of, with_length, Fits, unsafe_append_attribute-message_of, InOrder-prefix,
}
use pig.Stun.Message.Fingerprint.{without_last}
use pig.Stun.Message.Fingerprint.Ends.{InOrder-retype}
use pig.Stun.Message.Fingerprint.Removal.{without_last-append}
use pig.Stun.Message.Integrity.{
  Keyed, computed, is_empty, signed, write_sum, copy_over, sign_appended, add_message_integrity,
}
use pig.Stun.Message.Integrity.Scan.{expected_sum}
use pig.Stun.Message.Integrity.Laws.{serialize_attrs-integrity, calculate-message_of}

-- A keyed hash with sums of 20 bytes, as HMAC with SHA-1 has them.
pub record IsSha1Sized (k : Keyed) : Type 0 where
  pub size20 : k.size ≡ 20
  pub sum20 : (key b : List ℕ) → length (k.sum key b) ≡ 20

abbrev zeros : List ℕ
zeros = replicate 20 0

raw_split :
    (head : List ℕ) (attrs : List Attribute) (w : List ℕ)
    → length w ≡ 20
    → head ++ serialize_attrs (attrs ++ (message_integrity_attr w ∷ []))
      ≡ (head ++ (serialize_attrs attrs ++ (0 ∷ 8 ∷ 0 ∷ 20 ∷ []))) ++ w
unfolding serialize_attrs
raw_split head attrs w e =
    let body = serialize_attrs attrs in
    ap (λ x. head ++ x)
      (serialize_attrs-integrity attrs w [] e
        ∙ ap (λ x. body ++ (0 ∷ 8 ∷ 0 ∷ 20 ∷ x)) (append-nil w)
        ∙ sym (append_assoc body (0 ∷ 8 ∷ 0 ∷ 20 ∷ []) w))
    ∙ sym (append_assoc head (body ++ (0 ∷ 8 ∷ 0 ∷ 20 ∷ [])) w)

-- The value does not change the length.
pub integrity_total :
    (attrs : List Attribute) (w : List ℕ)
    → length w ≡ 20
    → length (serialize_attrs (attrs ++ (message_integrity_attr w ∷ [])))
      ≡ length (serialize_attrs attrs) + 24
integrity_total attrs w e =
    let s = raw_split [] attrs w e in
    omega (
      arith,
      ap length s,
      length-append (serialize_attrs attrs ++ (0 ∷ 8 ∷ 0 ∷ 20 ∷ [])) w,
      length-append (serialize_attrs attrs) (0 ∷ 8 ∷ 0 ∷ 20 ∷ []),
      e,
    )

cut_suffix : (xs ys : List ℕ) (n : ℕ) → length ys ≡ n → take (length (xs ++ ys) - n) (xs ++ ys) ≡ xs
cut_suffix xs ys n e =
    let m : length (xs ++ ys) - n ≡ length xs = omega (arith, length-append xs ys, e) in
    ap (λ k. take k (xs ++ ys)) m ∙ take-length_append xs ys

copy_over-zeros : (v : List ℕ) → length v ≡ 20 → copy_over zeros v ≡ v
copy_over-zeros v e =
    ap₂ (λ x y. x ++ y) (take_all 20 v (omega (arith, e)))
      (drop_all (length v) zeros (omega (arith, e)))
    ∙ append-nil v

write_sum-message_of :
    (k : Keyed) (h : Header) (attrs : List Attribute) (v : List ℕ) (flag : Bool)
    → k.size ≡ 20
    → length v ≡ 20
    → write_sum k (message_of h (attrs ++ (message_integrity_attr zeros ∷ [])) flag) (computed v)
      ≡ signed (message_of h (attrs ++ (message_integrity_attr v ∷ [])) flag)
write_sum-message_of k h attrs v flag s e =
    let blank = attrs ++ (message_integrity_attr zeros ∷ []) in
    let done = attrs ++ (message_integrity_attr v ∷ []) in
    let head = serialize_to [] (with_length h blank) in
    let prefix = serialize_attrs attrs ++ (0 ∷ 8 ∷ 0 ∷ 20 ∷ []) in
    let raw = head ++ serialize_attrs blank in
    let n : length (serialize_attrs blank) ≡ length (serialize_attrs done) =
      integrity_total attrs zeros refl ∙ sym (integrity_total attrs v e) in
    let right : (length v == k.size) ≡ true = ground (arith, s, e) in
    let long : k.size ≤ length raw =
      omega
        (arith, s, length-append head (serialize_attrs blank), integrity_total attrs zeros refl) in
    let left : without_last blank ++ (message_integrity_attr (copy_over zeros v) ∷ []) ≡ done =
      ap₂ (λ x y. x ++ (message_integrity_attr y ∷ []))
        (without_last-append attrs (message_integrity_attr zeros)) (copy_over-zeros v e) in
    let bytes : take (length raw - k.size) raw ++ v ≡ head ++ serialize_attrs done =
      ap (λ x. take (length x - k.size) x ++ v) (raw_split head attrs zeros refl)
      ∙ ap (λ x. x ++ v) (cut_suffix (head ++ prefix) zeros k.size (sym s))
      ∙ sym (raw_split head attrs v e) in
    rw (right, ltb_of_le (length raw) k.size long)
      (ap₂ (λ x y. signed (made (length (serialize_attrs blank)) x y)) left bytes
        ∙ ap
            (λ m. signed (
              made m done
                (serialize_to [] (record h { msg_length = m % 2 ^ 16 }) ++ serialize_attrs done)))
            n)
  where
    made : ℕ → List Attribute → List ℕ → Message
    made n attrs bytes = record {
      header = record h { msg_length = n % 2 ^ 16 };
      attributes = attrs;
      raw = bytes;
      fingerprint = flag;
    }

-- `AddMessageIntegrity` appends the attribute with the sum over the message before it, when the order
-- allows the attribute and the password is not empty.
pub add_message_integrity-message_of :
    (k : Keyed) (h : Header) (attrs : List Attribute) (flag : Bool) (password : List ℕ)
    → IsSha1Sized k
    → length h.transaction_id ≡ 12
    → is_empty password ≡ false
    → AreWritable attrs
    → InOrder (attrs ++ (message_integrity_attr [] ∷ []))
    → add_message_integrity k (message_of h attrs flag) password 0x0008
      ≡ signed (
          message_of h
            (attrs ++ (message_integrity_attr (expected_sum k h attrs password) ∷ []))
            flag)
unfolding add_message_integrity
add_message_integrity-message_of k h attrs flag password sized id12 p ok o =
    let mi = message_integrity_attr zeros in
    let o' = InOrder-retype attrs (message_integrity_attr []) mi same_type o in
    let v = expected_sum k h attrs password in
    let appended : append_attribute (message_of h attrs flag) mi
        ≡ some (message_of h (attrs ++ (mi ∷ [])) flag) =
      elim (append_attribute_lem (message_of h attrs flag) mi (InOrder-prefix attrs (mi ∷ []) o')) [
        | inl (e, _) ↦ e ∙ ap some (unsafe_append_attribute-message_of h attrs flag mi fits)
        | inr (_, never) ↦ absurd (never o')
      ] in
    rw (p, add_message_integrity)
      (ap (sign_appended k password 0x0008) appended
        ∙ ap (write_sum k (message_of h (attrs ++ (mi ∷ [])) flag))
            (calculate-message_of k h attrs zeros [] flag password id12 p ok o' refl)
        ∙ write_sum-message_of k h attrs v flag sized.size20 (sized.sum20 _ _))
  where
    same_type : get_type (message_integrity_attr []) ≡ get_type (message_integrity_attr zeros)
    same_type = unfold get_type in refl

    fits : Fits (message_integrity_attr zeros)
    fits = unfold value_bytes in omega arith
