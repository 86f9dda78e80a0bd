-- ===== src/Stun/Message/Fingerprint/Removal.antt =====
-- The message without its last attribute, for pkg/stun/fingerprint.go.
use pig.Base.{
  ℕ, ◌+◌, ◌-◌, ◌%◌, ◌^◌, ◌≡◌, refl, sym, ap, ap₂, ◌∙◌, Bool, List, [], ◌∷◌, ◌++◌, length, take,
  arith, length-append, append_assoc, take-length_append,
}
use pig.Stun.Header.{Header, serialize_to}
use pig.Stun.Attribute.{Attribute, serialize_attr, serialize_attrs, attr_serialize_len}
use pig.Stun.Attribute.RoundTrip.{length-serialize_attr}
use pig.Stun.Message.{Message}
use pig.Stun.Message.WellFormed.{
  message_of, stale, length-serialize_attrs_end, with_length, Fits, serialize_attrs-append,
}
use pig.Stun.Message.Fingerprint.{calculate_fingerprint, without_last, remove_last}

-- The checksum does not depend on the length field.
pub calculate_fingerprint-length :
    (crc : List ℕ → ℕ) (h : Header) (n m : ℕ) (body : List ℕ)
    → calculate_fingerprint crc (serialize_to [] (record h { msg_length = n }) ++ body)
      ≡ calculate_fingerprint crc (serialize_to [] (record h { msg_length = m }) ++ body)
unfolding calculate_fingerprint serialize_to
calculate_fingerprint-length crc h n m body = refl

pub without_last-append :
    (attrs : List Attribute) (a : Attribute) → without_last (attrs ++ (a ∷ [])) ≡ attrs
unfolding without_last
without_last-append [] a = refl
without_last-append (b ∷ []) a = refl
without_last-append (b ∷ (c ∷ attrs)) a = ap (λ x. b ∷ x) (without_last-append (c ∷ attrs) a)

-- The bytes without those of the last attribute.
pub cut_end :
    (head : List ℕ) (attrs : List Attribute) (a : Attribute)
    → Fits a
    → take
        (length (head ++ serialize_attrs (attrs ++ (a ∷ []))) - attr_serialize_len a)
        (head ++ serialize_attrs (attrs ++ (a ∷ [])))
      ≡ head ++ serialize_attrs attrs
cut_end head attrs a fits =
    let body = serialize_attrs attrs in
    let regroup : head ++ serialize_attrs (attrs ++ (a ∷ [])) ≡ (head ++ body) ++ serialize_attr a =
      ap (λ x. head ++ x) (serialize_attrs-append attrs a)
      ∙ sym (append_assoc head body (serialize_attr a)) in
    let size : length ((head ++ body) ++ serialize_attr a) - attr_serialize_len a
        ≡ length (head ++ body) =
      omega
        (arith, length-append (head ++ body) (serialize_attr a), length-serialize_attr a fits) in
    ap (λ x. take (length x - attr_serialize_len a) x) regroup
    ∙ ap (λ k. take k ((head ++ body) ++ serialize_attr a)) size
    ∙ take-length_append (head ++ body) (serialize_attr a)

-- Removing the last attribute leaves its length in the length field of the bytes.
pub remove_last-message_of :
    (h : Header) (attrs : List Attribute) (a : Attribute) (flag : Bool)
    → Fits a
    → remove_last (message_of h (attrs ++ (a ∷ [])) flag) (attr_serialize_len a)
      ≡ stale h (length (serialize_attrs (attrs ++ (a ∷ []))) % 2 ^ 16) attrs flag
unfolding remove_last
remove_last-message_of h attrs a flag fits =
    let all = serialize_attrs (attrs ++ (a ∷ [])) in
    let n = attr_serialize_len a in
    let size = length-serialize_attrs_end attrs a fits in
    let m : (length all % 2 ^ 16 + 2 ^ 16 - n % 2 ^ 16) % 2 ^ 16
        ≡ length (serialize_attrs attrs) % 2 ^ 16 =
      omega (arith, size) in
    let bytes = cut_end (serialize_to [] (with_length h (attrs ++ (a ∷ [])))) attrs a fits in
    ap
      (λ k. made k (without_last (attrs ++ (a ∷ []))) (
        take (length (message_of h (attrs ++ (a ∷ [])) flag).raw - n)
          (message_of h (attrs ++ (a ∷ [])) flag).raw))
      m
    ∙ ap₂ (made (length (serialize_attrs attrs) % 2 ^ 16)) (without_last-append attrs a) bytes
  where
    made : ℕ → List Attribute → List ℕ → Message
    made k left bytes = record {
      header = record h { msg_length = k };
      attributes = left;
      raw = bytes;
      fingerprint = flag;
    }
