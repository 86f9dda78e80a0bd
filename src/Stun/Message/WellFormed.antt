-- ===== src/Stun/Message/WellFormed.antt =====
-- The bytes of the messages that pkg/stun/message.go builds: the header with the right length, then
-- the attributes.
use pig.Base.{
  ℕ, ◌+◌, ◌%◌, ◌^◌, ◌<◌, ◌≡◌, refl, sym, ap, subst, ◌∙◌, ◌⊎◌, inl, inr, Bool, false, Option, none,
  some, List, [], ◌∷◌, ◌++◌, length, arith, length-append, append_assoc, append-nil,
}
use pig.Stun.Header.{Header, new_header, serialize_to}
use pig.Stun.Attribute.{Attribute, value_bytes, attr_serialize_len, serialize_attr, serialize_attrs}
use pig.Stun.Attribute.RoundTrip.{length-serialize_attr}
use pig.Stun.Message.{
  Message, put_length, unsafe_append_attribute, append_attributes, empty_message,
  new_message_with_transaction_id,
}
use pig.Stun.Message.Order.{InOrder, IsBefore, append_attribute_lem}

-- The message of some attributes: its length field counts their bytes.
abbrev pub with_length : Header → List Attribute → Header
with_length h attrs = record h { msg_length = length (serialize_attrs attrs) % 2 ^ 16 }

abbrev pub message_of : Header → List Attribute → Bool → Message
message_of h attrs flag = record {
  header = with_length h attrs;
  attributes = attrs;
  raw = serialize_to [] (with_length h attrs) ++ serialize_attrs attrs;
  fingerprint = flag;
}

abbrev pub Fits : Attribute → Type 0
Fits a = length (value_bytes a) < 65536

abbrev pub AllFit : List Attribute → Type 0
AllFit [] = Unit {0}
AllFit (a ∷ attrs) = Fits a × AllFit attrs

pub serialize_attrs-append :
    (attrs : List Attribute) (a : Attribute)
    → serialize_attrs (attrs ++ (a ∷ [])) ≡ serialize_attrs attrs ++ serialize_attr a
unfolding serialize_attrs
serialize_attrs-append [] a = append-nil (serialize_attr a)
serialize_attrs-append (b ∷ attrs) a =
    ap (λ x. serialize_attr b ++ x) (serialize_attrs-append attrs a)
    ∙ sym (append_assoc (serialize_attr b) (serialize_attrs attrs) (serialize_attr a))

pub length-serialize_attrs_end :
    (attrs : List Attribute) (a : Attribute)
    → Fits a
    → length (serialize_attrs (attrs ++ (a ∷ [])))
      ≡ length (serialize_attrs attrs) + attr_serialize_len a
length-serialize_attrs_end attrs a fits =
    ap length (serialize_attrs-append attrs a)
    ∙ length-append (serialize_attrs attrs) (serialize_attr a)
    ∙ ap (λ k. length (serialize_attrs attrs) + k) (length-serialize_attr a fits)

-- The length field written over the serialized header is the header's with that length.
pub put_length-serialize_to :
    (h : Header) (n : ℕ) (after : List ℕ)
    → put_length (serialize_to [] h ++ after) n
      ≡ serialize_to [] (record h { msg_length = n }) ++ after
unfolding serialize_to
put_length-serialize_to h n after = refl

-- The same with another number in the length field of the bytes.
abbrev pub stale : Header → ℕ → List Attribute → Bool → Message
stale h n attrs flag = record (message_of h attrs flag) {
  raw = serialize_to [] (record h { msg_length = n }) ++ serialize_attrs attrs;
}

-- Appending brings the length field up to date.
pub unsafe_append_attribute-stale :
    (h : Header) (old : ℕ) (attrs : List Attribute) (flag : Bool) (a : Attribute)
    → Fits a
    → unsafe_append_attribute (stale h old attrs flag) a ≡ message_of h (attrs ++ (a ∷ [])) flag
unfolding unsafe_append_attribute
unsafe_append_attribute-stale h old attrs flag a fits =
    let all = serialize_attrs (attrs ++ (a ∷ [])) in
    let s = serialize_attrs-append attrs a in
    let size : length all ≡ length (serialize_attrs attrs) + attr_serialize_len a =
      length-serialize_attrs_end attrs a fits in
    let n : (length (serialize_attrs attrs) % 2 ^ 16 + attr_serialize_len a % 2 ^ 16) % 2 ^ 16
        ≡ length all % 2 ^ 16 =
      omega (arith, size) in
    let head = serialize_to [] (record h { msg_length = old }) in
    let bytes : put_length ((head ++ serialize_attrs attrs) ++ serialize_attr a)
          (length all % 2 ^ 16)
        ≡ serialize_to [] (with_length h (attrs ++ (a ∷ []))) ++ all =
      ap (λ x. put_length x (length all % 2 ^ 16))
        (append_assoc head (serialize_attrs attrs) (serialize_attr a) ∙ ap (λ x. head ++ x) (sym s))
      ∙ put_length-serialize_to (record h { msg_length = old }) (length all % 2 ^ 16) all in
    rw (n, unsafe_append_attribute)
      (ap (λ r. record (message_of h (attrs ++ (a ∷ [])) flag) { raw = r }) bytes)

pub unsafe_append_attribute-message_of :
    (h : Header) (attrs : List Attribute) (flag : Bool) (a : Attribute)
    → Fits a
    → unsafe_append_attribute (message_of h attrs flag) a ≡ message_of h (attrs ++ (a ∷ [])) flag
unsafe_append_attribute-message_of h attrs flag a fits =
    unsafe_append_attribute-stale h (length (serialize_attrs attrs) % 2 ^ 16) attrs flag a fits

IsBefore-prefix :
    (a : Attribute) (attrs more : List Attribute) → IsBefore a (attrs ++ more) → IsBefore a attrs
IsBefore-prefix a [] more h = tt
IsBefore-prefix a (b ∷ attrs) more h = (h.0, IsBefore-prefix a attrs more h.1)

pub InOrder-prefix : (attrs more : List Attribute) → InOrder (attrs ++ more) → InOrder attrs
InOrder-prefix [] more h = tt
InOrder-prefix (a ∷ attrs) more h =
    (IsBefore-prefix a attrs more h.0, InOrder-prefix attrs more h.1)

-- What `AppendAttribute` makes of a message in order.
abbrev pub Outcome : Header → List Attribute → Bool → Option Message → Type 0
Outcome h all flag out =
    (InOrder all × (out ≡ some (message_of h all flag))) ⊎ ((InOrder all → ⊥) × (out ≡ none))

append_attributes-message_of :
    (h : Header) (attrs more : List Attribute) (flag : Bool)
    → AllFit more
    → InOrder attrs
    → Outcome h (attrs ++ more) flag (append_attributes (message_of h attrs flag) more)
unfolding append_attributes
append_attributes-message_of h attrs [] flag f o =
    subst (λ all. Outcome h all flag (some (message_of h attrs flag))) (sym (append-nil attrs))
      (inl (o, refl))
append_attributes-message_of h attrs (a ∷ more) flag f o =
    let all = append_assoc attrs (a ∷ []) more in
    elim (append_attribute_lem (message_of h attrs flag) a o) [
      | inl (e, next) ↦
          let e' = e ∙ ap some (unsafe_append_attribute-message_of h attrs flag a f.0) in
          let ih = append_attributes-message_of h (attrs ++ (a ∷ [])) more flag f.1 next in
          rw (e', append_attributes)
            (subst
              (λ all.
                Outcome h all flag (append_attributes (message_of h (attrs ++ (a ∷ [])) flag) more))
              all ih)
      | inr (e, never) ↦ inr (
          (
            λ next. never (InOrder-prefix (attrs ++ (a ∷ [])) more (subst InOrder (sym all) next)),
            rw (e, append_attributes) refl,
          ))
    ]

-- A new message for attributes of less than 2 ^ 16 bytes: when they are in order it is the header with
-- their length and then their bytes, and it is refused when they are not.
pub new_message_lem :
    (msg_type : ℕ) (attrs : List Attribute) (tx_id : List ℕ)
    → AllFit attrs
    → (InOrder attrs
        × (new_message_with_transaction_id msg_type attrs tx_id
            ≡ some (message_of (new_header msg_type tx_id) attrs false)))
      ⊎ ((InOrder attrs → ⊥) × (new_message_with_transaction_id msg_type attrs tx_id ≡ none))
unfolding new_message_with_transaction_id
new_message_lem msg_type attrs tx_id f =
    let h = new_header msg_type tx_id in
    let start = empty_message msg_type tx_id in
    let e : start ≡ message_of h [] false =
      unfold serialize_attrs in
      unfold new_header in
      ap (λ r. record start { raw = r }) (sym (append-nil (serialize_to [] h))) in
    subst (λ m. Outcome h attrs false (append_attributes m attrs)) (sym e)
      (append_attributes-message_of h [] attrs false f tt)
