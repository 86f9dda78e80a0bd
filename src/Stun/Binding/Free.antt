-- ===== src/Stun/Binding/Free.antt =====
-- Attributes that may stand before any other, in the messages of pkg/stun/binding.go.
use pig.Base.{
  ℕ, ◌%◌, ◌^◌, ◌≡◌, refl, subst, inl, inr, some, List, [], ◌∷◌, ◌++◌, length, arith, length-append,
  append-nil,
}
use pig.Stun.Header.{calculate_padding_lem}
use pig.Stun.Attribute.{
  Attribute, message_integrity_attr, fingerprint_attr, get_type, serialize_attr, serialize_attrs,
  attr_serialize_len, attr_serialized_size, value_bytes,
}
use pig.Stun.Attribute.Wire.{AreWritable}
use pig.Stun.Attribute.RoundTrip.{length-serialize_attr, value_short}
use pig.Stun.Message.Order.{rank, InOrder, IsBefore}
use pig.Stun.Message.Fingerprint.{last_attribute}

-- Attributes that may stand before any other.
abbrev pub AllFree : List Attribute → Type 0
AllFree [] = Unit {0}
AllFree (a ∷ attrs) = (rank (get_type a) ≡ 0) × AllFree attrs

free-IsBefore : (a : Attribute) (attrs : List Attribute) → rank (get_type a) ≡ 0 → IsBefore a attrs
free-IsBefore a [] e = tt
free-IsBefore a (b ∷ attrs) e = (inl e, free-IsBefore a attrs e)

pub AllFree-InOrder :
    (attrs more : List Attribute) → AllFree attrs → InOrder more → InOrder (attrs ++ more)
AllFree-InOrder [] more f o = o
AllFree-InOrder (a ∷ attrs) more f o =
    (free-IsBefore a (attrs ++ more) f.0, AllFree-InOrder attrs more f.1 o)

pub free-InOrder : (attrs : List Attribute) → AllFree attrs → InOrder attrs
free-InOrder attrs f = subst InOrder (append-nil attrs) (AllFree-InOrder attrs [] f tt)

pub last_attribute-append :
    (attrs : List Attribute) (a : Attribute) → last_attribute (attrs ++ (a ∷ [])) ≡ some a
unfolding last_attribute
last_attribute-append [] a = refl
last_attribute-append (b ∷ []) a = refl
last_attribute-append (b ∷ (c ∷ attrs)) a = last_attribute-append (c ∷ attrs) a

pub integrity_then :
    (v : List ℕ) (w : ℕ) → InOrder (message_integrity_attr v ∷ (fingerprint_attr w ∷ []))
unfolding get_type
integrity_then v w = ((inr (omega arith), tt), (tt, tt))

attr_serialize_len_words : (a : Attribute) → attr_serialize_len a % 4 ≡ 0
unfolding attr_serialize_len attr_serialized_size
attr_serialize_len_words a =
    omega (arith, (calculate_padding_lem (length (value_bytes a) % 2 ^ 16)).0)

-- Attributes are written in whole words.
pub serialize_attrs_words :
    (attrs : List Attribute) → AreWritable attrs → length (serialize_attrs attrs) % 4 ≡ 0
unfolding serialize_attrs
serialize_attrs_words [] w = refl
serialize_attrs_words (a ∷ attrs) w =
    let n = length-serialize_attr a (value_short a w.0) in
    omega (
      arith,
      length-append (serialize_attr a) (serialize_attrs attrs),
      n,
      attr_serialize_len_words a,
      serialize_attrs_words attrs w.1,
    )
