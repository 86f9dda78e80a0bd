-- ===== src/Stun/Message/Fingerprint/Laws.antt =====
-- `AddFingerprint` and `VerifyFingerprint` of pkg/stun/fingerprint.go together.
use pig.Base.{
  ℕ, ◌-◌, ◌%◌, ◌^◌, ◌≤◌, ◌≡◌, refl, sym, ap, subst, ◌∙◌, ◌⊎◌, inl, inr, Bool, true, false, some,
  List, [], ◌∷◌, ◌++◌, ◌==◌, length, take, arith, length-append, ltb_of_le, ==_refl, Bool-cases,
  Option-cases, eq_of_==,
}
use pig.Stun.Header.{Header, serialize_to, calculate_padding}
use pig.Stun.Attribute.{
  Attribute, fingerprint_attr, get_type, serialize_attrs, value_bytes, attr_serialize_len,
  attr_serialized_size,
}
use pig.Stun.Message.{last_type}
use pig.Stun.Message.Order.{
  MayPrecede, InOrder, InOrder-append, InOrder-first, append_attribute_lem,
}
use pig.Stun.Message.WellFormed.{
  message_of, stale, InOrder-prefix, unsafe_append_attribute-stale, length-serialize_attrs_end,
  with_length, Fits, AllFit,
}
use pig.Stun.Message.Fingerprint.{
  calculate_fingerprint, last_attribute, without_last, Added, added, added_of, append_fingerprint,
  add_after, add_fingerprint, verify_found, verify_fingerprint,
}
use pig.Stun.Message.Fingerprint.Ends.{
  last_attribute-split, last_type-last_attribute, last_attribute-none, last_type-nil,
  InOrder-retype, find_attribute-end,
}
use pig.Stun.Message.Fingerprint.Removal.{
  calculate_fingerprint-length, cut_end, remove_last-message_of,
}

pub fingerprint-Fits : (v : ℕ) → Fits (fingerprint_attr v)
unfolding value_bytes
fingerprint-Fits v = omega arith

-- A fingerprint on a message in order, whatever its length field holds.
pub append_fingerprint-stale :
    (crc : List ℕ → ℕ) (h : Header) (old : ℕ) (attrs : List Attribute) (flag : Bool)
    → InOrder attrs
    → ((v : ℕ) → InOrder (attrs ++ (fingerprint_attr v ∷ [])))
    → append_fingerprint crc (stale h old attrs flag)
      ≡ added (
          message_of h
            (attrs
              ++ (fingerprint_attr (calculate_fingerprint crc (message_of h attrs flag).raw) ∷ []))
            flag)
append_fingerprint-stale crc h old attrs flag o next =
    let body = serialize_attrs attrs in
    let now = length body % 2 ^ 16 in
    let fp = fingerprint_attr (calculate_fingerprint crc (stale h old attrs flag).raw) in
    elim (append_attribute_lem (stale h old attrs flag) fp o) [
      | inl (e, _) ↦
          ap added_of
            (e ∙ ap some (unsafe_append_attribute-stale h old attrs flag fp (fingerprint-Fits _)))
          ∙ ap (λ v. added (message_of h (attrs ++ (fingerprint_attr v ∷ [])) flag))
              (calculate_fingerprint-length crc h old now body)
      | inr (_, never) ↦ absurd (never (next _))
    ]

pub fingerprint_length : (v : ℕ) → attr_serialize_len (fingerprint_attr v) ≡ 8
unfolding attr_serialize_len attr_serialized_size value_bytes calculate_padding
fingerprint_length v = refl

verified :
    (crc : List ℕ → ℕ) (raw : List ℕ) (v : ℕ)
    → 8 ≤ length raw
    → calculate_fingerprint crc (take (length raw - 8) raw) ≡ v
    → verify_found crc raw (some (fingerprint_attr v)) ≡ true
verified crc raw v l e = rw (ltb_of_le (length raw) 8 l, e) (==_refl v)

-- The bytes before a fingerprint give its checksum.
pub verify_fingerprint-message_of :
    (crc : List ℕ → ℕ) (h : Header) (attrs : List Attribute) (flag : Bool)
    → let v = calculate_fingerprint crc (message_of h attrs flag).raw in
      InOrder (attrs ++ (fingerprint_attr v ∷ []))
      → verify_fingerprint crc (message_of h (attrs ++ (fingerprint_attr v ∷ [])) flag) ≡ true
unfolding verify_fingerprint
verify_fingerprint-message_of crc h attrs flag o =
    let v = calculate_fingerprint crc (message_of h attrs flag).raw in
    let all = attrs ++ (fingerprint_attr v ∷ []) in
    let head = serialize_to [] (with_length h all) in
    let body = serialize_attrs attrs in
    let raw = head ++ serialize_attrs all in
    let eight = fingerprint_length v in
    let long : 8 ≤ length raw = omega (
      arith,
      length-append head (serialize_attrs all),
      length-serialize_attrs_end attrs (fingerprint_attr v) (fingerprint-Fits v),
      eight,
    ) in
    let before : take (length raw - 8) raw ≡ head ++ body =
      ap (λ n. take (length raw - n) raw) (sym eight)
      ∙ cut_end head attrs (fingerprint_attr v) (fingerprint-Fits v) in
    let same : calculate_fingerprint crc (take (length raw - 8) raw) ≡ v =
      ap (calculate_fingerprint crc) before
      ∙ calculate_fingerprint-length crc h (length (serialize_attrs all) % 2 ^ 16)
          (length body % 2 ^ 16) body in
    ap (verify_found crc raw) (find_attribute-end attrs v o) ∙ verified crc raw v long same

-- A message of the attributes but for a fingerprint at their end, and a fingerprint that verifies.
abbrev pub IsFingerprinted : (List ℕ → ℕ) → Header → List Attribute → Bool → Added → Type 0
IsFingerprinted crc h attrs flag out =
    (base : List Attribute) × (v : ℕ) × ((attrs ≡ base)
      ⊎ ((old : Attribute) × (attrs ≡ base ++ (old ∷ [])) × (get_type old ≡ 0x8028)))
    × InOrder (base ++ (fingerprint_attr v ∷ []))
    × (out ≡ added (message_of h (base ++ (fingerprint_attr v ∷ [])) flag))
    × (verify_fingerprint crc (message_of h (base ++ (fingerprint_attr v ∷ [])) flag) ≡ true)

append_fingerprint-IsFingerprinted :
    (crc : List ℕ → ℕ) (h : Header) (old : ℕ) (attrs base : List Attribute) (flag : Bool)
    → ((attrs ≡ base) ⊎ ((a : Attribute) × (attrs ≡ base ++ (a ∷ [])) × (get_type a ≡ 0x8028)))
    → InOrder base
    → ((v : ℕ) → InOrder (base ++ (fingerprint_attr v ∷ [])))
    → IsFingerprinted crc h attrs flag (append_fingerprint crc (stale h old base flag))
append_fingerprint-IsFingerprinted crc h old attrs base flag split o next = (
  base,
  calculate_fingerprint crc (message_of h base flag).raw,
  split,
  next _,
  append_fingerprint-stale crc h old base flag o next,
  verify_fingerprint-message_of crc h base flag (next _),
)

AllFit-end : (attrs : List Attribute) (a : Attribute) → AllFit (attrs ++ (a ∷ [])) → Fits a
AllFit-end [] a h = h.0
AllFit-end (b ∷ attrs) a h = AllFit-end attrs a h.1

fingerprint_type : (v : ℕ) → get_type (fingerprint_attr v) ≡ 0x8028
unfolding get_type
fingerprint_type v = refl

other_precedes :
    (type v : ℕ) → (type == 0x8028) ≡ false → MayPrecede type (get_type (fingerprint_attr v))
unfolding get_type
other_precedes type v e = ground arith

replaced :
    (crc : List ℕ → ℕ) (h : Header) (base : List Attribute) (a : Attribute) (flag : Bool)
    → (get_type a == 0x8028) ≡ true
    → Fits a
    → add_after crc (message_of h (base ++ (a ∷ [])) flag) (some a)
      ≡ append_fingerprint crc
          (stale h (length (serialize_attrs (base ++ (a ∷ []))) % 2 ^ 16) base flag)
replaced crc h base a flag t fits =
    let raw = (message_of h (base ++ (a ∷ [])) flag).raw in
    let head = serialize_to [] (with_length h (base ++ (a ∷ []))) in
    let long : attr_serialize_len a ≤ length raw = omega (
      arith,
      length-append head (serialize_attrs (base ++ (a ∷ []))),
      length-serialize_attrs_end base a fits,
    ) in
    rw (t, ltb_of_le (length raw) (attr_serialize_len a) long)
      (ap (append_fingerprint crc) (remove_last-message_of h base a flag fits))

last_after :
    (crc : List ℕ → ℕ) (h : Header) (attrs : List Attribute) (flag : Bool) (a : Attribute)
    → InOrder attrs
    → AllFit attrs
    → last_attribute attrs ≡ some a
    → IsFingerprinted crc h attrs flag (add_after crc (message_of h attrs flag) (some a))
last_after crc h attrs flag a o fits e =
    let split = last_attribute-split attrs a e in
    let base = without_last attrs in
    let last = last_type-last_attribute attrs a e in
    elim (Bool-cases (get_type a == 0x8028)) [
      | inl t ↦
          let all = subst InOrder split o in
          let is_fp = eq_of_== (get_type a) 0x8028 t in
          let fits_a = AllFit-end base a (subst AllFit split fits) in
          let e1 =
            ap (λ x. add_after crc (message_of h x flag) (some a)) split
            ∙ replaced crc h base a flag t fits_a in
          subst (IsFingerprinted crc h attrs flag) (sym e1) (
            append_fingerprint-IsFingerprinted crc h _ attrs base flag (inr (a, split, is_fp))
              (InOrder-prefix base (a ∷ []) all)
              (λ v.
                InOrder-retype base a (fingerprint_attr v) (is_fp ∙ sym (fingerprint_type v)) all))
      | inr t ↦
          let e1 : add_after crc (message_of h attrs flag) (some a)
              ≡ append_fingerprint crc (message_of h attrs flag) =
            rw t refl in
          subst (IsFingerprinted crc h attrs flag) (sym e1) (
            append_fingerprint-IsFingerprinted crc h (length (serialize_attrs attrs) % 2 ^ 16) attrs
              attrs flag (inl refl) o
              (λ v.
                InOrder-append attrs (fingerprint_attr v) (get_type a) last o
                  (other_precedes (get_type a) v t)))
    ]

-- `AddFingerprint` on a message in order replaces the fingerprint at its end or adds one there, and
-- `VerifyFingerprint` holds of the message it makes, for every checksum.
pub verify_fingerprint-add_fingerprint :
    (crc : List ℕ → ℕ) (h : Header) (attrs : List Attribute) (flag : Bool)
    → InOrder attrs
    → AllFit attrs
    → IsFingerprinted crc h attrs flag (add_fingerprint crc (message_of h attrs flag))
unfolding add_fingerprint
verify_fingerprint-add_fingerprint crc h attrs flag o fits =
    elim (Option-cases (last_attribute attrs)) [
      | inl e ↦
          let none_before = ap last_type (last_attribute-none attrs e) ∙ last_type-nil in
          subst
            (λ la. IsFingerprinted crc h attrs flag (add_after crc (message_of h attrs flag) la))
            (sym e)
            (append_fingerprint-IsFingerprinted crc h (length (serialize_attrs attrs) % 2 ^ 16)
              attrs attrs flag (inl refl) o
              (λ v. InOrder-first attrs (fingerprint_attr v) none_before))
      | inr (a, e) ↦
          subst
            (λ la. IsFingerprinted crc h attrs flag (add_after crc (message_of h attrs flag) la))
            (sym e) (last_after crc h attrs flag a o fits e)
    ]
