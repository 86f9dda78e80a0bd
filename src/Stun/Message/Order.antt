-- ===== src/Stun/Message/Order.antt =====
-- The order that `appendAttribute` of pkg/stun/message.go keeps, against a condition on every two attributes.
use mathlib.Core.Option.{some-injective}
use pig.Base.{
  ℕ, ◌<◌, ◌≡◌, ◌≢◌, refl, sym, ap, subst, ◌⊎◌, inl, inr, ◌↔◌, Bool, true, false, none, some, List,
  [], ◌∷◌, ◌++◌, ◌==◌, if◌then◌else◌, Bool-cases, Option-cases, arith,
}
use pig.Stun.Attribute.{Attribute, get_type}
use pig.Stun.Message.{Message, last_type, may_follow, append_attribute, unsafe_append_attribute}

-- MESSAGE-INTEGRITY, MESSAGE-INTEGRITY-SHA256 and FINGERPRINT end a message, in this order.
abbrev pub rank : ℕ → ℕ
rank type =
    if type == 0x8028 then 3 else if type == 0x001c then 2 else if type == 0x0008 then 1 else 0

abbrev pub MayPrecede : ℕ → ℕ → Type 0
MayPrecede type later = (rank type ≡ 0) ⊎ (rank type < rank later)

abbrev pub IsBefore : Attribute → List Attribute → Type 0
IsBefore a [] = Unit {0}
IsBefore a (b ∷ attrs) = MayPrecede (get_type a) (get_type b) × IsBefore a attrs

-- Every attribute may precede every later one.
abbrev pub InOrder : List Attribute → Type 0
InOrder [] = Unit {0}
InOrder (a ∷ attrs) = IsBefore a attrs × InOrder attrs

may_follow-MayPrecede : (last type : ℕ) → (may_follow last type ≡ true) ↔ MayPrecede last type
may_follow-MayPrecede last type = (λ e. ground arith, λ e. ground arith)

MayPrecede-trans : (a b c : ℕ) → MayPrecede a b → MayPrecede b c → MayPrecede a c
MayPrecede-trans a b c (inl e) q = inl e
MayPrecede-trans a b c (inr l) (inl e) = absurd (omega arith)
MayPrecede-trans a b c (inr l) (inr k) = inr (omega arith)

IsBefore-last :
    (a : Attribute) (attrs : List Attribute) (last : ℕ)
    → last_type attrs ≡ some last
    → IsBefore a attrs
    → MayPrecede (get_type a) last
unfolding last_type
IsBefore-last a [] last e h = absurd (ground arith)
IsBefore-last a (b ∷ []) last e h = subst (MayPrecede (get_type a)) (some-injective _ _ e) h.0
IsBefore-last a (b ∷ (c ∷ attrs)) last e h = IsBefore-last a (c ∷ attrs) last e h.1

IsBefore-append :
    (a : Attribute) (attrs : List Attribute) (b : Attribute)
    → IsBefore a attrs
    → MayPrecede (get_type a) (get_type b)
    → IsBefore a (attrs ++ (b ∷ []))
IsBefore-append a [] b h m = (m, tt)
IsBefore-append a (c ∷ attrs) b h m = (h.0, IsBefore-append a attrs b h.1 m)

pub InOrder-append :
    (attrs : List Attribute) (a : Attribute) (last : ℕ)
    → last_type attrs ≡ some last
    → InOrder attrs
    → MayPrecede last (get_type a)
    → InOrder (attrs ++ (a ∷ []))
unfolding last_type
InOrder-append [] a last e h m = (tt, tt)
InOrder-append (b ∷ []) a last e h m =
    ((subst (λ t. MayPrecede t (get_type a)) (sym (some-injective _ _ e)) m, tt), (tt, tt))
InOrder-append (b ∷ (c ∷ attrs)) a last e h m =
    let p = IsBefore-last b (c ∷ attrs) last e h.0 in
    (
      IsBefore-append b (c ∷ attrs) a h.0 (MayPrecede-trans (get_type b) last (get_type a) p m),
      InOrder-append (c ∷ attrs) a last e h.1 m,
    )

InOrder-last :
    (attrs : List Attribute) (a : Attribute) (last : ℕ)
    → last_type attrs ≡ some last
    → InOrder (attrs ++ (a ∷ []))
    → MayPrecede last (get_type a)
unfolding last_type
InOrder-last [] a last e h = absurd (ground arith)
InOrder-last (b ∷ []) a last e h =
    subst (λ t. MayPrecede t (get_type a)) (some-injective _ _ e) h.0.0
InOrder-last (b ∷ (c ∷ attrs)) a last e h = InOrder-last (c ∷ attrs) a last e h.1

last_type-some : (a : Attribute) (attrs : List Attribute) → last_type (a ∷ attrs) ≢ none
unfolding last_type
last_type-some a [] = λ e. ground arith
last_type-some a (b ∷ attrs) = last_type-some b attrs

pub InOrder-first :
    (attrs : List Attribute) (a : Attribute) → last_type attrs ≡ none → InOrder (attrs ++ (a ∷ []))
InOrder-first [] a e = (tt, tt)
InOrder-first (b ∷ attrs) a e = absurd (last_type-some b attrs e)

clash : {b : Bool} → b ≡ false → b ≡ true → ⊥
clash f t = ground arith

abbrev pub IsAppended : Message → Attribute → Type 0
IsAppended msg a = append_attribute msg a ≡ some (unsafe_append_attribute msg a)

-- On a message in order, `appendAttribute` appends an attribute that keeps the order, and refuses
-- every other.
pub append_attribute_lem :
    (msg : Message) (a : Attribute)
    → InOrder msg.attributes
    → (IsAppended msg a × InOrder (msg.attributes ++ (a ∷ [])))
      ⊎ ((append_attribute msg a ≡ none) × (InOrder (msg.attributes ++ (a ∷ [])) → ⊥))
unfolding append_attribute
append_attribute_lem msg a h = elim (Option-cases (last_type msg.attributes)) [
  | inl e ↦ inl ((rw (e, append_attribute) refl, InOrder-first msg.attributes a e))
  | inr (last, e) ↦ elim (Bool-cases (may_follow last (get_type a))) [
    | inl f ↦ inl (
        (
          rw (e, append_attribute)
              (ap (λ b. if b then some (unsafe_append_attribute msg a) else none) f),
          InOrder-append msg.attributes a last e h ((may_follow-MayPrecede last (get_type a)).0 f),
        ))
    | inr f ↦ inr (
        (
          rw (e, append_attribute)
              (ap (λ b. if b then some (unsafe_append_attribute msg a) else none) f),
          λ o. absurd (
              clash f (
                (may_follow-MayPrecede last (get_type a)).1
                  (InOrder-last msg.attributes a last e o))),
        ))
  ]
]
