-- ===== src/Stun/Message/Fingerprint/Ends.antt =====
-- The last attribute of a message and those before it, for pkg/stun/fingerprint.go.
use mathlib.Core.Option.{some-injective}
use pig.Base.{ℕ, ◌≡◌, ◌≢◌, refl, ap, subst, false, none, some, List, [], ◌∷◌, ◌++◌, ◌==◌, arith}
use pig.Stun.Attribute.{Attribute, fingerprint_attr, get_type}
use pig.Stun.Message.{last_type, find_attribute}
use pig.Stun.Message.Order.{MayPrecede, IsBefore, InOrder}
use pig.Stun.Message.Fingerprint.{last_attribute, without_last}

-- The last attribute and those before it.
pub last_attribute-split :
    (attrs : List Attribute) (a : Attribute)
    → last_attribute attrs ≡ some a
    → attrs ≡ without_last attrs ++ (a ∷ [])
unfolding last_attribute without_last
last_attribute-split [] a e = absurd (ground arith)
last_attribute-split (b ∷ []) a e = ap (λ x. x ∷ []) (some-injective _ _ e)
last_attribute-split (b ∷ (c ∷ attrs)) a e = ap (λ x. b ∷ x) (last_attribute-split (c ∷ attrs) a e)

pub last_type-last_attribute :
    (attrs : List Attribute) (a : Attribute)
    → last_attribute attrs ≡ some a
    → last_type attrs ≡ some (get_type a)
unfolding last_attribute last_type
last_type-last_attribute [] a e = absurd (ground arith)
last_type-last_attribute (b ∷ []) a e = ap (λ x. some (get_type x)) (some-injective _ _ e)
last_type-last_attribute (b ∷ (c ∷ attrs)) a e = last_type-last_attribute (c ∷ attrs) a e

pub last_attribute-none : (attrs : List Attribute) → last_attribute attrs ≡ none → attrs ≡ []
unfolding last_attribute
last_attribute-none [] e = refl
last_attribute-none (b ∷ []) e = absurd (ground arith)
last_attribute-none (b ∷ (c ∷ attrs)) e = absurd (last_attribute-some c attrs e)
  where
    last_attribute-some :
        (c : Attribute) (attrs : List Attribute) → last_attribute (c ∷ attrs) ≢ none
    last_attribute-some c [] = λ e. ground arith
    last_attribute-some c (d ∷ attrs) = last_attribute-some d attrs

pub last_type-nil : last_type [] ≡ none
unfolding last_type
last_type-nil = refl

pub IsBefore-end :
    (b : Attribute) (attrs : List Attribute) (a : Attribute)
    → IsBefore b (attrs ++ (a ∷ []))
    → MayPrecede (get_type b) (get_type a)
IsBefore-end b [] a h = h.0
IsBefore-end b (c ∷ attrs) a h = IsBefore-end b attrs a h.1

IsBefore-retype :
    (b : Attribute) (attrs : List Attribute) (a a' : Attribute)
    → get_type a ≡ get_type a'
    → IsBefore b (attrs ++ (a ∷ []))
    → IsBefore b (attrs ++ (a' ∷ []))
IsBefore-retype b [] a a' e h = (subst (MayPrecede (get_type b)) e h.0, tt)
IsBefore-retype b (c ∷ attrs) a a' e h = (h.0, IsBefore-retype b attrs a a' e h.1)

pub InOrder-retype :
    (attrs : List Attribute) (a a' : Attribute)
    → get_type a ≡ get_type a'
    → InOrder (attrs ++ (a ∷ []))
    → InOrder (attrs ++ (a' ∷ []))
InOrder-retype [] a a' e h = (tt, tt)
InOrder-retype (b ∷ attrs) a a' e h =
    (IsBefore-retype b attrs a a' e h.0, InOrder-retype attrs a a' e h.1)

pub find_attribute-end :
    (attrs : List Attribute) (v : ℕ)
    → InOrder (attrs ++ (fingerprint_attr v ∷ []))
    → find_attribute 0x8028 (attrs ++ (fingerprint_attr v ∷ [])) ≡ some (fingerprint_attr v)
unfolding find_attribute get_type
find_attribute-end [] v h = refl
find_attribute-end (b ∷ attrs) v h =
    let m = IsBefore-end b attrs (fingerprint_attr v) h.0 in
    let other : (get_type b == 0x8028) ≡ false = ground arith in
    rw (other, find_attribute) (find_attribute-end attrs v h.1)
