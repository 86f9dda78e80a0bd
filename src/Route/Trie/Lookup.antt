-- ===== src/Route/Trie/Lookup.antt =====
-- `lookup` of pkg/route/table.go against the longest matching prefix.
use Prim.Native.String.{String}
use pig.Base.{
  ℕ, ◌+◌, ◌*◌, ◌≤◌, ◌<◌, ◌≡◌, refl, subst, ◌⊎◌, inl, inr, List, ◌≢◌, arith, ltb, leb, le_of_ltb,
  le_of_leb, eq_of_==, ◌==◌, Bool-cases,
}
use pig.Base.Bits.{shr}
use pig.Route.Address.{Route, get_bit, common_bits}
use pig.Route.Prefix.{top, le-common_bits}
use pig.Route.Trie.{Trie, nil, node, Best, consider_all, lookup_from}
use pig.Route.Trie.Invariant.{IsTrie, Has, Stored, Stored-IsUnder}
use pig.Route.Trie.Longest.{
  combine, Eligible, NoneEligible, Finds, IsShort, mismatch, other_side, consider_here,
  Takes-IsShort,
}

split-Eligible :
    (width : ℕ) (ignore : List String) (dst b p : ℕ) (vs : List Route) (l r : Trie) (len key : ℕ)
    (route : Route)
    → Eligible width ignore dst len key route (node b p vs l r)
    → ((b ≡ len) × Has route vs)
      ⊎ (Eligible width ignore dst len key route l ⊎ Eligible width ignore dst len key route r)
split-Eligible width ignore dst b p vs l r len key route e = go e.stored
  where
    open e use {matches, allowed}

    go :
        Stored len key route (node b p vs l r)
        → ((b ≡ len) × Has route vs)
          ⊎ (Eligible width ignore dst len key route l ⊎ Eligible width ignore dst len key route r)
    go (inl (eb, ep, has)) = inl (eb, has)
    go (inr (inl s)) = inr (inl (record { stored = s; matches = matches; allowed = allowed }))
    go (inr (inr s)) = inr (inr (record { stored = s; matches = matches; allowed = allowed }))

too_long :
    (width : ℕ) (ignore : List String) (dst b v : ℕ) (t : Trie)
    → width ≤ b
    → IsTrie width (b + 1) v t
    → NoneEligible width ignore dst t
too_long width ignore dst b v t h w len key route e =
    let u = Stored-IsUnder width (b + 1) v len key route t w e.stored in
    absurd (omega (arith, u.lower, u.upper))

-- One node of the descent: the child `c` searched holds whatever else is eligible.
at_node :
    (width : ℕ) (ignore : List String) (dst n v b p : ℕ) (vs : List Route) (l r c : Trie)
    (best found : Best)
    → IsTrie width n v (node b p vs l r)
    → IsShort n best.len
    → top width b dst ≡ top width b p
    → ((len key : ℕ) (route : Route)
        → Eligible width ignore dst len key route c
        → Eligible width ignore dst len key route (node b p vs l r) × (b ≤ len))
    → ((len key : ℕ) (route : Route)
        → Eligible width ignore dst len key route l ⊎ Eligible width ignore dst len key route r
        → Eligible width ignore dst len key route c)
    → Finds width ignore dst (consider_all ignore b best vs) c found
    → Finds width ignore dst best (node b p vs l r) found
at_node width ignore dst n v b p vs l r c best found w short agree into from finds =
    combine width ignore dst b p vs c (node b p vs l r) best (consider_all ignore b best vs) found
      (λ route has ok. record { stored = inl (refl, refl, has); matches = agree; allowed = ok })
      into
      (λ len key route e. elim (split-Eligible width ignore dst b p vs l r len key route e) [
        | inl own ↦ inl own
        | inr below ↦ inr (from len key route below)
      ])
      (consider_here ignore n b best vs w.0 short w.4) finds

module _ (width : ℕ) (ignore : List String) (dst n v b p : ℕ) (vs : List Route) (l r : Trie)
    (best found : Best) (w : IsTrie width n v (node b p vs l r)) (short : IsShort n best.len)
    (agree : top width b dst ≡ top width b p) where
  at_full :
      width ≤ b
      → found ≡ consider_all ignore b best vs
      → Finds width ignore dst best (node b p vs l r) found
  at_full full same =
      at_node width ignore dst n v b p vs l r nil best found w short agree
        (λ len key route e. absurd e.stored)
        (λ len key route e. elim e [
          | inl e' ↦
              absurd (too_long width ignore dst b (2 * top width b p) l full w.5 len key route e')
          | inr e' ↦
              absurd
                (too_long width ignore dst b (2 * top width b p + 1) r full w.6 len key route e')
        ])
        (inl (same, λ len key route e. e.stored))

  at_left :
      b < width
      → get_bit width dst b ≡ 0
      → Finds width ignore dst (consider_all ignore b best vs) l found
      → Finds width ignore dst best (node b p vs l r) found
  at_left lt bit finds =
      at_node width ignore dst n v b p vs l r l best found w short agree
        (λ len key route e. (
          record { stored = inr (inl e.stored); matches = e.matches; allowed = e.allowed },
          let u = Stored-IsUnder width (b + 1) (2 * top width b p) len key route l w.5 e.stored in
              omega (arith, u.lower),
        ))
        (λ len key route e. elim e [
          | inl e' ↦ e'
          | inr e' ↦ absurd (
              other_side width ignore dst b p 1 r lt agree (λ q. absurd (omega arith)) w.6 len key
                route e')
        ])
        finds

  at_right :
      b < width
      → get_bit width dst b ≢ 0
      → Finds width ignore dst (consider_all ignore b best vs) r found
      → Finds width ignore dst best (node b p vs l r) found
  at_right lt bit finds =
      at_node width ignore dst n v b p vs l r r best found w short agree
        (λ len key route e. (
          record { stored = inr (inr e.stored); matches = e.matches; allowed = e.allowed },
          let u =
                Stored-IsUnder width (b + 1) (2 * top width b p + 1) len key route r w.6 e.stored in
              omega (arith, u.lower),
        ))
        (λ len key route e. elim e [
          | inl e' ↦
              absurd (other_side width ignore dst b p 0 l lt agree bit left_side len key route e')
          | inr e' ↦ e'
        ])
        finds
    where
      left_side : IsTrie width (b + 1) (2 * top width b p + 0) l
      left_side =
          let e : 2 * top width b p ≡ 2 * top width b p + 0 = omega arith in
          subst (λ x. IsTrie width (b + 1) x l) e w.5

-- The descent returns the longest eligible route below, or leaves the best route so far.
pub lookup_from-Finds :
    (width : ℕ) (ignore : List String) (dst n v : ℕ) (best : Best) (t : Trie)
    → shr dst width ≡ 0
    → IsTrie width n v t
    → IsShort n best.len
    → Finds width ignore dst best t (lookup_from width ignore dst best t)
unfolding lookup_from
lookup_from-Finds width ignore dst n v best nil fits w short =
    inl (refl, λ len key route e. e.stored)
lookup_from-Finds width ignore dst n v best (node b p vs l r) fits w short =
    elim (Bool-cases (ltb (common_bits width dst p) b)) [
      | inl out ↦ rw out (inl (refl, mismatch width ignore dst n v b p vs l r fits w out))
      | inr inside ↦
          let agree = (le-common_bits width b dst p fits w.2.fits w.1).0 (le_of_ltb _ b inside) in
          rw inside (elim (Bool-cases (leb width b)) [
            | inl full ↦ rw full (
                at_full width ignore dst n v b p vs l r best here w short agree
                  (le_of_leb width b full) refl)
            | inr deep ↦ rw deep (elim (Bool-cases (get_bit width dst b == 0)) [
              | inl left ↦ rw left (
                  at_left width ignore dst n v b p vs l r best (lookup_from width ignore dst here l)
                    w short agree (ground arith) (eq_of_== _ 0 left)
                    (lookup_from-Finds width ignore dst (b + 1) (2 * top width b p) here l fits w.5
                      short'))
              | inr right ↦ rw right (
                  at_right width ignore dst n v b p vs l r best
                    (lookup_from width ignore dst here r) w short agree (ground arith)
                    (ground arith)
                    (lookup_from-Finds width ignore dst (b + 1) (2 * top width b p + 1) here r fits
                      w.6 short'))
            ])
          ])
    ]
  where
    here : Best
    here = consider_all ignore b best vs

    short' : IsShort (b + 1) here.len
    short' =
        Takes-IsShort ignore n b best here vs w.0 short
          (consider_here ignore n b best vs w.0 short w.4)
