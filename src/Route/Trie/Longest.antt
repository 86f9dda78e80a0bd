-- ===== src/Route/Trie/Longest.antt =====
-- What `lookup` of pkg/route/table.go looks for in the trie, and its loop over the routes of a node.
use Prim.Native.String.{String}
use pig.Base.{
  ℕ, ◌+◌, ◌*◌, ◌≤◌, ◌<◌, ◌≡◌, refl, sym, ap, subst, ◌∙◌, ◌⊎◌, inl, inr, true, false, Option, none,
  some, List, [], ◌∷◌, ◌≢◌, arith, ltb, lt_of_ltb, ltb_of_lt, Bool-cases,
}
use pig.Base.Bits.{shr}
use pig.Route.Address.{Route, get_bit, common_bits}
use pig.Route.Prefix.{top, top_agree, top-suc, le-common_bits}
use pig.Route.Trie.{Trie, node, Best, is_ignored, longer, consider, consider_all}
use pig.Route.Trie.Invariant.{IsTrie, Has, Stored, Stored-IsUnder}

-- A stored route whose prefix matches the destination and whose interface is not excluded.
pub record Eligible (width : ℕ) (ignore : List String) (dst len key : ℕ) (route : Route) (t : Trie)
    : Type 0 where
  pub stored : Stored len key route t
  pub matches : top width len dst ≡ top width len key
  pub allowed : is_ignored ignore route.interface ≡ false

-- No route of the trie is eligible.
abbrev pub NoneEligible : ℕ → List String → ℕ → Trie → Type 0
NoneEligible width ignore dst t =
    (len key : ℕ) (route : Route) → Eligible width ignore dst len key route t → ⊥

-- The result is an eligible route, and no eligible route has a longer prefix.
pub record IsLongest (width : ℕ) (ignore : List String) (dst : ℕ) (t : Trie) (best : Best)
    : Type 0 where
  pub len : ℕ
  pub key : ℕ
  pub route : Route
  pub result : best ≡ record { route = some route; len = some len }
  pub eligible : Eligible width ignore dst len key route t
  pub longest :
      (len' key' : ℕ) (route' : Route) → Eligible width ignore dst len' key' route' t → len' ≤ len

-- What `lookup_from` makes of `best`: nothing is eligible and it is unchanged, or it is the longest.
abbrev pub Finds : ℕ → List String → ℕ → Best → Trie → Best → Type 0
Finds width ignore dst best t found =
    ((found ≡ best) × NoneEligible width ignore dst t) ⊎ IsLongest width ignore dst t found

-- A route found so far is shorter than every prefix to come.
abbrev pub IsShort : ℕ → Option ℕ → Type 0
IsShort n none = Unit {0}
IsShort n (some len) = (len < n) ⊎ (len ≡ 0)

-- The loop over `cur.value` takes the first route that is not excluded.
abbrev pub Takes : List String → ℕ → Best → List Route → Best → Type 0
Takes ignore b best vs found =
    ((found ≡ best) × ((r : Route) → Has r vs → is_ignored ignore r.interface ≡ true))
    ⊎ ((r : Route) × Has r vs
        × (is_ignored ignore r.interface ≡ false)
        × (found ≡ record { route = some r; len = some b }))

pub consider_all_done :
    (ignore : List String) (b : ℕ) (route : Route) (vs : List Route)
    → consider_all ignore b (record { route = some route; len = some b }) vs
      ≡ record { route = some route; len = some b }
unfolding consider_all consider
consider_all_done ignore b route [] = refl
consider_all_done ignore b route (v ∷ vs) = ground (arith, consider_all_done ignore b route vs)

pub consider_skip :
    (ignore : List String) (b : ℕ) (best : Best) (v : Route)
    → is_ignored ignore v.interface ≡ true
    → consider ignore b best v ≡ best
unfolding consider
consider_skip ignore b best v h = rw h

pub consider_take :
    (ignore : List String) (b : ℕ) (best : Best) (v : Route)
    → is_ignored ignore v.interface ≡ false
    → longer b best.len ≡ true
    → consider ignore b best v ≡ record { route = some v; len = some b }
unfolding consider
consider_take ignore b best v h k = rw (h, k)

pub consider_all-Takes_nil :
    (ignore : List String) (b : ℕ) (best : Best)
    → Takes ignore b best [] (consider_all ignore b best [])
unfolding consider_all
consider_all-Takes_nil ignore b best = inl (refl, λ r s. absurd s)

pub consider_all-Takes :
    (ignore : List String) (b : ℕ) (best : Best) (vs : List Route)
    → longer b best.len ≡ true
    → Takes ignore b best vs (consider_all ignore b best vs)
unfolding consider_all
consider_all-Takes ignore b best [] h = inl (refl, λ r s. absurd s)
consider_all-Takes ignore b best (v ∷ vs) h = elim (Bool-cases (is_ignored ignore v.interface)) [
  | inl skip ↦
      let e = ap (λ x. consider_all ignore b x vs) (consider_skip ignore b best v skip) in
      elim (consider_all-Takes ignore b best vs h) [
        | inl (same, all) ↦ inl (
          e ∙ same,
          λ r s. elim s [
            | inl q ↦ subst (λ (x : Route). is_ignored ignore x.interface ≡ true) q skip
            | inr s' ↦ all r s'
          ],
        )
        | inr (r, has, ok, found) ↦ inr (r, inr has, ok, e ∙ found)
      ]
  | inr take ↦ inr (
    v,
    inl refl,
    take,
    ap (λ x. consider_all ignore b x vs) (consider_take ignore b best v take h)
        ∙ consider_all_done ignore b v vs,
  )
]

-- The routes of a node and of the one child that is searched decide for the node.
module _ (width : ℕ) (ignore : List String) (dst b p : ℕ) (vs : List Route) (c t : Trie)
    (best here found : Best) where
  pub combine :
      ((r : Route)
        → Has r vs
        → is_ignored ignore r.interface ≡ false
        → Eligible width ignore dst b p r t)
      → ((len key : ℕ) (r : Route)
          → Eligible width ignore dst len key r c
          → Eligible width ignore dst len key r t × (b ≤ len))
      → ((len key : ℕ) (r : Route)
          → Eligible width ignore dst len key r t
          → ((b ≡ len) × Has r vs) ⊎ Eligible width ignore dst len key r c)
      → Takes ignore b best vs here
      → Finds width ignore dst here c found
      → Finds width ignore dst best t found
  combine own into from takes (inr l) = inr (record {
    len = l.len;
    key = l.key;
    route = l.route;
    result = l.result;
    eligible = (into l.len l.key l.route l.eligible).0;
    longest = λ len key r e. elim (from len key r e) [
      | inl (eb, _) ↦ omega (arith, (into l.len l.key l.route l.eligible).1)
      | inr e' ↦ l.longest len key r e'
    ];
  })
  combine own into from (inl (same, all)) (inl (kept, none')) = inl (
    kept ∙ same,
    λ len key r e. elim (from len key r e) [
      | inl (_, has) ↦ cc (all r has, e.allowed)
      | inr e' ↦ none' len key r e'
    ],
  )
  combine own into from (inr (r, has, ok, taken)) (inl (kept, none')) = inr (record {
    len = b;
    key = p;
    route = r;
    result = kept ∙ taken;
    eligible = own r has ok;
    longest = λ len key r' e. elim (from len key r' e) [
      | inl (eb, _) ↦ omega arith
      | inr e' ↦ absurd (none' len key r' e')
    ];
  })

-- Where the destination leaves the prefix of a node, nothing below it matches.
pub mismatch :
    (width : ℕ) (ignore : List String) (dst n v b p : ℕ) (vs : List Route) (l r : Trie)
    → shr dst width ≡ 0
    → IsTrie width n v (node b p vs l r)
    → ltb (common_bits width dst p) b ≡ true
    → NoneEligible width ignore dst (node b p vs l r)
mismatch width ignore dst n v b p vs l r fits w out len key route e =
    let u =
      Stored-IsUnder width b (top width b p) len key route (node b p vs l r)
        (omega arith, w.1, w.2, refl, w.4, w.5, w.6) e.stored in
    let agree = top_agree width b len dst key u.lower e.matches ∙ u.leads in
    let c = (le-common_bits width b dst p fits w.2.fits w.1).1 agree in
    absurd (omega (arith, lt_of_ltb (common_bits width dst p) b out))

-- Nor below the child on the side of the other bit.
pub other_side :
    (width : ℕ) (ignore : List String) (dst b p bit : ℕ) (t : Trie)
    → b < width
    → top width b dst ≡ top width b p
    → get_bit width dst b ≢ bit
    → IsTrie width (b + 1) (2 * top width b p + bit) t
    → NoneEligible width ignore dst t
other_side width ignore dst b p bit t lt agree differ w len key route e =
    let u = Stored-IsUnder width (b + 1) (2 * top width b p + bit) len key route t w e.stored in
    let same = top_agree width (b + 1) len dst key u.lower e.matches ∙ u.leads in
    differ (omega (arith, top-suc width b dst lt))

pub short_longer : (n b : ℕ) (l : Option ℕ) → IsShort n l → n ≤ b → 0 < b → longer b l ≡ true
short_longer n b none h le pos = refl
short_longer n b (some k) h le pos = ltb_of_lt k b (omega arith)

-- The routes of a matching node, taken in order.
pub consider_here :
    (ignore : List String) (n b : ℕ) (best : Best) (vs : List Route)
    → n ≤ b
    → IsShort n best.len
    → (vs ≡ []) ⊎ (0 < b)
    → Takes ignore b best vs (consider_all ignore b best vs)
consider_here ignore n b best [] le short pos = consider_all-Takes_nil ignore b best
consider_here ignore n b best (v ∷ vs) le short (inl e) = absurd (cc)
consider_here ignore n b best (v ∷ vs) le short (inr pos) =
    consider_all-Takes ignore b best (v ∷ vs) (short_longer n b best.len short le pos)

pub Takes-IsShort :
    (ignore : List String) (n b : ℕ) (best here : Best) (vs : List Route)
    → n ≤ b
    → IsShort n best.len
    → Takes ignore b best vs here
    → IsShort (b + 1) here.len
Takes-IsShort ignore n b best here vs le short (inl (e, _)) =
    subst (λ (x : Best). IsShort (b + 1) x.len) (sym e) (wider best.len short)
  where
    wider : (l : Option ℕ) → IsShort n l → IsShort (b + 1) l
    wider none s = tt
    wider (some k) (inl h) = inl (omega arith)
    wider (some k) (inr h) = inr h
Takes-IsShort ignore n b best here vs le short (inr (r, has, ok, e)) =
    subst (λ (x : Best). IsShort (b + 1) x.len) (sym e) (inl (omega arith))
