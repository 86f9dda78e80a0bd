-- ===== src/Route/Trie/Contents.antt =====
-- The routes stored before and after `insert` of pkg/route/table.go.
use pig.Base.{
  ne_of_==, lt_of_leb, ℕ, ◌+◌, ◌*◌, ◌≤◌, ◌<◌, ◌≡◌, sym, subst, ◌⊎◌, inl, inr, ◌↔◌, List, min, arith,
  ltb, leb, ◌==◌, Bool-cases, eq_of_==, le_of_leb, lt_of_ltb, le_of_ltb,
}
use pig.Route.Address.{Route, get_bit, common_bits, mask_prefix}
use pig.Route.Prefix.{top, IsKey, top-suc, get_bit_lt, le-common_bits, eq_of_IsKey}
use pig.Route.Trie.{Trie, nil, node, insert_at}
use pig.Route.Trie.Invariant.{IsTrie, Has, Stored}
use pig.Route.Trie.Replacing.{above-Stored, diverge-Stored, same-Stored, Replaced, elsewhere}

-- The routes below a node once one of its children has changed.
descend :
    {own old new rest new' : Type 0} {len key len' key' : ℕ} {route route' : Route}
    → (own → ¬ ((len ≡ len') × (key ≡ key')))
    → (rest → ¬ ((len ≡ len') × (key ≡ key')))
    → (new ↔ Replaced len key route len' key' route' old)
    → (new' ↔ (own ⊎ (new ⊎ rest)))
    → new' ↔ Replaced len key route len' key' route' (own ⊎ (old ⊎ rest))
descend not_own not_rest ih shape = (
  λ s. elim (shape.0 s) [
    | inl o ↦ inr (inl o, not_own o)
    | inr (inl s') ↦ elim (ih.0 s') [
      | inl same ↦ inl same
      | inr (old', ne) ↦ inr (inr (inl old'), ne)
    ]
    | inr (inr s') ↦ inr (inr (inr s'), not_rest s')
  ],
  λ s. shape.1 (elim s [
    | inl same ↦ inr (inl (ih.1 (inl same)))
    | inr (inl o, ne) ↦ inl o
    | inr (inr (inl old'), ne) ↦ inr (inl (ih.1 (inr (old', ne))))
    | inr (inr (inr s'), ne) ↦ inr (inr s')
  ]),
)

flip_sides : {own a c : Type 0} → own ⊎ (a ⊎ c) → own ⊎ (c ⊎ a)
flip_sides (inl o) = inl o
flip_sides (inr (inl x)) = inr (inr x)
flip_sides (inr (inr x)) = inr (inl x)

flip_Replaced :
    {own a c : Type 0} {len key len' key' : ℕ} {route route' : Route}
    → Replaced len key route len' key' route' (own ⊎ (a ⊎ c))
    → Replaced len key route len' key' route' (own ⊎ (c ⊎ a))
flip_Replaced (inl same) = inl same
flip_Replaced (inr (s, ne)) = inr (flip_sides s, ne)

-- The node is an ancestor of the new prefix, and one of its children takes the route.
module _ (width len key : ℕ) (route : Route) (n v b p : ℕ) (vs : List Route) (l r new : Trie)
    (w : IsTrie width n v (node b p vs l r)) (lt : b < len) (len' key' : ℕ) (route' : Route) where
  left-Stored :
      top width (b + 1) key ≡ 2 * top width b p
      → (Stored len' key' route' new
          ↔ Replaced len key route len' key' route' (Stored len' key' route' l))
      → Stored len' key' route' (node b p vs new r)
        ↔ Replaced len key route len' key' route' (Stored len' key' route' (node b p vs l r))
  left-Stored lead ih =
      descend (λ o q. absurd (omega (arith, o.0, q.0)))
        (elsewhere width b p len key 0 1 len' key' route' r (λ e. absurd (omega arith))
          (omega arith) w.6)
        ih (λ s. s, λ s. s)

  right-Stored :
      top width (b + 1) key ≡ 2 * top width b p + 1
      → (Stored len' key' route' new
          ↔ Replaced len key route len' key' route' (Stored len' key' route' r))
      → Stored len' key' route' (node b p vs l new)
        ↔ Replaced len key route len' key' route' (Stored len' key' route' (node b p vs l r))
  right-Stored lead ih =
      let e : 2 * top width b p ≡ 2 * top width b p + 0 = omega arith in
      let d =
        descend {new' = Stored len' key' route' (node b p vs l new)}
          (λ (o : (b ≡ len') × (p ≡ key') × Has route' vs) q. absurd (omega (arith, o.0, q.0)))
          (elsewhere width b p len key 1 0 len' key' route' l (λ e. absurd (omega arith)) lead
            (subst (λ x. IsTrie width (b + 1) x l) e w.5))
          ih (flip_sides, flip_sides) in
      (λ s. flip_Replaced (d.0 s), λ s. d.1 (flip_Replaced s))

-- After `insert` the new prefix has the new route alone, and every other prefix what it had.
pub insert_at-Stored :
    (width len key : ℕ) (route : Route) (n v : ℕ) (t : Trie) (len' key' : ℕ) (route' : Route)
    → IsKey width len key
    → len ≤ width
    → n ≤ len
    → top width n key ≡ v
    → IsTrie width n v t
    → Stored len' key' route' (insert_at width len key route t)
      ↔ Replaced len key route len' key' route' (Stored len' key' route' t)
unfolding insert_at
insert_at-Stored width len key route n v nil len' key' route' k bound le lead w = (
  λ s. elim s [
    | inl (e, e', inl q) ↦ inl (e, e', q)
    | inl (e, e', inr no') ↦ absurd no'
    | inr (inl no') ↦ absurd no'
    | inr (inr no') ↦ absurd no'
  ],
  λ s. elim s [ inl (e, e', q) ↦ inl (e, e', inl q) | inr (no', _) ↦ absurd no' ],
)
insert_at-Stored width len key route n v (node b p vs l r) len' key' route' k bound le lead w =
    elim (Bool-cases (leb len shared)) [
      | inl up ↦ elim (Bool-cases (ltb len b)) [
        | inl lt ↦
            rw (up, lt)
              (above-Stored width len key route k bound n v b p vs l r w len' key' route'
                (lt_of_ltb len b lt))
        | inr ge ↦
            let e : len ≡ b = omega (arith, le_of_leb len shared up, le_of_ltb len b ge) in
            let agree =
              (le-common_bits width len key p k.fits w.2.fits bound).0
                (omega (arith, le_of_leb len shared up)) in
            rw (up, ge)
              (same-Stored width len key route k bound n v b p vs l r w len' key' route' e
                (eq_of_IsKey width len key p k (subst (λ x. IsKey width x p) (sym e) w.2) agree))
      ]
      | inr down ↦ elim (Bool-cases (shared == b)) [
        | inl whole ↦
            let eb = eq_of_== shared b whole in
            let lt : b < len = omega (arith, lt_of_leb len shared down) in
            let agree = (le-common_bits width b key p k.fits w.2.fits w.1).0 (omega arith) in
            let next = top-suc width b key (omega (arith, bound)) in
            rw (down, whole)
              (elim (Bool-cases (get_bit width key b == 0)) [
                | inl left ↦
                    let lead' : top width (b + 1) key ≡ 2 * top width b p =
                      omega (arith, eq_of_== _ 0 left) in
                    rw left (
                      left-Stored width len key route n v b p vs l r _ w lt len' key' route' lead' (
                        insert_at-Stored width len key route (b + 1) (2 * top width b p) l len' key'
                          route' k bound (omega arith) lead' w.5))
                | inr right ↦
                    let lead' : top width (b + 1) key ≡ 2 * top width b p + 1 =
                      omega (arith, ne_of_== _ 0 right, get_bit_lt width key b) in
                    rw right (
                      right-Stored width len key route n v b p vs l r _ w lt len' key' route' lead'
                        (insert_at-Stored width len key route (b + 1) (2 * top width b p + 1) r len'
                          key' route' k bound (omega arith) lead' w.6))
              ])
        | inr part ↦
            rw (down, part)
              (diverge-Stored width len key route k bound n v b p vs l r w len' key' route' shared
                (mask_prefix width key shared) (omega (arith, ne_of_== shared b part))
                (lt_of_leb len shared down) (omega (arith, ne_of_== shared b part)))
      ]
    ]
  where
    shared : ℕ
    shared = min (common_bits width key p) b
