-- ===== src/Route/Trie/Replacing.antt =====
-- Replacing the routes of one prefix in one child of a node of pkg/route/table.go.
use pig.Base.{
  ℕ, ◌+◌, ◌*◌, ◌≤◌, ◌<◌, ◌≡◌, refl, sym, ap, subst, ◌∙◌, ◌≢◌, ◌⊎◌, inl, inr, ◌↔◌, List, [], ◌∷◌,
  ◌++◌, map, arith, ◌==◌, Bool-cases,
}
use pig.Route.Address.{Route, get_bit, common_bits}
use pig.Route.Prefix.{top, IsKey, top_agree, le-common_bits}
use pig.Route.Trie.{Trie, nil, node, leaf, with_children, add_route}
use pig.Route.Trie.Invariant.{IsTrie, Has, Stored, Stored-IsUnder}

-- The routes are those of `S`, but for one prefix, whose only route is the new one.
abbrev pub Replaced : ℕ → ℕ → Route → ℕ → ℕ → Route → Type 0 → Type 0
Replaced len key route len' key' route' S =
    ((len ≡ len') × (key ≡ key') × (route ≡ route')) ⊎ (S × ¬ ((len ≡ len') × (key ≡ key')))

pub Has-append :
    (r route : Route) (vs : List Route) → Has r (map (λ _. route) vs ++ (route ∷ [])) → route ≡ r
Has-append r route [] (inl e) = e
Has-append r route [] (inr h) = absurd h
Has-append r route (v ∷ vs) (inl e) = e
Has-append r route (v ∷ vs) (inr h) = Has-append r route vs h

pub append-Has : (route : Route) (vs : List Route) → Has route (map (λ _. route) vs ++ (route ∷ []))
append-Has route [] = inl refl
append-Has route (v ∷ vs) = inl refl

pub with_children-Stored :
    (b p : ℕ) (vs : List Route) (bit : ℕ) (child other : Trie) (len key : ℕ) (route : Route)
    → Stored len key route (with_children b p vs bit child other) ↔ (
        ((b ≡ len) × (p ≡ key) × Has route vs)
        ⊎ (Stored len key route child ⊎ Stored len key route other))
with_children-Stored b p vs bit child other len key route = elim (Bool-cases (bit == 0)) [
  | inl z ↦ rw z ((λ s. s, λ s. s))
  | inr o ↦ rw o (
      (
        λ s. elim s [ inl own ↦ inl own | inr (inl x) ↦ inr (inr x) | inr (inr x) ↦ inr (inl x) ],
        λ s. elim s [ inl own ↦ inl own | inr (inl x) ↦ inr (inr x) | inr (inr x) ↦ inr (inl x) ],
      ))
]

-- A trie below a node stores no route of the node's own prefix.
pub deeper :
    (width b v len key : ℕ) (route : Route) (t : Trie)
    → IsTrie width (b + 1) v t
    → Stored len key route t
    → b ≢ len
deeper width b v len key route t w s =
    let u = Stored-IsUnder width (b + 1) v len key route t w s in omega (arith, u.lower)

module _ (width len key : ℕ) (route : Route) (k : IsKey width len key) (bound : len ≤ width)
    (n v b p : ℕ) (vs : List Route) (l r : Trie) (w : IsTrie width n v (node b p vs l r))
    (len' key' : ℕ) (route' : Route) where
  -- The new prefix covers the node.
  pub above-Stored :
      len < b
      → Stored len' key' route'
          (with_children len key (route ∷ []) (get_bit width p len) (node b p vs l r) nil)
        ↔ Replaced len key route len' key' route' (Stored len' key' route' (node b p vs l r))
  above-Stored lt =
      let c =
        with_children-Stored len key (route ∷ []) (get_bit width p len) (node b p vs l r) nil len'
          key' route' in
      (
        λ s. elim (c.0 s) [
          | inl (e, e', inl q) ↦ inl (e, e', q)
          | inl (e, e', inr q) ↦ absurd q
          | inr (inl old) ↦ inr (old, λ q. other old q.0)
          | inr (inr no') ↦ absurd no'
        ],
        λ s. c.1 (elim s [ inl (e, e', q) ↦ inl (e, e', inl q) | inr (old, _) ↦ inr (inl old) ]),
      )
    where
      other : Stored len' key' route' (node b p vs l r) → len ≡ len' → ⊥
      other old e =
          let u =
            Stored-IsUnder width b (top width b p) len' key' route' (node b p vs l r)
              (omega arith, w.1, w.2, refl, w.4, w.5, w.6) old in
          omega (arith, u.lower)

  -- The node has the new prefix.
  pub same-Stored :
      len ≡ b
      → key ≡ p
      → Stored len' key' route' (node b p (add_route vs route) l r)
        ↔ Replaced len key route len' key' route' (Stored len' key' route' (node b p vs l r))
  unfolding add_route
  same-Stored e e' = (
    λ s. elim s [
      | inl (f, f', has) ↦ inl (e ∙ f, e' ∙ f', Has-append route' route vs has)
      | inr (inl s') ↦
          inr (inr (inl s'), λ q. deeper width b _ len' key' route' l w.5 s' (sym e ∙ q.0))
      | inr (inr s') ↦
          inr (inr (inr s'), λ q. deeper width b _ len' key' route' r w.6 s' (sym e ∙ q.0))
    ],
    λ s. elim s [
      | inl (f, f', q) ↦ inl (
        sym e ∙ f,
        sym e' ∙ f',
        subst (λ x. Has x (map (λ _. route) vs ++ (route ∷ []))) q (append-Has route vs),
      )
      | inr (inl (f, f', has), differ) ↦ absurd (differ (e ∙ f, e' ∙ f'))
      | inr (inr s', _) ↦ inr s'
    ],
  )

  -- The keys part at `shared`.
  pub diverge-Stored :
      (shared q : ℕ)
      → shared ≡ common_bits width key p
      → shared < len
      → shared < b
      → Stored len' key' route' (
          with_children shared q [] (get_bit width p shared) (node b p vs l r) (leaf len key route))
        ↔ Replaced len key route len' key' route' (Stored len' key' route' (node b p vs l r))
  diverge-Stored shared q e lt lt' =
      let c =
        with_children-Stored shared q [] (get_bit width p shared) (node b p vs l r)
          (leaf len key route) len' key' route' in
      (
        λ s. elim (c.0 s) [
          | inl (_, _, no') ↦ absurd no'
          | inr (inl old) ↦ inr (old, other old)
          | inr (inr (inl (f, f', inl g))) ↦ inl (f, f', g)
          | inr (inr (inl (f, f', inr no'))) ↦ absurd no'
          | inr (inr (inr (inl no'))) ↦ absurd no'
          | inr (inr (inr (inr no'))) ↦ absurd no'
        ],
        λ s. c.1 (elim s [
          | inl (f, f', g) ↦ inr (inr (inl (f, f', inl g)))
          | inr (old, _) ↦ inr (inl old)
        ]),
      )
    where
      other : Stored len' key' route' (node b p vs l r) → ¬ ((len ≡ len') × (key ≡ key'))
      other old same =
          let u =
            Stored-IsUnder width b (top width b p) len' key' route' (node b p vs l r)
              (omega arith, w.1, w.2, refl, w.4, w.5, w.6) old in
          let leads : top width b key ≡ top width b p = ap (top width b) same.1 ∙ u.leads in
          let agree = top_agree width (shared + 1) b key p (omega arith) leads in
          omega (
            arith,
            (le-common_bits width (shared + 1) key p k.fits w.2.fits (omega (arith, bound))).1
                agree,
          )

-- A subtree on the side of the other bit stores no route of the new prefix.
pub elsewhere :
    (width b p len key bit bit' : ℕ) (len' key' : ℕ) (route' : Route) (t : Trie)
    → bit ≢ bit'
    → top width (b + 1) key ≡ 2 * top width b p + bit
    → IsTrie width (b + 1) (2 * top width b p + bit') t
    → Stored len' key' route' t
    → ¬ ((len ≡ len') × (key ≡ key'))
elsewhere width b p len key bit bit' len' key' route' t ne lead w s same =
    let u = Stored-IsUnder width (b + 1) (2 * top width b p + bit') len' key' route' t w s in
    ne (omega (arith, ap (top width (b + 1)) same.1, u.leads))
