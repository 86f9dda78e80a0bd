-- ===== src/Route/Trie/Insert.antt =====
-- `insert` of pkg/route/table.go below the root: the invariant, and the routes stored afterwards.
use pig.Base.{
  ℕ, ◌+◌, ◌-◌, ◌*◌, ◌≤◌, ◌<◌, ◌≡◌, refl, sym, subst, ◌∙◌, ◌≢◌, ◌⊎◌, inl, inr, List, [], ◌∷◌, min,
  arith, ltb, leb, ◌==◌, Bool-cases, eq_of_==, ne_of_==, lt_of_leb, le_of_leb, lt_of_ltb, le_of_ltb,
}
use pig.Base.Bits.{shr}
use pig.Route.Address.{Route, get_bit, common_bits, mask_prefix}
use pig.Route.Prefix.{
  top, IsKey, top_agree, top-suc, get_bit_lt, le-common_bits, top-mask_prefix, mask_prefix-IsKey,
}
use pig.Route.Trie.{Trie, nil, node, leaf, with_children, add_route, insert_at}
use pig.Route.Trie.Invariant.{IsTrie}

module _ (width n v b p : ℕ) (vs : List Route) (bit : ℕ) (child other : Trie) where
  with_children-IsTrie :
      bit < 2
      → n ≤ b
      → b ≤ width
      → IsKey width b p
      → top width n p ≡ v
      → (vs ≡ []) ⊎ (0 < b)
      → IsTrie width (b + 1) (2 * top width b p + bit) child
      → IsTrie width (b + 1) (2 * top width b p + (1 - bit)) other
      → IsTrie width n v (with_children b p vs bit child other)
  with_children-IsTrie small le bound k lead pos wc wo = elim (Bool-cases (bit == 0)) [
    | inl z ↦
        let e : 2 * top width b p + bit ≡ 2 * top width b p = ground arith in
        let e' : 2 * top width b p + (1 - bit) ≡ 2 * top width b p + 1 = ground arith in
        rw z (
          le,
          bound,
          k,
          lead,
          pos,
          subst (λ x. IsTrie width (b + 1) x child) e wc,
          subst (λ x. IsTrie width (b + 1) x other) e' wo,
        )
    | inr o ↦
        let e : 2 * top width b p + bit ≡ 2 * top width b p + 1 = ground arith in
        let e' : 2 * top width b p + (1 - bit) ≡ 2 * top width b p = ground arith in
        rw o (
          le,
          bound,
          k,
          lead,
          pos,
          subst (λ x. IsTrie width (b + 1) x other) e' wo,
          subst (λ x. IsTrie width (b + 1) x child) e wc,
        )
  ]

-- Where two keys first differ, one bit is the other's complement.
pub part_bits :
    (width a b shared : ℕ)
    → shr a width ≡ 0
    → shr b width ≡ 0
    → shared ≡ common_bits width a b
    → shared < width
    → get_bit width a shared ≡ 1 - get_bit width b shared
part_bits width a b shared fa fb e lt =
    elim (Bool-cases (get_bit width a shared == get_bit width b shared)) [
      | inl same ↦
          let bits = eq_of_== _ _ same in
          let agree = (le-common_bits width shared a b fa fb (omega arith)).0 (omega arith) in
          let more : top width (shared + 1) a ≡ top width (shared + 1) b =
            omega (arith, top-suc width shared a lt, top-suc width shared b lt) in
          absurd (omega (arith, (le-common_bits width (shared + 1) a b fa fb (omega arith)).1 more))
      | inr differ ↦
          let ne : get_bit width a shared ≢ get_bit width b shared = ground arith in
          omega (arith, get_bit_lt width a shared, get_bit_lt width b shared)
    ]

-- The four branches of the loop, for a route whose prefix belongs below the node.
module _ (width len key : ℕ) (route : Route) (k : IsKey width len key) (bound : len ≤ width)
    (pos : 0 < len) (n v b p : ℕ) (vs : List Route) (l r : Trie) (le : n ≤ len)
    (lead : top width n key ≡ v) (w : IsTrie width n v (node b p vs l r)) where
  shared_at : n ≤ common_bits width key p
  shared_at =
      (le-common_bits width n key p k.fits w.2.fits (omega (arith, bound))).1 (lead ∙ sym w.3)

  -- The new prefix covers the node.
  above-IsTrie :
      len ≤ common_bits width key p
      → len < b
      → IsTrie width n v
          (with_children len key (route ∷ []) (get_bit width p len) (node b p vs l r) nil)
  above-IsTrie shared lt =
      let agree = (le-common_bits width len key p k.fits w.2.fits bound).0 shared in
      with_children-IsTrie width n v len key (route ∷ []) (get_bit width p len) (node b p vs l r)
        nil (get_bit_lt width p len) le bound k lead (inr pos)
        (
          omega arith,
          w.1,
          w.2,
          let lt' : len < width = omega (arith, w.1) in omega (arith, top-suc width len p lt'),
          w.4,
          w.5,
          w.6,
        )
        tt

  -- The node has the new prefix.
  same-IsTrie : len ≡ b → IsTrie width n v (node b p (add_route vs route) l r)
  same-IsTrie e = (w.0, w.1, w.2, w.3, inr (omega arith), w.5, w.6)

  -- The keys part at `shared`.
  diverge-IsTrie :
      (shared : ℕ)
      → shared ≡ common_bits width key p
      → shared < len
      → shared < b
      → IsTrie width n v (
          with_children shared
            (mask_prefix width key shared)
            []
            (get_bit width p shared)
            (node b p vs l r)
            (leaf len key route))
  diverge-IsTrie shared e lt lt' =
      let small : shared ≤ width = omega (arith, bound) in
      let agree = (le-common_bits width shared key p k.fits w.2.fits small).0 (omega arith) in
      let m = top-mask_prefix width shared key small in
      with_children-IsTrie width n v shared (mask_prefix width key shared) []
        (get_bit width p shared) (node b p vs l r) (leaf len key route) (get_bit_lt width p shared)
        (omega (arith, shared_at)) small (mask_prefix-IsKey width shared key small k.fits)
        (top_agree width n shared (mask_prefix width key shared) key (omega (arith, shared_at)) m
          ∙ lead)
        (inl refl)
        (
          omega arith,
          w.1,
          w.2,
          omega (arith, top-suc width shared p (omega (arith, bound))),
          w.4,
          w.5,
          w.6,
        )
        (
          omega arith,
          bound,
          k,
          omega (
            arith,
            m,
            top-suc width shared key (omega (arith, bound)),
            part_bits width key p shared k.fits w.2.fits e (omega (arith, bound)),
          ),
          inr pos,
          tt,
          tt,
        )

-- The descent of `insert`, for a clean key of positive length within the width that lies under the
-- subtree's position, keeps the invariant of the trie.
pub insert_at-IsTrie :
    (width len key : ℕ) (route : Route) (n v : ℕ) (t : Trie)
    → IsKey width len key
    → len ≤ width
    → 0 < len
    → n ≤ len
    → top width n key ≡ v
    → IsTrie width n v t
    → IsTrie width n v (insert_at width len key route t)
unfolding insert_at
insert_at-IsTrie width len key route n v nil k bound pos le lead w =
    (le, bound, k, lead, inr pos, tt, tt)
insert_at-IsTrie width len key route n v (node b p vs l r) k bound pos le lead w =
    elim (Bool-cases (leb len shared)) [
      | inl up ↦ elim (Bool-cases (ltb len b)) [
        | inl lt ↦
            rw (up, lt)
              (above-IsTrie width len key route k bound pos n v b p vs l r le lead w
                (omega (arith, le_of_leb len shared up)) (lt_of_ltb len b lt))
        | inr ge ↦
            rw (up, ge)
              (same-IsTrie width len key route k bound pos n v b p vs l r le lead w
                (omega (arith, le_of_leb len shared up, le_of_ltb len b ge)))
      ]
      | inr down ↦ elim (Bool-cases (shared == b)) [
        | inl whole ↦
            let eb = eq_of_== shared b whole in
            let lt : b < len = omega (arith, lt_of_leb len shared down) in
            let agree = (le-common_bits width b key p k.fits w.2.fits w.1).0 (omega arith) in
            let next = top-suc width b key (omega (arith, bound)) in
            rw (down, whole)
              (elim (Bool-cases (get_bit width key b == 0)) [
                | inl left ↦ rw left (
                  w.0,
                  w.1,
                  w.2,
                  w.3,
                  w.4,
                  insert_at-IsTrie width len key route (b + 1) (2 * top width b p) l k bound pos
                      (omega arith) (omega (arith, eq_of_== _ 0 left)) w.5,
                  w.6,
                )
                | inr right ↦ rw right (
                  w.0,
                  w.1,
                  w.2,
                  w.3,
                  w.4,
                  w.5,
                  insert_at-IsTrie width len key route (b + 1) (2 * top width b p + 1) r k bound pos
                      (omega arith) (omega (arith, ne_of_== _ 0 right, get_bit_lt width key b)) w.6,
                )
              ])
        | inr part ↦
            rw (down, part)
              (diverge-IsTrie width len key route k bound pos n v b p vs l r le lead w shared
                (omega (arith, ne_of_== shared b part)) (lt_of_leb len shared down)
                (omega (arith, ne_of_== shared b part)))
      ]
    ]
  where
    shared : ℕ
    shared = min (common_bits width key p) b
