-- ===== src/Route/Trie/Remove.antt =====
-- `remove` and `compress` of pkg/route/table.go below the root: the invariant, and the routes of the prefix.
use pig.Base.{
  ne_of_==, ℕ, ◌+◌, ◌*◌, ◌≤◌, ◌<◌, ◌≡◌, refl, sym, subst, inl, inr, List, [], ◌∷◌, arith, ltb, ◌==◌,
  if◌then◌else◌, Bool-cases, eq_of_==, lt_of_ltb, le_of_ltb,
}
use pig.Route.Address.{Route, get_bit, common_bits}
use pig.Route.Prefix.{top, IsKey, top-suc, get_bit_lt, le-common_bits, eq_of_IsKey}
use pig.Route.Trie.{
  Trie, nil, node, has_value, Removal, missing, kept, replaced, compress_at, remove_at,
}
use pig.Route.Trie.Replacing.{deeper, elsewhere}
use pig.Route.Trie.Invariant.{IsTrie, Has, Stored, Stored-IsUnder}
use pig.Route.Trie.Emptied.{
  Removes, compress_at-Removes, emptied, emptied_left, left_side, emptied_right,
}

-- The descent of `remove` at a node and below it.
module _ (width n v len key b p : ℕ) (vs : List Route) (l r : Trie)
    (w : IsTrie width n v (node b p vs l r)) where
  -- At the node of the prefix's length, whose key must then be the route's.
  remove_here :
      (vs' : List Route)
      → vs' ≡ vs
      → b ≡ len
      → p ≡ key
      → Removes width n v len key
          (node b p vs l r)
          (if has_value vs' then compress_at b p [] l r else missing)
  remove_here [] ev e e' = λ x s. elim s [
    | inl (_, _, has) ↦ subst (Has x) (sym ev) has
    | inr (inl s') ↦ deeper width b _ len key x l w.5 s' e
    | inr (inr s') ↦ deeper width b _ len key x r w.6 s' e
  ]
  remove_here (x ∷ vs') ev e e' =
      compress_at-Removes width n v len key b p (node b p vs l r) [] l r
        (emptied width n v len key b p vs l r w e e' x (subst (Has x) ev (inl refl)))

  -- Below the node, once its child on the side of the key has been searched.
  remove_left :
      (out : Removal)
      → b < len
      → top width (b + 1) key ≡ 2 * top width b p
      → Removes width (b + 1) (2 * top width b p) len key l out
      → Removes width n v len key (node b p vs l r) (elim out [
        | missing ↦ missing
        | kept l' ↦ kept (node b p vs l' r)
        | replaced l' ↦ compress_at b p vs l' r
      ])
  remove_left missing lt lead d = λ x s. elim s [
    | inl own ↦ absurd (omega (arith, own.0))
    | inr (inl s') ↦ d x s'
    | inr (inr s') ↦
        elsewhere width b p len key 0 1 len key x r (λ e. absurd (omega arith)) (omega arith) w.6 s'
          (refl, refl)
  ]
  remove_left (kept l') lt lead d = emptied_left width n v len key b p vs l r w l' lt lead d
  remove_left (replaced l') lt lead d =
      compress_at-Removes width n v len key b p (node b p vs l r) vs l' r
        (emptied_left width n v len key b p vs l r w l' lt lead d)

  remove_right :
      (out : Removal)
      → b < len
      → top width (b + 1) key ≡ 2 * top width b p + 1
      → Removes width (b + 1) (2 * top width b p + 1) len key r out
      → Removes width n v len key (node b p vs l r) (elim out [
        | missing ↦ missing
        | kept r' ↦ kept (node b p vs l r')
        | replaced r' ↦ compress_at b p vs l r'
      ])
  remove_right missing lt lead d = λ x s. elim s [
    | inl own ↦ absurd (omega (arith, own.0))
    | inr (inl s') ↦
        elsewhere width b p len key 1 0 len key x l (λ e. absurd (omega arith)) lead
          (left_side width n v len key b p vs l r w) s' (refl, refl)
    | inr (inr s') ↦ d x s'
  ]
  remove_right (kept r') lt lead d = emptied_right width n v len key b p vs l r w r' lt lead d
  remove_right (replaced r') lt lead d =
      compress_at-Removes width n v len key b p (node b p vs l r) vs l r'
        (emptied_right width n v len key b p vs l r w r' lt lead d)

  -- A stored prefix agrees with the node on the node's bits.
  Stored-agrees :
      (x : Route)
      → Stored len key x (node b p vs l r)
      → (b ≤ len) × (top width b key ≡ top width b p)
  Stored-agrees x s =
      let u =
        Stored-IsUnder width b (top width b p) len key x (node b p vs l r)
          (omega arith, w.1, w.2, refl, w.4, w.5, w.6) s in
      (u.lower, u.leads)

-- `remove` deletes the routes of the prefix and no other, or says that the prefix has none.
pub remove_at-Removes :
    (width len key n v : ℕ) (t : Trie)
    → IsKey width len key
    → len ≤ width
    → IsTrie width n v t
    → Removes width n v len key t (remove_at width len key t)
unfolding remove_at
remove_at-Removes width len key n v nil k bound w = λ x s. s
remove_at-Removes width len key n v (node b p vs l r) k bound w =
    elim (Bool-cases (ltb (common_bits width key p) b)) [
      | inl out ↦ rw out (λ x s. absurd (
          omega (
            arith,
            lt_of_ltb _ b out,
            (le-common_bits width b key p k.fits w.2.fits w.1).1
                (Stored-agrees width n v len key b p vs l r w x s).1,
          )))
      | inr within ↦
          let agree = (le-common_bits width b key p k.fits w.2.fits w.1).0 (le_of_ltb _ b within) in
          rw within (elim (Bool-cases (b == len)) [
            | inl same ↦
                let e = eq_of_== b len same in
                rw same (
                  remove_here width n v len key b p vs l r w vs refl e (
                    sym (
                      eq_of_IsKey width b key p (subst (λ x. IsKey width x key) (sym e) k) w.2
                        agree)))
            | inr differ ↦
                let ne = ne_of_== b len differ in
                rw differ (elim (Bool-cases (ltb len b)) [
                  | inl lt ↦ rw lt (λ x s. absurd (
                      omega (
                        arith,
                        lt_of_ltb len b lt,
                        (Stored-agrees width n v len key b p vs l r w x s).0,
                      )))
                  | inr ge ↦
                      let lt : b < len = omega (arith, le_of_ltb len b ge) in
                      let next = top-suc width b key (omega (arith, bound)) in
                      rw ge (elim (Bool-cases (get_bit width key b == 0)) [
                        | inl left ↦
                            let lead : top width (b + 1) key ≡ 2 * top width b p =
                              omega (arith, eq_of_== _ 0 left) in
                            rw left (
                              remove_left width n v len key b p vs l r w _ lt lead (
                                remove_at-Removes width len key (b + 1) (2 * top width b p) l k
                                  bound w.5))
                        | inr right ↦
                            let lead : top width (b + 1) key ≡ 2 * top width b p + 1 =
                              omega (arith, ne_of_== _ 0 right, get_bit_lt width key b) in
                            rw right (
                              remove_right width n v len key b p vs l r w _ lt lead (
                                remove_at-Removes width len key (b + 1) (2 * top width b p + 1) r k
                                  bound w.6))
                      ])
                ])
          ])
    ]
