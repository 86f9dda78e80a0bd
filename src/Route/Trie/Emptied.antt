-- ===== src/Route/Trie/Emptied.antt =====
-- `remove` and `compress` of pkg/route/table.go at one node.
use pig.Base.{
  ℕ, ◌+◌, ◌*◌, ◌≤◌, ◌<◌, ◌≡◌, refl, sym, subst, ◌∙◌, inl, inr, ◌↔◌, List, [], ◌∷◌, arith,
}
use pig.Route.Address.{Route}
use pig.Route.Prefix.{top}
use pig.Route.Trie.{Trie, nil, node, Removal, missing, kept, replaced, compress_at}
use pig.Route.Trie.Replacing.{deeper, elsewhere}
use pig.Route.Trie.Invariant.{IsTrie, Has, Stored, leads_up}

-- `t'` is `t` without the routes of one prefix, of which there was one.
pub record Removed (width n v len key : ℕ) (t t' : Trie) : Type 0 where
  pub is_trie : IsTrie width n v t'
  pub route : Route
  pub existed : Stored len key route t
  pub others :
      (len' key' : ℕ) (route' : Route)
      → Stored len' key' route' t' ↔ (Stored len' key' route' t × ¬ ((len ≡ len') × (key ≡ key')))

abbrev pub Removes : ℕ → ℕ → ℕ → ℕ → ℕ → Trie → Removal → Type 0
Removes width n v len key t missing = (route : Route) → Stored len key route t → ⊥
Removes width n v len key t (kept t') = Removed width n v len key t t'
Removes width n v len key t (replaced t') = Removed width n v len key t t'

-- A child may stand where its parent stood.
pub raise :
    (width n v b p bit : ℕ) (t : Trie)
    → n ≤ b
    → top width n p ≡ v
    → bit < 2
    → IsTrie width (b + 1) (2 * top width b p + bit) t
    → IsTrie width n v t
raise width n v b p bit nil le lead small w = tt
raise width n v b p bit (node b' p' vs l r) le lead small w = (
  omega (arith, w.0),
  w.1,
  w.2,
  (leads_up width n b p p' bit le (omega (arith, w.0, w.1)) small w.3).1 ∙ lead,
  w.4,
  w.5,
  w.6,
)

-- A round of `compress` changes no stored route.
module _ (width n v len key b p : ℕ) (t : Trie) where
  pub compress_at-Removes :
      (vs : List Route) (l r : Trie)
      → Removed width n v len key t (node b p vs l r)
      → Removes width n v len key t (compress_at b p vs l r)
  unfolding compress_at
  compress_at-Removes (x ∷ vs) l r d = d
  compress_at-Removes [] nil r d = record {
    is_trie = let w = d.is_trie in raise width n v b p 1 r w.0 w.3 (omega arith) w.6;
    route = d.route;
    existed = d.existed;
    others = λ len' key' route'.
        let o = d.others len' key' route' in
        (
          λ s. o.0 (inr (inr s)),
          λ s. elim (o.1 s) [
            | inl own ↦ absurd own.2
            | inr (inl s') ↦ absurd s'
            | inr (inr s') ↦ s'
          ],
        );
  }
  compress_at-Removes [] (node b₁ p₁ vs₁ l₁ r₁) nil d = record {
    is_trie =
        let w = d.is_trie in
        let e : 2 * top width b p ≡ 2 * top width b p + 0 = omega arith in
        raise width n v b p 0 (node b₁ p₁ vs₁ l₁ r₁) w.0 w.3 (omega arith)
          (subst (λ x. IsTrie width (b + 1) x (node b₁ p₁ vs₁ l₁ r₁)) e w.5);
    route = d.route;
    existed = d.existed;
    others = λ len' key' route'.
        let o = d.others len' key' route' in
        (
          λ s. o.0 (inr (inl s)),
          λ s. elim (o.1 s) [
            | inl own ↦ absurd own.2
            | inr (inl s') ↦ s'
            | inr (inr s') ↦ absurd s'
          ],
        );
  }
  compress_at-Removes [] (node b₁ p₁ vs₁ l₁ r₁) (node b₂ p₂ vs₂ l₂ r₂) d = d

-- The node that holds the prefix gives up its routes.
module _ (width n v len key b p : ℕ) (vs : List Route) (l r : Trie)
    (w : IsTrie width n v (node b p vs l r)) where
  pub emptied :
      b ≡ len
      → p ≡ key
      → (x : Route) → Has x vs
      → Removed width n v len key (node b p vs l r) (node b p [] l r)
  emptied e e' x has = record {
    is_trie = (w.0, w.1, w.2, w.3, inl refl, w.5, w.6);
    route = x;
    existed = inl (e, e', has);
    others = λ len' key' route'. (
      λ s. elim s [
        | inl own ↦ absurd own.2
        | inr (inl s') ↦ (inr (inl s'), λ q. deeper width b _ len' key' route' l w.5 s' (e ∙ q.0))
        | inr (inr s') ↦ (inr (inr s'), λ q. deeper width b _ len' key' route' r w.6 s' (e ∙ q.0))
      ],
      λ (s, differ). elim s [
        | inl (f, f', _) ↦ absurd (differ (sym e ∙ f, sym e' ∙ f'))
        | inr s' ↦ inr s'
      ],
    );
  }

  -- A child gives up the prefix.
  pub emptied_left :
      (l' : Trie)
      → b < len
      → top width (b + 1) key ≡ 2 * top width b p
      → Removed width (b + 1) (2 * top width b p) len key l l'
      → Removed width n v len key (node b p vs l r) (node b p vs l' r)
  emptied_left l' lt lead d = record {
    is_trie = (w.0, w.1, w.2, w.3, w.4, d.is_trie, w.6);
    route = d.route;
    existed = inr (inl d.existed);
    others = λ len' key' route'.
        let o = d.others len' key' route' in
        (
          λ s. elim s [
            | inl own ↦ (inl own, λ q. absurd (omega (arith, own.0, q.0)))
            | inr (inl s') ↦ (inr (inl (o.0 s').0), (o.0 s').1)
            | inr (inr s') ↦ (
              inr (inr s'),
              elsewhere width b p len key 0 1 len' key' route' r (λ e. absurd (omega arith))
                  (omega arith) w.6 s',
            )
          ],
          λ (s, differ). elim s [
            | inl own ↦ inl own
            | inr (inl s') ↦ inr (inl (o.1 (s', differ)))
            | inr (inr s') ↦ inr (inr s')
          ],
        );
  }

  pub left_side : IsTrie width (b + 1) (2 * top width b p + 0) l
  left_side =
      let e : 2 * top width b p ≡ 2 * top width b p + 0 = omega arith in
      subst (λ x. IsTrie width (b + 1) x l) e w.5

  pub emptied_right :
      (r' : Trie)
      → b < len
      → top width (b + 1) key ≡ 2 * top width b p + 1
      → Removed width (b + 1) (2 * top width b p + 1) len key r r'
      → Removed width n v len key (node b p vs l r) (node b p vs l r')
  emptied_right r' lt lead d = record {
    is_trie = (w.0, w.1, w.2, w.3, w.4, w.5, d.is_trie);
    route = d.route;
    existed = inr (inr d.existed);
    others = λ len' key' route'.
        let o = d.others len' key' route' in
        (
          λ s. elim s [
            | inl own ↦ (inl own, λ q. absurd (omega (arith, own.0, q.0)))
            | inr (inl s') ↦ (
              inr (inl s'),
              elsewhere width b p len key 1 0 len' key' route' l (λ e. absurd (omega arith)) lead
                  left_side s',
            )
            | inr (inr s') ↦ (inr (inr (o.0 s').0), (o.0 s').1)
          ],
          λ (s, differ). elim s [
            | inl own ↦ inl own
            | inr (inl s') ↦ inr (inl s')
            | inr (inr s') ↦ inr (inr (o.1 (s', differ)))
          ],
        );
  }
