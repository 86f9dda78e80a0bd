-- ===== src/Route/Trie/Invariant.antt =====
-- The invariant of the trie of pkg/route/table.go, and the routes that it stores.
use pig.Base.{ℕ, ◌+◌, ◌*◌, ◌≤◌, ◌<◌, ◌≡◌, sym, ap, subst, ◌∙◌, ◌⊎◌, inl, inr, List, [], ◌∷◌, arith}
use pig.Route.Address.{Route}
use pig.Route.Prefix.{top, IsKey, top_agree, top-suc, get_bit_lt}
use pig.Route.Trie.{Trie, nil, node}

-- Every node below has at least `n` bits, of which the first `n` are those of `v`; a child has one
-- more bit than its parent's prefix, and a node with routes is no prefix of length 0.
abbrev pub IsTrie : ℕ → ℕ → ℕ → Trie → Type 0
IsTrie width n v nil = Unit {0}
IsTrie width n v (node b p vs l r) =
    (n ≤ b)
    × (b ≤ width)
    × IsKey width b p
    × (top width n p ≡ v)
    × ((vs ≡ []) ⊎ (0 < b))
    × IsTrie width (b + 1) (2 * top width b p) l
    × IsTrie width (b + 1) (2 * top width b p + 1) r

abbrev pub Has : Route → List Route → Type 0
Has route [] = ⊥
Has route (v ∷ vs) = (v ≡ route) ⊎ Has route vs

-- A route stored under the prefix of length `len` and key `key`.
abbrev pub Stored : ℕ → ℕ → Route → Trie → Type 0
Stored len key route nil = ⊥
Stored len key route (node b p vs l r) =
    ((b ≡ len) × (p ≡ key) × Has route vs) ⊎ (Stored len key route l ⊎ Stored len key route r)

-- What the position of a stored route says of its prefix.
pub record IsUnder (width n v len key : ℕ) : Type 0 where
  pub lower : n ≤ len
  pub upper : len ≤ width
  pub is_key : IsKey width len key
  pub leads : top width n key ≡ v

-- A key whose first `b + 1` bits extend `p` agrees with `p` on the first `n`.
pub leads_up :
    (width n b p key bit : ℕ)
    → n ≤ b
    → b < width
    → bit < 2
    → top width (b + 1) key ≡ 2 * top width b p + bit
    → (top width b key ≡ top width b p) × (top width n key ≡ top width n p)
leads_up width n b p key bit h lt small e = (same, top_agree width n b key p h same)
  where
    same : top width b key ≡ top width b p
    same = omega (arith, top-suc width b key lt, get_bit_lt width key b)

child-IsUnder :
    {width n v b len key : ℕ} (p bit : ℕ)
    → n ≤ b
    → top width n p ≡ v
    → bit < 2
    → IsUnder width (b + 1) (2 * top width b p + bit) len key
    → IsUnder width n v len key
child-IsUnder {width} {n} {v} {b} {len} {key} p bit h e small u = record {
  lower = omega (arith, u.lower);
  upper = u.upper;
  is_key = u.is_key;
  leads = (leads_up width n b p key bit h (omega (arith, u.lower, u.upper)) small u.leads).1 ∙ e;
}

pub Stored-IsUnder :
    (width n v len key : ℕ) (route : Route) (t : Trie)
    → IsTrie width n v t
    → Stored len key route t
    → IsUnder width n v len key
Stored-IsUnder width n v len key route nil w s = absurd s
Stored-IsUnder width n v len key route (node b p vs l r) w (inl (eb, ep, has)) = record {
  lower = omega (arith, w.0);
  upper = omega (arith, w.1);
  is_key = subst (λ x. IsKey width x key) eb (subst (λ x. IsKey width b x) ep w.2);
  leads = ap (top width n) (sym ep) ∙ w.3;
}
Stored-IsUnder width n v len key route (node b p vs l r) w (inr (inl s)) =
    let e : 2 * top width b p ≡ 2 * top width b p + 0 = omega arith in
    child-IsUnder p 0 w.0 w.3 (omega arith) (
      subst (λ x. IsUnder width (b + 1) x len key) e
        (Stored-IsUnder width (b + 1) (2 * top width b p) len key route l w.5 s))
Stored-IsUnder width n v len key route (node b p vs l r) w (inr (inr s)) =
    child-IsUnder p 1 w.0 w.3 (omega arith)
      (Stored-IsUnder width (b + 1) (2 * top width b p + 1) len key route r w.6 s)

-- No route is stored under the prefix of length 0.
pub Stored-pos :
    (width n v len key : ℕ) (route : Route) (t : Trie)
    → IsTrie width n v t
    → Stored len key route t
    → 0 < len
Stored-pos width n v len key route nil w s = absurd s
Stored-pos width n v len key route (node b p vs l r) w (inl (eb, _, has)) = elim w.4 [
  | inl e ↦ absurd (subst (Has route) e has)
  | inr h ↦ omega arith
]
Stored-pos width n v len key route (node b p vs l r) w (inr (inl s)) =
    Stored-pos width (b + 1) (2 * top width b p) len key route l w.5 s
Stored-pos width n v len key route (node b p vs l r) w (inr (inr s)) =
    Stored-pos width (b + 1) (2 * top width b p + 1) len key route r w.6 s
