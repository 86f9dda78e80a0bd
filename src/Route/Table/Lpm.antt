-- ===== src/Route/Table/Lpm.antt =====
-- `Lookup` of pkg/route/table.go against the textbook search of a map of prefixes.
use Prim.Native.String.{String}
use pig.Base.{
  ℕ, ◌≤◌, ◌<◌, ◌≡◌, refl, sym, ap, subst, ◌∙◌, ◌⊎◌, inl, inr, false, Option, none, some, List, [],
  ◌++◌, arith, Option-cases,
}
use mathlib.Core.Path.{subst₂}
use pig.Route.Table.History.{
  Op, run, Routes, Represents, AreRoutes, run_map, empty_map, run-Represents, new_table-Represents,
}
use pig.Base.Bits.{shr}
use pig.Route.Address.{Ip, Route, Family, bit_width}
use pig.Route.Prefix.{top}
use pig.Route.Trie.{Best, is_ignored}
use pig.Route.Trie.Invariant.{Stored-pos}
use pig.Route.Trie.Longest.{Eligible}
use pig.Route.Table.Laws.{IsTable, LooksUp, lookup_lem}
use pig.Route.Table.{Table, new_table, exclude_adapter, destination_key, lookup}

-- The textbook search of a map of prefixes: the longest that matches and is not excluded, or else
-- the route of the prefix of length 0.
pub record Picks (width : ℕ) (ignore : List String) (dst : ℕ) (m : Routes) (len key : ℕ)
    (route : Route) : Type 0 where
  pub mapped : m len key ≡ some route
  pub proper : 0 < len
  pub matches : top width len dst ≡ top width len key
  pub allowed : is_ignored ignore route.interface ≡ false

abbrev pub IsLpm : ℕ → List String → ℕ → Routes → Option Route → Type 0
IsLpm width ignore dst m found =
    ((len key : ℕ) × (route : Route) × Picks width ignore dst m len key route
      × (found ≡ some route)
      × ((len' key' : ℕ) (route' : Route) → Picks width ignore dst m len' key' route' → len' ≤ len))
    ⊎ (((len key : ℕ) (route : Route) → Picks width ignore dst m len key route → ⊥)
        × (found ≡ m 0 0))

module _ (m : Routes) (t : Table) (w : IsTable t) (rep : Represents m t) (dst : ℕ) where
  abbrev width : ℕ
  width = bit_width t.addresses

  Picks-Eligible :
      (len key : ℕ) (route : Route)
      → Picks width t.ignore dst m len key route
      → Eligible width t.ignore dst len key route t.root
  Picks-Eligible len key route p = record {
    stored = elim ((rep len key route).1 p.mapped) [
      | inl st ↦ st
      | inr (z, _, _) ↦ absurd (omega (arith, p.proper))
    ];
    matches = p.matches;
    allowed = p.allowed;
  }

  Eligible-Picks :
      (len key : ℕ) (route : Route)
      → Eligible width t.ignore dst len key route t.root
      → Picks width t.ignore dst m len key route
  Eligible-Picks len key route e = record {
    mapped = (rep len key route).0 (inl e.stored);
    proper = Stored-pos width 0 0 len key route t.root w e.stored;
    matches = e.matches;
    allowed = e.allowed;
  }

  default_mapped : (d : Option Route) → t.default_route ≡ d → d ≡ m 0 0
  default_mapped (some r) e = sym ((rep 0 0 r).0 (inr (refl, refl, e)))
  default_mapped none e = elim (Option-cases (m 0 0)) [
    | inl z ↦ sym z
    | inr (r, q) ↦ elim ((rep 0 0 r).1 q) [
      | inl st ↦ absurd (omega (arith, Stored-pos width 0 0 0 0 r t.root w st))
      | inr (_, _, e') ↦ cc
    ]
  ]

  LooksUp-IsLpm : (found : Option Route) → LooksUp t dst found → IsLpm width t.ignore dst m found
  LooksUp-IsLpm found (inl (best, l, e)) = inl (
    l.len,
    l.key,
    l.route,
    Eligible-Picks l.len l.key l.route l.eligible,
    e ∙ ap (λ (x : Best). x.route) l.result,
    λ len' key' route' p. l.longest len' key' route' (Picks-Eligible len' key' route' p),
  )
  LooksUp-IsLpm found (inr (none', e)) = inr (
    λ len key route p. none' len key route (Picks-Eligible len key route p),
    e ∙ default_mapped t.default_route refl,
  )

-- After any history of `Insert` and `Remove` for routes of the family, on a new table with some adapters
-- excluded, every call has returned, and `Lookup` of a destination that fits the family returns what
-- the textbook search finds in the map of the history.
pub history_lookup :
    (f : Family) (names : List String) (ops : List Op) (dst : Ip) (key : ℕ)
    → AreRoutes f ops
    → destination_key f dst ≡ some key
    → shr key (bit_width f) ≡ 0
    → (t : Table) × (run (exclude_adapter (new_table f) names) ops ≡ some t)
      × IsLpm (bit_width f) (names ++ []) key (run_map empty_map ops) (lookup t dst)
unfolding new_table exclude_adapter
history_lookup f names ops dst key h e fits =
    let (t, ran, u, rep) =
      run-Represents ops empty_map (exclude_adapter (new_table f) names) tt h
        (new_table-Represents f names) in
    (
      t,
      ran,
      subst₂ (λ g is. IsLpm (bit_width g) is key (run_map empty_map ops) (lookup t dst))
          u.same_addresses u.same_ignore
          (LooksUp-IsLpm (run_map empty_map ops) t u.is_table rep key (lookup t dst) (
            lookup_lem t dst key u.is_table
              (subst (λ g. destination_key g dst ≡ some key) (sym u.same_addresses) e)
              (subst (λ g. shr key (bit_width g) ≡ 0) (sym u.same_addresses) fits))),
    )
