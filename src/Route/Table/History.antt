-- ===== src/Route/Table/History.antt =====
-- The route table of pkg/route/table.go beside an abstract table: a map from prefixes to routes, searched
-- from the longest prefix down, along a history of `Insert` and `Remove`.
use Prim.Native.String.{String}
use pig.Base.{
  ne_of_==, ℕ, ◌≡◌, refl, sym, ap, subst, ◌∙◌, ◌⊎◌, inl, inr, ◌↔◌, Bool, true, ◌&&◌, Option, none,
  some, List, [], ◌∷◌, arith, ◌==◌, if◌then◌else◌, Bool-cases, eq_of_==,
}
use pig.Route.Address.{Route, Family, route_to_table_prefix}
use pig.Route.Table.Laws.{IsTable, IsRoute}
use pig.Route.Trie.Replacing.{Replaced}
use pig.Route.Table.Update.{InTable, IsUpdate, insert_lem, remove_lem}
use pig.Route.Table.{Table, new_table, exclude_adapter, insert, remove}

pub data Op : Type 0 where
  add : Route → Op
  del : Route → Op

abbrev pub route_of : Op → Route
route_of (add r) = r
route_of (del r) = r

unfoldable pub apply : Table → Op → Option (Table × Bool)
apply t (add r) = insert t r
apply t (del r) = remove t r

-- The calls in order; `none` is a dereferenced nil key.
unfoldable pub run : Table → List Op → Option Table
run t [] = some t
run t (op ∷ ops) = elim (apply t op) [ none ↦ none | some (t', _) ↦ run t' ops ]

-- A map from a prefix, its length and its key, to its route.
abbrev pub Routes : Type 0
Routes = ℕ → ℕ → Option Route

pub prefix_key : Route → ℕ
prefix_key r = elim (route_to_table_prefix r) [ none ↦ 0 | some key ↦ key ]

abbrev pub update : Routes → ℕ → ℕ → Option Route → Routes
update m len key value len' key' = if (len == len') && (key == key') then value else m len' key'

abbrev pub apply_map : Routes → Op → Routes
apply_map m (add r) = update m r.destination.ones (prefix_key r) (some r)
apply_map m (del r) = update m r.destination.ones (prefix_key r) none

abbrev pub run_map : Routes → List Op → Routes
run_map m [] = m
run_map m (op ∷ ops) = run_map (apply_map m op) ops

abbrev pub Represents : Routes → Table → Type 0
Represents m t = (len key : ℕ) (route : Route) → InTable len key route t ↔ (m len key ≡ some route)

abbrev pub AreRoutes : Family → List Op → Type 0
AreRoutes f [] = Unit {0}
AreRoutes f (op ∷ ops) = IsRoute f (route_of op) × AreRoutes f ops

key_of : {f : Family} (r : Route) (h : IsRoute f r) → h.key ≡ prefix_key r
unfolding prefix_key
key_of r h = rw (h.has_key, prefix_key)

update_at :
    (m : Routes) (len key : ℕ) (value : Option Route) (len' key' : ℕ)
    → len ≡ len'
    → key ≡ key'
    → update m len key value len' key' ≡ value
update_at m len key value len' key' e e' = ground arith

same_or_not :
    (len key len' key' : ℕ) → ((len ≡ len') × (key ≡ key')) ⊎ ¬ ((len ≡ len') × (key ≡ key'))
same_or_not len key len' key' = elim (Bool-cases (len == len')) [
  | inl e ↦ elim (Bool-cases (key == key')) [
    | inl e' ↦ inl (eq_of_== len len' e, eq_of_== key key' e')
    | inr n ↦ inr (λ q. ne_of_== key key' n q.1)
  ]
  | inr n ↦ inr (λ q. ne_of_== len len' n q.0)
]

update_off :
    (m : Routes) (len key : ℕ) (value : Option Route) (len' key' : ℕ)
    → ¬ ((len ≡ len') × (key ≡ key'))
    → update m len key value len' key' ≡ m len' key'
update_off m len key value len' key' ne = elim (Bool-cases (len == len')) [
  | inl e ↦ elim (Bool-cases (key == key')) [
    | inl e' ↦ absurd (ne (eq_of_== len len' e, eq_of_== key key' e'))
    | inr n ↦ rw (e, n)
  ]
  | inr n ↦ rw n
]

-- One update of the map mirrors one update of the stored routes.
module _ (m : Routes) (len key len' key' : ℕ) (route' : Route) {S : Type 0}
    (old : S ↔ (m len' key' ≡ some route')) where
  update-some :
      (route : Route)
      → Replaced len key route len' key' route' S
        ↔ (update m len key (some route) len' key' ≡ some route')
  update-some route = elim (same_or_not len key len' key') [
    | inl (e, e') ↦
        let u = update_at m len key (some route) len' key' e e' in
        (
          λ s. elim s [ inl (_, _, q) ↦ u ∙ ap some q | inr (_, differ) ↦ absurd (differ (e, e')) ],
          λ q. inl (e, e', cc),
        )
    | inr ne ↦
        let u = update_off m len key (some route) len' key' ne in
        (
          λ s. elim s [ inl (e, e', _) ↦ absurd (ne (e, e')) | inr (o, _) ↦ u ∙ old.0 o ],
          λ q. inr (old.1 (sym u ∙ q), ne),
        )
  ]

  update-none :
      (S × ¬ ((len ≡ len') × (key ≡ key'))) ↔ (update m len key none len' key' ≡ some route')
  update-none = elim (same_or_not len key len' key') [
    | inl (e, e') ↦
        let u = update_at m len key none len' key' e e' in
        (λ (o, differ). absurd (differ (e, e')), λ q. cc)
    | inr ne ↦
        let u = update_off m len key none len' key' ne in
        (λ (o, _). u ∙ old.0 o, λ q. (old.1 (sym u ∙ q), ne))
  ]

iff_trans : {A B C : Type 0} → A ↔ B → B ↔ C → A ↔ C
iff_trans f g = (λ a. g.0 (f.0 a), λ c. f.1 (g.1 c))

apply-Represents :
    (m : Routes) (t : Table) (op : Op)
    → IsTable t
    → IsRoute t.addresses (route_of op)
    → Represents m t
    → (t' : Table) × (done : Bool) × (apply t op ≡ some (t', done))
      × IsUpdate t t'
      × Represents (apply_map m op) t'
unfolding apply
apply-Represents m t (add r) w h rep =
    let (t', e, u, c) = insert_lem t r w h in
    (
      t',
      true,
      e,
      u,
      subst (λ k. Represents (update m r.destination.ones k (some r)) t') (key_of r h)
          (λ len key route.
            iff_trans (c len key route)
              (update-some m r.destination.ones h.key len key route (rep len key route) r)),
    )
apply-Represents m t (del r) w h rep =
    let (out, e, rem) = remove_lem t r w h in
    (
      out.0,
      out.1,
      e,
      rem.0,
      subst (λ k. Represents (update m r.destination.ones k none) out.0) (key_of r h)
          (λ len key route.
            iff_trans (rem.2 len key route)
              (update-none m r.destination.ones h.key len key route (rep len key route))),
    )

-- Every history of valid calls runs to its end, and leaves the table holding the map's routes.
pub run-Represents :
    (ops : List Op) (m : Routes) (t : Table)
    → IsTable t
    → AreRoutes t.addresses ops
    → Represents m t
    → (t' : Table) × (run t ops ≡ some t') × IsUpdate t t' × Represents (run_map m ops) t'
unfolding run
run-Represents [] m t w h rep =
    (t, refl, record { is_table = w; same_ignore = refl; same_addresses = refl }, rep)
run-Represents (op ∷ ops) m t w (h, hs) rep =
    let (t₁, done, e, u, rep₁) = apply-Represents m t op w h rep in
    let (t₂, e₂, u₂, rep₂) =
      run-Represents ops (apply_map m op) t₁ u.is_table
        (subst (λ f. AreRoutes f ops) (sym u.same_addresses) hs) rep₁ in
    (
      t₂,
      rw (e, run) e₂,
      record {
        is_table = u₂.is_table;
        same_ignore = u₂.same_ignore ∙ u.same_ignore;
        same_addresses = u₂.same_addresses ∙ u.same_addresses;
      },
      rep₂,
    )

abbrev pub empty_map : Routes
empty_map len key = none

pub new_table-Represents :
    (f : Family) (names : List String) → Represents empty_map (exclude_adapter (new_table f) names)
unfolding new_table exclude_adapter
new_table-Represents f names len key route =
    (λ s. elim s [ inl no' ↦ absurd no' | inr (_, _, e) ↦ e ], λ e. cc)
