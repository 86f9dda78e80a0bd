-- ===== src/Route/Table/Update.antt =====
-- `Insert` and `Remove` of pkg/route/table.go on the whole table: which routes it holds afterwards.
use pig.Base.{
  ==_of_ne, ne_of_==, ℕ, ◌-◌, ◌<◌, ◌≡◌, refl, sym, ap, subst, ◌∙◌, ◌≢◌, ◌⊎◌, inl, inr, ◌↔◌, Bool,
  true, Option, none, some, arith, ◌==◌, Bool-cases, eq_of_==,
}
use mathlib.Core.Path.{subst₂}
use pig.Base.Bits.{shr, shl, zero-shl}
use pig.Route.Address.{Route, Family, inet, inet6, bit_width, route_to_prefix_bits}
use pig.Route.Prefix.{top, IsKey}
use pig.Route.Trie.{Trie, insert_at, Removal, missing, kept, replaced}
use pig.Route.Trie.Invariant.{Stored, Stored-pos}
use pig.Route.Trie.Insert.{insert_at-IsTrie}
use pig.Route.Trie.Contents.{insert_at-Stored}
use pig.Route.Trie.Replacing.{Replaced}
use pig.Route.Trie.Remove.{remove_at-Removes}
use pig.Route.Trie.Emptied.{Removed, Removes}
use pig.Route.Table.Laws.{IsTable, IsRoute}
use pig.Route.Table.{Table, same_family, insert, removed, remove, is_some}

-- A route of the table under its prefix; the default route has the prefix of length 0.
abbrev pub InTable : ℕ → ℕ → Route → Table → Type 0
InTable len key route t =
    Stored len key route t.root ⊎ ((len ≡ 0) × (key ≡ 0) × (t.default_route ≡ some route))

same_family_refl : (f : Family) → same_family f (some f) ≡ true
same_family_refl inet = refl
same_family_refl inet6 = refl

root_key : (width key : ℕ) → IsKey width 0 key → key ≡ 0
root_key width key k =
    let e : width - 0 ≡ width = omega arith in
    sym k.clean ∙ ap (λ y. shl (shr key y) y) e ∙ ap (λ x. shl x width) k.fits ∙ zero-shl width

-- What an update leaves alone.
pub record IsUpdate (t t' : Table) : Type 0 where
  pub is_table : IsTable t'
  pub same_ignore : t'.ignore ≡ t.ignore
  pub same_addresses : t'.addresses ≡ t.addresses

module _ (t : Table) (r : Route) (w : IsTable t) (h : IsRoute t.addresses r) where
  open h use {key}

  insert_default :
      r.destination.ones ≡ 0
      → (insert t r ≡ some (record t { default_route = some r }, true))
        × ((len' key' : ℕ) (route' : Route)
            → InTable len' key' route' (record t { default_route = some r })
              ↔ Replaced r.destination.ones key r len' key' route' (InTable len' key' route' t))
  unfolding insert route_to_prefix_bits
  insert_default z = (rw (h.of_family, same_family_refl t.addresses, z, insert), contents)
    where
      k0 : key ≡ 0
      k0 = root_key _ key (subst (λ x. IsKey (bit_width t.addresses) x key) z h.is_key)

      contents :
          (len' key' : ℕ) (route' : Route)
          → InTable len' key' route' (record t { default_route = some r })
            ↔ Replaced r.destination.ones key r len' key' route' (InTable len' key' route' t)
      contents len' key' route' = (
        λ s. elim s [
          | inl st ↦ inr (
            inl st,
            λ q. absurd (omega (arith, q.0, Stored-pos _ 0 0 len' key' route' t.root w st)),
          )
          | inr (e, e', g) ↦ inl (z ∙ sym e, k0 ∙ sym e', cc)
        ],
        λ s. elim s [
          | inl (e, e', g) ↦ inr (sym e ∙ z, sym e' ∙ k0, ap some g)
          | inr (inl st, _) ↦ inl st
          | inr (inr (e, e', _), differ) ↦ absurd (differ (z ∙ sym e, k0 ∙ sym e'))
        ],
      )

  insert_prefix :
      r.destination.ones ≢ 0
      → let root' = insert_at (bit_width t.addresses) r.destination.ones key r t.root in
        (insert t r ≡ some (record t { root = root' }, true))
        × IsTable (record t { root = root' })
        × ((len' key' : ℕ) (route' : Route)
            → InTable len' key' route' (record t { root = root' })
              ↔ Replaced r.destination.ones key r len' key' route' (InTable len' key' route' t))
  unfolding insert route_to_prefix_bits
  insert_prefix nz = (
    rw (h.of_family, same_family_refl t.addresses, ==_of_ne _ 0 nz, h.has_key, insert),
    insert_at-IsTrie (bit_width t.addresses) r.destination.ones key r 0 0 t.root h.is_key h.bound
        pos (omega arith) lead w,
    contents,
  )
    where
      pos : 0 < r.destination.ones
      pos = omega arith

      lead : top (bit_width t.addresses) 0 key ≡ 0
      lead =
          let e : bit_width t.addresses - 0 ≡ bit_width t.addresses = omega arith in
          ap (shr key) e ∙ h.is_key.fits

      contents :
          (len' key' : ℕ) (route' : Route)
          → InTable len' key' route' (record t {
            root = insert_at (bit_width t.addresses) r.destination.ones key r t.root;
          })
            ↔ Replaced r.destination.ones key r len' key' route' (InTable len' key' route' t)
      contents len' key' route' =
          let c =
            insert_at-Stored (bit_width t.addresses) r.destination.ones key r 0 0 t.root len' key'
              route' h.is_key h.bound (omega arith) lead w in
          (
            λ s. elim s [
              | inl st ↦ elim (c.0 st) [
                | inl same ↦ inl same
                | inr (old, differ) ↦ inr (inl old, differ)
              ]
              | inr d ↦ inr (inr d, λ q. absurd (nz (q.0 ∙ d.0)))
            ],
            λ s. elim s [
              | inl same ↦ inl (c.1 (inl same))
              | inr (inl old, differ) ↦ inl (c.1 (inr (old, differ)))
              | inr (inr d, _) ↦ inr d
            ],
          )

  -- `Insert` of a route of the table's family, on a trie in order, succeeds and keeps the trie in
  -- order: the new route is all that its prefix has, and every other prefix keeps its routes.
  pub insert_lem :
      (t' : Table) × (insert t r ≡ some (t', true))
      × IsUpdate t t'
      × ((len' key' : ℕ) (route' : Route)
          → InTable len' key' route' t'
            ↔ Replaced r.destination.ones key r len' key' route' (InTable len' key' route' t))
  insert_lem = elim (Bool-cases (r.destination.ones == 0)) [
    | inl z ↦
        let d = insert_default (eq_of_== _ 0 z) in
        (
          record t { default_route = some r },
          d.0,
          record { is_table = w; same_ignore = refl; same_addresses = refl },
          d.1,
        )
    | inr nz ↦
        let d = insert_prefix (ne_of_== _ 0 nz) in
        (_, d.0, record { is_table = d.1; same_ignore = refl; same_addresses = refl }, d.2)
  ]

  -- What `Remove` leaves, and what it reports.
  abbrev pub RemovesFrom : Table × Bool → Type 0
  RemovesFrom (t', done) =
      IsUpdate t t'
      × ((done ≡ true) ↔ ((route : Route) × InTable r.destination.ones key route t))
      × ((len' key' : ℕ) (route' : Route)
          → InTable len' key' route' t'
            ↔ (InTable len' key' route' t × ¬ ((r.destination.ones ≡ len') × (key ≡ key'))))

  not-Stored :
      r.destination.ones ≡ 0
      → (len' key' : ℕ) (route' : Route) → Stored len' key' route' t.root
      → ¬ ((r.destination.ones ≡ len') × (key ≡ key'))
  not-Stored z len' key' route' st q =
      absurd (omega (arith, q.0, Stored-pos _ 0 0 len' key' route' t.root w st))

  remove_default :
      (d : Option Route)
      → t.default_route ≡ d
      → r.destination.ones ≡ 0
      → RemovesFrom (record t { default_route = none }, is_some d)
  remove_default d ed z = (
    record { is_table = w; same_ignore = refl; same_addresses = refl },
    existed d ed,
    λ len' key' route'. (
      λ s. elim s [ inl st ↦ (inl st, not-Stored z len' key' route' st) | inr (_, _, no') ↦ cc ],
      λ (s, differ). elim s [
        | inl st ↦ inl st
        | inr (e, e', _) ↦ absurd (differ (z ∙ sym e, k0 ∙ sym e'))
      ],
    ),
  )
    where
      k0 : key ≡ 0
      k0 = root_key _ key (subst (λ x. IsKey (bit_width t.addresses) x key) z h.is_key)

      existed :
          (d' : Option Route)
          → t.default_route ≡ d'
          → (is_some d' ≡ true) ↔ ((route : Route) × InTable r.destination.ones key route t)
      existed none e = (
        λ q. cc,
        λ (route, s). elim s [
          | inl st ↦ absurd (not-Stored z _ key route st (refl, refl))
          | inr (_, _, g) ↦ cc
        ],
      )
      existed (some x) e = (λ q. (x, inr (z, k0, e)), λ s. refl)

  remove_prefix_found :
      (root : Trie)
      → r.destination.ones ≢ 0
      → Removed (bit_width t.addresses) 0 0 r.destination.ones key t.root root
      → RemovesFrom (record t { root = root }, true)
  remove_prefix_found root nz d = (
    record { is_table = d.is_trie; same_ignore = refl; same_addresses = refl },
    (λ q. (d.route, inl d.existed), λ s. refl),
    λ len' key' route'.
        let o = d.others len' key' route' in
        (
          λ s. elim s [
            | inl st ↦ (inl (o.0 st).0, (o.0 st).1)
            | inr d' ↦ (inr d', λ q. nz (q.0 ∙ d'.0))
          ],
          λ (s, differ). elim s [ inl st ↦ inl (o.1 (st, differ)) | inr d' ↦ inr d' ],
        ),
  )

  remove_prefix :
      (out : Removal)
      → r.destination.ones ≢ 0
      → Removes (bit_width t.addresses) 0 0 r.destination.ones key t.root out
      → RemovesFrom (removed t out)
  remove_prefix missing nz none' = (
    record { is_table = w; same_ignore = refl; same_addresses = refl },
    (
      λ q. cc,
      λ (route, s). elim s [ inl st ↦ absurd (none' route st) | inr (e, _, _) ↦ absurd (nz e) ],
    ),
    λ len' key' route'. (
      λ s. elim s [
        | inl st ↦ (
          inl st,
          λ q. none' route' (subst₂ (λ x y. Stored x y route' t.root) (sym q.0) (sym q.1) st),
        )
        | inr d ↦ (inr d, λ q. nz (q.0 ∙ d.0))
      ],
      λ (s, differ). s,
    ),
  )
  remove_prefix (kept root) nz d = remove_prefix_found root nz d
  remove_prefix (replaced root) nz d = remove_prefix_found root nz d

  -- `Remove` of a route of the table's family, on a trie in order, deletes exactly the routes of its
  -- prefix, keeps the trie in order, and reports whether there was such a route.
  pub remove_lem : (out : Table × Bool) × (remove t r ≡ some out) × RemovesFrom out
  unfolding remove route_to_prefix_bits
  remove_lem = elim (Bool-cases (r.destination.ones == 0)) [
    | inl z ↦ (
      _,
      rw (h.of_family, same_family_refl t.addresses, z, remove),
      remove_default t.default_route refl (eq_of_== _ 0 z),
    )
    | inr nz ↦ (
      _,
      rw (h.of_family, same_family_refl t.addresses, nz, h.has_key, remove),
      remove_prefix _ (ne_of_== _ 0 nz) (
          remove_at-Removes (bit_width t.addresses) r.destination.ones key 0 0 t.root h.is_key
            h.bound w),
    )
  ]
