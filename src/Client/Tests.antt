-- ===== src/Client/Tests.antt =====
-- Runs of pkg/client/conntrack.go at concrete inputs.
use pig.Base.{ℕ, ◌+◌, ◌≡◌, refl, true, false, not, none, some, [], ◌∷◌, ◌==◌, if◌then◌else◌}
use pig.Client.Conntrack.{Tuple, port_based, Store, Table, find, is_expired, load_or_store, cleanup}
use pig.Client.Conntrack.Laws.{
  load_or_store_lem, cleanup_lem, IsTable, table_nil, table_cons, unless_expired,
}

abbrev outgoing : Tuple
outgoing = record {
  family = 4;
  src_ip = 10 ∷ 0 ∷ 0 ∷ 2 ∷ [];
  dest_ip = 8 ∷ 8 ∷ 8 ∷ 8 ∷ [];
  tuple_protocol = 17;
  protocol_data = port_based 5353 53;
  direction = 0;
}

-- The entry at place n expires at n.
abbrev places : Store
places n = record { in_mapped_dst = []; expire_at = n }

abbrev two_entries : Table
two_entries = (7, 50) ∷ (9, 150) ∷ []

two_entries-IsTable : IsTable two_entries
unfolding find
two_entries-IsTable = table_cons refl (table_cons refl table_nil)

-- While the call looks for the key 5, another call stores the entry 300 under it.
abbrev raced : Table
raced = (5, 300) ∷ two_entries

load_or_store_lem_example :
    let (t', actual, loaded) = load_or_store places 100 two_entries raced 5 200 in
    (actual ≡ (elim (find two_entries 5) [ none ↦ 200 | some old ↦ old ]))
    × (loaded
        ≡ (elim (find two_entries 5) [ none ↦ false | some old ↦ not (is_expired places 100 200) ]))
    × (loaded ≡ true → t' ≡ raced)
    × (loaded ≡ false → (j : ℕ) → find t' j ≡ (if 5 == j then some actual else find raced j))
load_or_store_lem_example = load_or_store_lem places 100 two_entries raced 5 200

cleanup_lem_example :
    IsTable (cleanup places (λ k. 93 + k) two_entries)
    × ((k : ℕ)
        → find (cleanup places (λ k. 93 + k) two_entries) k
          ≡ unless_expired places (93 + k) (find two_entries k))
cleanup_lem_example = cleanup_lem places (λ k. 93 + k) two_entries two_entries-IsTable

-- Both calls store an entry and report that none was loaded; the later one replaces the other's.
both_store :
    let (t', actual, loaded) = load_or_store places 100 two_entries raced 5 200 in
    (actual ≡ 200) × (loaded ≡ false) × (find t' 5 ≡ some 200)
unfolding load_or_store find is_expired
both_store = (refl, refl, refl)

-- The entry found is stored again, though another call has deleted it meanwhile.
deleted_comes_back :
    let (t', actual, loaded) = load_or_store places 100 two_entries [] 7 60 in
    (actual ≡ 50) × (loaded ≡ false) × (find t' 7 ≡ some 50)
unfolding load_or_store find is_expired
deleted_comes_back = (refl, refl, refl)

-- The entry found has expired, yet it is returned as loaded.
loads_an_expired_entry : (load_or_store places 100 two_entries two_entries 7 200).2 ≡ true
unfolding load_or_store find is_expired
loads_an_expired_entry = refl
