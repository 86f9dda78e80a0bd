-- ===== src/Route/Table/Tests.antt =====
-- The route table at concrete routes: 10/8, and 10.1/16 inside it.
use pig.Base.{
  ℕ, ◌*◌, ◌+◌, ◌^◌, ◌≡◌, refl, inr, ◌↔◌, Bool, true, Option, none, some, List, [], ◌∷◌, arith,
}
use pig.Base.Bits.{shr, shl, bit_len}
use pig.Route.Address.{
  v4, Route, inet, get_bit, common_bits, family, route_to_table_prefix, route_to_prefix_bits,
}
use pig.Route.Trie.{insert_at, lookup_from, consider, consider_all, leaf}
use pig.Route.Trie.Replacing.{Replaced}
use pig.Route.Trie.Invariant.{IsTrie}
use pig.Route.Prefix.{IsKey}
use pig.Route.Table.{destination_key, Table, new_table, exclude_adapter, lookup, insert, remove}
use pig.Route.Table.Laws.{IsRoute, cidr, cidr4-IsRoute, LooksUp, lookup_lem}
use pig.Route.Table.Update.{InTable, IsUpdate, insert_lem, remove_lem, RemovesFrom}
use pig.Route.Table.History.{Op, add, apply, run, run_map, empty_map}
use pig.Route.Table.Lpm.{IsLpm, history_lookup}

abbrev ten_key : ℕ
ten_key = 10 * 2 ^ 24

abbrev ten_one_key : ℕ
ten_one_key = 10 * 2 ^ 24 + 2 ^ 16

abbrev host : ℕ
host = 10 * 2 ^ 24 + 2 ^ 16 + 5

abbrev ten : Route
ten = cidr (v4 ten_key) 8 32 (v4 1) "tun0"

abbrev ten_one : Route
ten_one = cidr (v4 ten_one_key) 16 32 (v4 2) "tun1"

abbrev history : List Op
history = add ten ∷ add ten_one ∷ []

abbrev loaded : Table
loaded = record { root = leaf 8 ten_key ten; default_route = none; ignore = []; addresses = inet }

ten-IsKey : IsKey 32 8 ten_key
unfolding shr shl
ten-IsKey = record { fits = refl; clean = refl }

ten_one-IsKey : IsKey 32 16 ten_one_key
unfolding shr shl
ten_one-IsKey = record { fits = refl; clean = refl }

loaded_trie : IsTrie 32 0 0 loaded.root
unfolding shr
loaded_trie = (omega arith, omega arith, ten-IsKey, refl, inr (omega arith), tt, tt)

ten-IsRoute : IsRoute inet ten
unfolding shr
ten-IsRoute = cidr4-IsRoute ten_key 8 (v4 1) "tun0" (omega arith) refl

ten_one-IsRoute : IsRoute inet ten_one
unfolding shr
ten_one-IsRoute = cidr4-IsRoute ten_one_key 16 (v4 2) "tun1" (omega arith) refl

lookup_lem_example : LooksUp loaded host (lookup loaded (v4 host))
unfolding shr destination_key
lookup_lem_example = lookup_lem loaded (v4 host) host loaded_trie refl refl

history_lookup_example :
    (t : Table) × (run (exclude_adapter (new_table inet) []) history ≡ some t)
    × IsLpm 32 [] host (run_map empty_map history) (lookup t (v4 host))
unfolding shr destination_key
history_lookup_example =
    history_lookup inet [] history (v4 host) host (ten-IsRoute, (ten_one-IsRoute, tt)) refl refl

remove_lem_example :
    (out : Table × Bool) × (remove loaded ten ≡ some out)
    × RemovesFrom loaded ten loaded_trie ten-IsRoute out
remove_lem_example = remove_lem loaded ten loaded_trie ten-IsRoute

insert_lem_example :
    (t : Table) × (insert loaded ten_one ≡ some (t, true))
    × IsUpdate loaded t
    × ((len key : ℕ) (route : Route)
        → InTable len key route t
          ↔ Replaced 16 ten_one-IsRoute.key ten_one len key route (InTable len key route loaded))
insert_lem_example = insert_lem loaded ten_one loaded_trie ten_one-IsRoute

abbrev looked_up : Option Table → List (Option Route)
looked_up none = []
looked_up (some t) = lookup t (v4 host) ∷ lookup t (v4 (host + 2 ^ 16)) ∷ []

-- The longer prefix wins inside it, and the shorter one serves the rest.
longest_wins : looked_up (run (new_table inet) history) ≡ some ten_one ∷ some ten ∷ []
unfolding run apply new_table insert lookup get_bit common_bits insert_at lookup_from consider_all
    consider family route_to_table_prefix route_to_prefix_bits destination_key shr shl bit_len
longest_wins = refl
