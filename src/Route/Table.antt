-- ===== src/Route/Table.antt =====
-- `Table` of pkg/route/table.go. The mutex makes each exported method one step; a method that
-- changes the table returns the new one. A route whose mask does not fit its address has
-- a nil key: where the code dereferences it, the step is `none`, and so is an insertion into an empty
-- trie, which stores the nil key for the next call to dereference.
pub mod Laws
pub mod Update
pub mod History
pub mod Lpm
mod Tests
use Prim.Native.String.{String}
use pig.Base.{ℕ, Bool, true, false, Option, none, some, List, [], ◌∷◌, ◌++◌, ◌==◌, if◌then◌else◌}
use pig.Route.Address.{
  Ip, to4, to16, Route, Family, inet, inet6, family, bit_width, route_to_table_prefix,
  route_to_prefix_bits,
}
use pig.Route.Trie.{
  Trie, nil, is_nil, Best, Removal, missing, kept, replaced, insert_at, remove_at, lookup_from,
  walk,
}

pub record Table : Type 0 where
  pub root : Trie
  pub default_route : Option Route
  pub ignore : List String
  pub addresses : Family

unfoldable pub new_table : Family → Table
new_table f = record { root = nil; default_route = none; ignore = []; addresses = f }

unfoldable pub exclude_adapter : Table → List String → Table
exclude_adapter t names = record t { ignore = names ++ t.ignore }

unfoldable pub destination_key : Family → Ip → Option ℕ
unfolding to4 to16
destination_key inet dst = to4 dst
destination_key inet6 dst = elim (to4 dst) [ some _ ↦ none | none ↦ to16 dst ]

abbrev pub start : Option Route → Best
start none = record { route = none; len = none }
start (some r) = record { route = some r; len = some 0 }

unfoldable pub lookup : Table → Ip → Option Route
lookup t dst = elim (destination_key t.addresses dst) [
  | none ↦ none
  | some key ↦
      (lookup_from (bit_width t.addresses) t.ignore key (start t.default_route) t.root).route
]

abbrev pub same_family : Family → Option Family → Bool
same_family inet (some inet) = true
same_family inet6 (some inet6) = true
same_family f g = false

unfoldable pub insert : Table → Route → Option (Table × Bool)
insert t value =
    if same_family t.addresses (family value)
    then if route_to_prefix_bits value == 0
      then some (record t { default_route = some value }, true)
      else elim (route_to_table_prefix value) [
        | none ↦ none
        | some key ↦ some (
          record t {
            root = insert_at (bit_width t.addresses) (route_to_prefix_bits value) key value t.root;
          },
          true,
        )
      ]
    else some (t, false)

abbrev pub is_some : Option Route → Bool
is_some none = false
is_some (some r) = true

abbrev pub removed : Table → Removal → Table × Bool
removed t missing = (t, false)
removed t (kept root) = (record t { root = root }, true)
removed t (replaced root) = (record t { root = root }, true)

-- A nil key is not dereferenced on an empty trie.
abbrev pub remove_nil_key : Table → Option (Table × Bool)
remove_nil_key t = if is_nil t.root then some (t, false) else none

unfoldable pub remove : Table → Route → Option (Table × Bool)
remove t value =
    if same_family t.addresses (family value)
    then if route_to_prefix_bits value == 0
      then some (record t { default_route = none }, is_some t.default_route)
      else elim (route_to_table_prefix value) [
        | none ↦ remove_nil_key t
        | some key ↦
            some (
              removed t (remove_at (bit_width t.addresses) (route_to_prefix_bits value) key t.root))
      ]
    else some (t, false)

-- The routes in the order in which `Walk` calls `fn`.
unfoldable pub walk_table : Table → List Route
walk_table t = elim t.default_route [ none ↦ walk t.root | some r ↦ r ∷ walk t.root ]
