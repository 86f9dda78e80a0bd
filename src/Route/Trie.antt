-- ===== src/Route/Trie.antt =====
-- The node operations of pkg/route/table.go. A pointer to a node is the subtree that it roots, so
-- `relink(parent, old, new)` is the parent rebuilt around the new subtree. `width` is the
-- table's `bitWidth()`.
pub mod Invariant
pub mod Longest
pub mod Lookup
pub mod Insert
pub mod Replacing
pub mod Contents
pub mod Emptied
pub mod Remove
use Prim.Native.String.{String}
use text.Mathlib.Text.{◌==◌ as str_eq}
use pig.Base.{
  ℕ, Bool, true, false, ◌&&◌, ◌||◌, not, Option, none, some, List, [], ◌∷◌, ◌++◌, ltb, leb, ◌==◌,
  if◌then◌else◌, min, map,
}
use pig.Route.Address.{Route, get_bit, common_bits, mask_prefix}

pub data Trie : Type 0 where
  nil : Trie
  node : ℕ → ℕ → List Route → Trie → Trie → Trie

-- `value[i] = route` for every i, then `append(value, route)`.
unfoldable pub add_route : List Route → Route → List Route
add_route value route = map (λ _. route) value ++ (route ∷ [])

abbrev pub is_nil : Trie → Bool
is_nil nil = true
is_nil (node b p vs l r) = false

abbrev pub has_value : List Route → Bool
has_value [] = false
has_value (v ∷ vs) = true

abbrev pub leaf : ℕ → ℕ → Route → Trie
leaf len key route = node len key (route ∷ []) nil nil

-- A node with the given child on the side of `bit`, and another on the other side.
abbrev pub with_children : ℕ → ℕ → List Route → ℕ → Trie → Trie → Trie
with_children b p vs bit child other =
    if bit == 0 then node b p vs child other else node b p vs other child

-- The descent of `insert` for a route of prefix length `len` and key `key`.
unfoldable pub insert_at : ℕ → ℕ → ℕ → Route → Trie → Trie
insert_at width len key route nil = leaf len key route
insert_at width len key route (node b p vs l r) =
    let shared = min (common_bits width key p) b in
    let descend : Trie = elim (get_bit width key b == 0) [
      | true ↦ node b p vs (insert_at width len key route l) r
      | false ↦ node b p vs l (insert_at width len key route r)
    ] in
    if leb len shared && ltb len b
    then with_children len key (route ∷ []) (get_bit width p len) (node b p vs l r) nil
    else if leb len shared
    then node b p (add_route vs route) l r
    else if shared == b
    then descend
    else with_children shared (mask_prefix width key shared) [] (get_bit width p shared)
        (node b p vs l r) (leaf len key route)

-- How `remove` and `compress` leave a subtree: no such prefix; kept, so that `compress` stops; or
-- replaced, so that it goes on at the parent.
pub data Removal : Type 0 where
  missing : Removal
  kept : Trie → Removal
  replaced : Trie → Removal

-- One round of `compress` at a node.
unfoldable pub compress_at : ℕ → ℕ → List Route → Trie → Trie → Removal
compress_at b p vs l r =
    if has_value vs || (not (is_nil l) && not (is_nil r))
    then kept (node b p vs l r)
    else replaced (if is_nil l then r else l)

unfoldable pub remove_at : ℕ → ℕ → ℕ → Trie → Removal
unfolding compress_at
remove_at width len key nil = missing
remove_at width len key (node b p vs l r) =
    let go_left : Removal = elim (remove_at width len key l) [
      | missing ↦ missing
      | kept l' ↦ kept (node b p vs l' r)
      | replaced l' ↦ compress_at b p vs l' r
    ] in
    let go_right : Removal = elim (remove_at width len key r) [
      | missing ↦ missing
      | kept r' ↦ kept (node b p vs l r')
      | replaced r' ↦ compress_at b p vs l r'
    ] in
    if ltb (common_bits width key p) b
    then missing
    else if b == len
    then (if has_value vs then compress_at b p [] l r else missing)
    else if ltb len b
    then missing
    else if get_bit width key b == 0
    then go_left
    else go_right

-- `best` and `bestLen`, the latter with `none` for -1.
pub record Best : Type 0 where
  pub route : Option Route
  pub len : Option ℕ

abbrev pub is_ignored : List String → String → Bool
is_ignored [] name = false
is_ignored (i ∷ is) name = str_eq i name || is_ignored is name

abbrev pub longer : ℕ → Option ℕ → Bool
longer b none = true
longer b (some len) = ltb len b

-- One round of the loop over `cur.value`.
unfoldable pub consider : List String → ℕ → Best → Route → Best
consider ignore b best r =
    if is_ignored ignore r.interface
    then best
    else if longer b best.len
    then record { route = some r; len = some b }
    else best

unfoldable pub consider_all : List String → ℕ → Best → List Route → Best
consider_all ignore b best [] = best
consider_all ignore b best (r ∷ rs) = consider_all ignore b (consider ignore b best r) rs

unfoldable pub lookup_from : ℕ → List String → ℕ → Best → Trie → Best
lookup_from width ignore dst best nil = best
lookup_from width ignore dst best (node b p vs l r) =
    let here = consider_all ignore b best vs in
    let below : Best = elim (get_bit width dst b == 0) [
      | true ↦ lookup_from width ignore dst here l
      | false ↦ lookup_from width ignore dst here r
    ] in
    if ltb (common_bits width dst p) b then best else if leb width b then here else below

-- The routes in the order in which `walk` calls `fn`.
unfoldable pub walk : Trie → List Route
walk nil = []
walk (node b p vs l r) = vs ++ (walk l ++ walk r)
