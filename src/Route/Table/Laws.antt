-- ===== src/Route/Table/Laws.antt =====
-- The methods of `Table` (pkg/route/table.go) for routes whose mask fits the address.
use pig.Base.{
  [], ℕ, ◌-◌, ◌≤◌, ◌≡◌, refl, sym, ap, subst, ◌∙◌, ◌⊎◌, inl, inr, true, Option, none, some, arith,
  ◌==◌, Bool-cases, eq_of_==,
}
use pig.Base.Bits.{shr, shl, shr-shl}
use pig.Route.Address.{
  Ip, v4, v6, to4, to16, Route, Family, inet, inet6, family, bit_width, keep_ones,
  route_to_table_prefix, route_to_prefix_bits, calculate_network_address,
}
use Prim.Native.String.{String}
use pig.Route.Prefix.{top, IsKey, fits_of_top}
use pig.Route.Trie.{Best, lookup_from}
use pig.Route.Trie.Invariant.{IsTrie}
use pig.Route.Trie.Lookup.{lookup_from-Finds}
use pig.Route.Trie.Longest.{NoneEligible, IsLongest, IsShort}
use pig.Route.Table.{Table, new_table, destination_key, start, lookup}

abbrev pub IsTable : Table → Type 0
IsTable t = IsTrie (bit_width t.addresses) 0 0 t.root

-- A route of the family whose network key has its prefix length.
pub record IsRoute (f : Family) (r : Route) : Type 0 where
  pub of_family : family r ≡ some f
  pub key : ℕ
  pub has_key : route_to_table_prefix r ≡ some key
  pub bound : r.destination.ones ≤ bit_width f
  pub is_key : IsKey (bit_width f) r.destination.ones key

pub new_table-IsTable : (f : Family) → IsTable (new_table f)
unfolding new_table
new_table-IsTable f = tt

start-IsShort : (r : Option Route) → IsShort 0 (start r).len
start-IsShort none = tt
start-IsShort (some r) = inr refl

-- What `Lookup` returns: the route of the longest prefix that matches and is not excluded, or,
-- where there is none, the default route.
abbrev pub LooksUp : Table → ℕ → Option Route → Type 0
LooksUp t key found =
    ((best : Best) × IsLongest (bit_width t.addresses) t.ignore key t.root best
      × (found ≡ best.route))
    ⊎ (NoneEligible (bit_width t.addresses) t.ignore key t.root × (found ≡ t.default_route))

start_route : (r : Option Route) → (start r).route ≡ r
start_route none = refl
start_route (some r) = refl

-- `Lookup` on a trie in order, for a destination of the table's family that fits its width, returns
-- the longest matching route that is not excluded, or the default route where there is none.
pub lookup_lem :
    (t : Table) (dst : Ip) (key : ℕ)
    → IsTable t
    → destination_key t.addresses dst ≡ some key
    → shr key (bit_width t.addresses) ≡ 0
    → LooksUp t key (lookup t dst)
unfolding lookup
lookup_lem t dst key w e fits = rw (e, lookup) (found _ refl)
  where
    found :
        (best : Best)
        → lookup_from (bit_width t.addresses) t.ignore key (start t.default_route) t.root ≡ best
        → LooksUp t key best.route
    found best eb =
        elim (lookup_from-Finds (bit_width t.addresses) t.ignore key 0 0 (start t.default_route)
          t.root fits w (start-IsShort t.default_route)) [
            | inl (same, none') ↦
                inr
                  (none', ap (λ (x : Best). x.route) (sym eb ∙ same) ∙ start_route t.default_route)
            | inr l ↦
                inl (best, subst (IsLongest (bit_width t.addresses) t.ignore key t.root) eb l, refl)
          ]

keep_ones-IsKey :
    (width ones n : ℕ) → ones ≤ width → shr n width ≡ 0 → IsKey width ones (keep_ones width ones n)
keep_ones-IsKey width ones n h fits = record {
  fits = fits_of_top width ones (keep_ones width ones n) n same ∙ fits;
  clean = ap (λ x. shl x (width - ones)) same;
}
  where
    same : top width ones (keep_ones width ones n) ≡ top width ones n
    same = shr-shl (shr n (width - ones)) (width - ones)

keep_all : (width n : ℕ) → keep_ones width width n ≡ n
unfolding shr shl
keep_all width n = let e : width - width ≡ 0 = omega arith in rw e

keep_whole : (width ones n : ℕ) → (ones == width) ≡ true → n ≡ keep_ones width ones n
keep_whole width ones n e =
    sym (keep_all width n) ∙ ap (λ x. keep_ones width x n) (sym (eq_of_== ones width e))

network4 :
    (n ones : ℕ)
    → calculate_network_address (record { ip = v4 n; ones = ones; bits = 32 })
      ≡ v4 (keep_ones 32 ones n)
unfolding calculate_network_address
network4 n ones = elim (Bool-cases (ones == 32)) [
  | inl e ↦ rw (e, calculate_network_address) (ap v4 (keep_whole 32 ones n e))
  | inr e ↦ rw (e, calculate_network_address)
]

network6 :
    (n ones : ℕ)
    → calculate_network_address (record { ip = v6 n; ones = ones; bits = 128 })
      ≡ v6 (keep_ones 128 ones n)
unfolding calculate_network_address
network6 n ones = elim (Bool-cases (ones == 128)) [
  | inl e ↦ rw (e, calculate_network_address) (ap v6 (keep_whole 128 ones n e))
  | inr e ↦ rw (e, calculate_network_address)
]

abbrev pub cidr : Ip → ℕ → ℕ → Ip → String → Route
cidr ip ones bits gateway interface = record {
  destination = record { ip = ip; ones = ones; bits = bits };
  gateway = gateway;
  interface = interface;
  link_addr = [];
}

-- A route to an IPv4 network of at most 32 bits is one that the IPv4 table stores, under the
-- network's address, whatever host of 32 bits it names.
pub cidr4-IsRoute :
    (n ones : ℕ) (gateway : Ip) (interface : String)
    → ones ≤ 32
    → shr n 32 ≡ 0
    → IsRoute inet (cidr (v4 n) ones 32 gateway interface)
unfolding family route_to_table_prefix route_to_prefix_bits
cidr4-IsRoute n ones gateway interface h fits = record {
  of_family = refl;
  key = keep_ones 32 ones n;
  has_key = rw (network4 n ones, route_to_table_prefix);
  bound = h;
  is_key = keep_ones-IsKey 32 ones n h fits;
}

-- A route to an IPv6 network of at most 128 bits is one that the IPv6 table stores, under the
-- network's address, where neither the host of 128 bits that it names nor that address is IPv4-mapped.
pub cidr6-IsRoute :
    (n ones : ℕ) (gateway : Ip) (interface : String)
    → ones ≤ 128
    → shr n 128 ≡ 0
    → to4 (v6 n) ≡ none
    → to4 (v6 (keep_ones 128 ones n)) ≡ none
    → IsRoute inet6 (cidr (v6 n) ones 128 gateway interface)
unfolding family route_to_table_prefix route_to_prefix_bits
cidr6-IsRoute n ones gateway interface h fits pure pure' = record {
  of_family = rw (pure, family);
  key = keep_ones 128 ones n;
  has_key = rw (network6 n ones, route_to_table_prefix) (rw pure' (ap to16 (network6 n ones)));
  bound = h;
  is_key = keep_ones-IsKey 128 ones n h fits;
}
