-- ===== src/Server/IpPool.antt =====
-- `IPPool` of pkg/server/ippool.go. The mutex makes each method one step. An address is the number
-- that the code computes with (`big.Int`), and `Allocate` returns its bytes, without leading zeros.
pub mod Laws
mod Tests
use pig.Base.{
  ℕ, zero, suc, ◌+◌, ◌-◌, ◌/◌, ◌%◌, ◌^◌, Bool, true, false, ◌&&◌, ◌||◌, Option, none, some, List,
  [], ◌∷◌, ◌==◌, ltb, if◌then◌else◌,
}
use pig.Base.Bytes.{int_bytes}
use pig.Route.Address.{Ip, to4, to16, Family, inet, inet6}

pub record Uint128 : Type 0 where
  pub hi : ℕ
  pub lo : ℕ

-- The network's address, and the `ones` and `bits` of its mask.
pub record Network : Type 0 where
  pub ip : Ip
  pub ones : ℕ
  pub bits : ℕ

pub record IpPool : Type 0 where
  pub network : Network
  pub family : Family
  pub max_hosts : ℕ
  pub used : List Uint128

unfoldable pub max_hosts : Network → ℕ
max_hosts n = 2 ^ (n.bits - n.ones)

-- Subtraction stops at 0 where the code's goes below it; the loop of `allocate` makes no round in
-- either case.
unfoldable pub new_ip_pool : Network → IpPool
unfolding to4 to16 max_hosts
new_ip_pool n = record {
  network = n;
  family = elim (to4 n.ip) [
    | some _ ↦ inet
    | none ↦ elim (to16 n.ip) [ some _ ↦ inet6 | none ↦ inet ]
  ];
  max_hosts = max_hosts n - 2;
  used = [];
}

unfoldable pub key : ℕ → Uint128
key n =
    if ltb n (2 ^ 64)
    then record { hi = 0; lo = n }
    else record { hi = n / 2 ^ 64 % 2 ^ 64; lo = n % 2 ^ 64 }

-- The bytes of a nil address are the number 0.
unfoldable pub ip_to_big_int : Family → Ip → ℕ
unfolding to4 to16
ip_to_big_int inet ip = elim (to4 ip) [ some n ↦ n | none ↦ 0 ]
ip_to_big_int inet6 ip = elim (to16 ip) [ some n ↦ n | none ↦ 0 ]

abbrev pub same_key : Uint128 → Uint128 → Bool
same_key a b = (a.hi == b.hi) && (a.lo == b.lo)

-- The map `used` holds only `true`: the list of its keys.
unfoldable pub is_used : List Uint128 → Uint128 → Bool
is_used [] k = false
is_used (u ∷ us) k = same_key u k || is_used us k

unfoldable pub without : List Uint128 → Uint128 → List Uint128
without [] k = []
without (u ∷ us) k = let rest = without us k in if same_key u k then rest else u ∷ rest

-- The loop of `Allocate`: the rounds left, and the address to try.
unfoldable pub first_free : ℕ → List Uint128 → ℕ → Option ℕ
first_free zero used addr = none
first_free (suc rounds) used addr =
    let rest = first_free rounds used (addr + 1) in
    if is_used used (key addr) then rest else some addr

abbrev pub base : IpPool → ℕ
base p = ip_to_big_int p.family p.network.ip

unfoldable pub allocate : IpPool → Option (List ℕ × IpPool)
unfolding first_free ip_to_big_int
allocate p = elim (first_free p.max_hosts p.used (base p + 1)) [
  | none ↦ none
  | some addr ↦ some (int_bytes addr, record p { used = key addr ∷ p.used })
]

unfoldable pub set_used : IpPool → Ip → IpPool
set_used p ip = record p { used = key (ip_to_big_int p.family ip) ∷ p.used }

unfoldable pub release : IpPool → Ip → IpPool
release p ip = record p { used = without p.used (key (ip_to_big_int p.family ip)) }
