-- ===== src/Server/IpPool/Tests.antt =====
-- The pool of 10.0.0.0/29, of which 10.0.0.1 is taken.
use pig.Base.{ℕ, List, ◌+◌, ◌*◌, ◌^◌, ◌≡◌, refl, ◌⊎◌, none, some, [], ◌∷◌, arith}
use mathlib.Core.Option
use pig.Base.Bytes.{int_bytes, IsBytesOf}
use pig.Route.Address.{v4, inet}
use pig.Server.IpPool.{IpPool, key, is_used, ip_to_big_int, allocate}
use pig.Server.IpPool.Laws.{IsTaken, InPool, Allocates, allocate_lem}

abbrev ten : ℕ
ten = 10 * 2 ^ 24

abbrev pool : IpPool
pool = record {
  network = record { ip = v4 ten; ones = 29; bits = 32 };
  family = inet;
  max_hosts = 6;
  used = record { hi = 0; lo = ten + 1 } ∷ [];
}

allocate_lem_example :
    ((addr : ℕ) × (bytes : List ℕ) × (p' : IpPool) × (allocate pool ≡ some (bytes, p'))
      × IsBytesOf bytes addr
      × Allocates pool addr p')
    ⊎ ((allocate pool ≡ none) × ((a : ℕ) → InPool pool a → IsTaken pool a))
unfolding ip_to_big_int
allocate_lem_example = allocate_lem pool (omega arith)

second_address :
    Option.map (λ (r : List ℕ × IpPool). r.0) (allocate pool) ≡ some (10 ∷ 0 ∷ 0 ∷ 2 ∷ [])
unfolding allocate is_used key int_bytes
second_address = refl

abbrev low_pool : IpPool
low_pool = record {
  network = record { ip = v4 0; ones = 29; bits = 32 };
  family = inet;
  max_hosts = 6;
  used = [];
}

-- The address 0.0.0.1 comes back as a single byte.
one_byte : Option.map (λ (r : List ℕ × IpPool). r.0) (allocate low_pool) ≡ some (1 ∷ [])
unfolding allocate is_used key int_bytes
one_byte = refl
