-- ===== src/Server/IpPool/Laws.antt =====
-- Which addresses the pool of pkg/server/ippool.go hands out.
use pig.Base.{
  ℕ, zero, suc, ◌+◌, ◌^◌, ◌≤◌, ◌<◌, ◌≡◌, refl, sym, ap, subst, ◌∙◌, ◌⊎◌, inl, inr, true, false,
  none, some, List, [], ◌∷◌, ◌==◌, if◌then◌else◌, arith, Bool-cases, eq_of_==, ne_of_==,
}
use pig.Base.Bytes.{int_bytes, IsBytesOf, int_bytes-IsBytesOf}
use pig.Route.Address.{Ip}
use pig.Server.IpPool.{
  Uint128, IpPool, key, same_key, is_used, without, first_free, base, ip_to_big_int, allocate,
  set_used, release,
}

-- An address of the pool is marked as taken.
abbrev pub IsTaken : IpPool → ℕ → Type 0
IsTaken p addr = is_used p.used (key addr) ≡ true

-- The addresses of the pool: after the network's own, and before its last.
pub record InPool (p : IpPool) (addr : ℕ) : Type 0 where
  pub above : base p < addr
  pub below : addr ≤ base p + p.max_hosts

same_key_iff : (a b : ℕ) → a < 2 ^ 128 → b < 2 ^ 128 → same_key (key a) (key b) ≡ (a == b)
unfolding key
same_key_iff a b ha hb = ground arith

is_used-without :
    (us : List Uint128) (k j : Uint128)
    → is_used (without us k) j ≡ (if same_key k j then false else is_used us j)
unfolding is_used without
is_used-without [] k j = ground arith
is_used-without (u ∷ us) k j = ground (arith, is_used-without us k j)

earlier :
    (used : List Uint128) (addr top : ℕ)
    → is_used used (key addr) ≡ true
    → ((a : ℕ) → addr + 1 ≤ a → a < top → is_used used (key a) ≡ true)
    → (a : ℕ) → addr ≤ a
    → a < top
    → is_used used (key a) ≡ true
earlier used addr top taken all a h h' = elim (Bool-cases (a == addr)) [
  | inl e ↦ subst (λ x. is_used used (key x) ≡ true) (sym (eq_of_== a addr e)) taken
  | inr n ↦ let ne = ne_of_== a addr n in all a (omega arith) h'
]

-- The loop stops at the first address that is not taken, or finds every one taken.
first_free_lem :
    (rounds : ℕ) (used : List Uint128) (addr : ℕ)
    → ((found : ℕ) × (first_free rounds used addr ≡ some found)
        × (addr ≤ found)
        × (found < addr + rounds)
        × (is_used used (key found) ≡ false)
        × ((a : ℕ) → addr ≤ a → a < found → is_used used (key a) ≡ true))
      ⊎ ((first_free rounds used addr ≡ none)
          × ((a : ℕ) → addr ≤ a → a < addr + rounds → is_used used (key a) ≡ true))
unfolding first_free
first_free_lem zero used addr = inr (refl, λ a h h'. absurd (omega arith))
first_free_lem (suc rounds) used addr = elim (Bool-cases (is_used used (key addr))) [
  | inr free ↦ inl (addr, rw free, omega arith, omega arith, free, λ a h h'. absurd (omega arith))
  | inl taken ↦ elim (first_free_lem rounds used (addr + 1)) [
    | inl (found, e, lo, hi, free, all) ↦
        inl (found, rw taken e, omega arith, omega arith, free, earlier used addr found taken all)
    | inr (e, all) ↦
        inr
          (rw taken e, λ a h h'. earlier used addr (addr + 1 + rounds) taken all a h (omega arith))
  ]
]

-- Whether an address is taken after `Allocate`.
taken_after :
    (us : List Uint128) (addr a : ℕ)
    → addr < 2 ^ 128
    → a < 2 ^ 128
    → is_used (key addr ∷ us) (key a) ≡ (if addr == a then true else is_used us (key a))
unfolding is_used
taken_after us addr a h h' = rw (same_key_iff addr a h h') (ground arith)

-- What `Allocate` promises of the address that it returns and of the pool that it leaves.
pub record Allocates (p : IpPool) (addr : ℕ) (p' : IpPool) : Type 0 where
  pub in_pool : InPool p addr
  pub was_free : is_used p.used (key addr) ≡ false
  pub lowest : (a : ℕ) → base p < a → a < addr → IsTaken p a
  pub taken :
      (a : ℕ)
      → a < 2 ^ 128
      → is_used p'.used (key a) ≡ (if addr == a then true else is_used p.used (key a))
  pub same_pool : (p'.network ≡ p.network) × (p'.family ≡ p.family) × (p'.max_hosts ≡ p.max_hosts)

-- In a pool whose addresses fit 128 bits, `Allocate` returns the bytes, without leading zeros, of the lowest free
-- address of the pool and marks that one alone as taken, and it fails exactly where every address
-- of the pool is taken.
pub allocate_lem :
    (p : IpPool)
    → base p + p.max_hosts < 2 ^ 128
    → ((addr : ℕ) × (bytes : List ℕ) × (p' : IpPool) × (allocate p ≡ some (bytes, p'))
        × IsBytesOf bytes addr
        × Allocates p addr p')
      ⊎ ((allocate p ≡ none) × ((a : ℕ) → InPool p a → IsTaken p a))
unfolding allocate
allocate_lem p h = elim (first_free_lem p.max_hosts p.used (base p + 1)) [
  | inl (addr, e, lo, hi, free, all) ↦ inl (
    addr,
    int_bytes addr,
    record p { used = key addr ∷ p.used },
    rw (e, allocate),
    int_bytes-IsBytesOf addr,
    record {
      in_pool = record { above = omega arith; below = omega arith };
      was_free = free;
      lowest = λ a x y. all a (omega arith) y;
      taken = λ a x. taken_after p.used addr a (omega arith) x;
      same_pool = (refl, refl, refl);
    },
  )
  | inr (e, all) ↦
      inr (rw (e, allocate), λ a i. all a (omega (arith, i.above)) (omega (arith, i.below)))
]

-- `Release` frees its address and `SetUsed` takes it, and no other address of 128 bits changes.
pub release-set_used :
    (p : IpPool) (ip : Ip) (a : ℕ)
    → ip_to_big_int p.family ip < 2 ^ 128
    → a < 2 ^ 128
    → (is_used (release p ip).used (key a)
        ≡ (if ip_to_big_int p.family ip == a then false else is_used p.used (key a)))
      × (is_used (set_used p ip).used (key a)
          ≡ (if ip_to_big_int p.family ip == a then true else is_used p.used (key a)))
unfolding release set_used
release-set_used p ip a h h' = (
  is_used-without p.used (key (ip_to_big_int p.family ip)) (key a)
      ∙ ap (λ b. if b then false else is_used p.used (key a))
          (same_key_iff (ip_to_big_int p.family ip) a h h'),
  taken_after p.used (ip_to_big_int p.family ip) a h h',
)
