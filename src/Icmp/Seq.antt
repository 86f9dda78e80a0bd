-- ===== src/Icmp/Seq.antt =====
-- pkg/transport/icmp/seq.go: serial numbers of 32 and of 16 bits. A `uint32` is a number below
-- 2 ^ 32, and its subtraction wraps.
use pig.Base.{
  ℕ, ◌+◌, ◌-◌, ◌%◌, ◌^◌, ◌<◌, ◌≡◌, refl, Bool, false, ◌&&◌, ◌==◌, ltb, leb, if◌then◌else◌, arith,
}

-- `a - b` on `uint32`.
unfoldable pub sub32 : ℕ → ℕ → ℕ
sub32 a b = (a + (2 ^ 32 - b % 2 ^ 32)) % 2 ^ 32

unfoldable pub is_uint32_seq_higher : ℕ → ℕ → Bool
unfolding sub32
is_uint32_seq_higher a b = if a == b then false else ltb (sub32 a b) (2 ^ 31)

unfoldable pub uint32_seq_diff : ℕ → ℕ → ℕ
unfolding sub32
uint32_seq_diff a b = sub32 a b

unfoldable pub next_uint32_seq : ℕ → ℕ
next_uint32_seq seq = (seq + 1) % 2 ^ 32

unfoldable pub is_uint32_seq_in_window : ℕ → ℕ → ℕ → Bool
unfolding sub32
is_uint32_seq_in_window seq start end = leb (sub32 seq start) (sub32 end start)

unfoldable pub is_uint16_seq_higher : ℕ → ℕ → Bool
unfolding sub32
is_uint16_seq_higher a b = if a == b then false else ltb (sub32 a b % 2 ^ 16) (2 ^ 15)

unfoldable pub uint16_seq_diff : ℕ → ℕ → ℕ
uint16_seq_diff a b = (a % 2 ^ 16 + (2 ^ 16 - b % 2 ^ 16)) % 2 ^ 16

unfoldable pub next_uint16_seq : ℕ → ℕ
next_uint16_seq seq = (seq + 1) % 2 ^ 32 % 2 ^ 16

unfoldable pub is_uint16_seq_in_window : ℕ → ℕ → ℕ → Bool
unfolding sub32
is_uint16_seq_in_window seq start end = leb (sub32 seq start % 2 ^ 16) (sub32 end start % 2 ^ 16)

-- `x` advanced by `k` on a circle of `m` numbers.
abbrev pub ahead : ℕ → ℕ → ℕ → ℕ
ahead m x k = (x + k) % m

sub32-ahead : (x k : ℕ) → x < 2 ^ 32 → k < 2 ^ 32 → sub32 (ahead (2 ^ 32) x k) x ≡ k
unfolding sub32
sub32-ahead x k h h' = omega arith

sub16-ahead : (x k : ℕ) → x < 2 ^ 16 → k < 2 ^ 16 → sub32 (ahead (2 ^ 16) x k) x % 2 ^ 16 ≡ k
unfolding sub32
sub16-ahead x k h h' = omega arith

-- A 32-bit sequence number is higher than one that it is `k` ahead of exactly when `k` is positive
-- and less than half of the circle, whether or not it has wrapped, and their difference is `k`.
pub is_uint32_seq_higher_lem :
    (x k : ℕ)
    → x < 2 ^ 32
    → k < 2 ^ 32
    → (is_uint32_seq_higher (ahead (2 ^ 32) x k) x ≡ ltb 0 k && ltb k (2 ^ 31))
      × (uint32_seq_diff (ahead (2 ^ 32) x k) x ≡ k)
unfolding is_uint32_seq_higher uint32_seq_diff
is_uint32_seq_higher_lem x k h h' = rw (sub32-ahead x k h h') (ground arith)

-- A 16-bit sequence number is higher than one that it is `k` ahead of exactly when `k` is positive
-- and less than half of the circle, whether or not it has wrapped, and their difference is `k`.
pub is_uint16_seq_higher_lem :
    (x k : ℕ)
    → x < 2 ^ 16
    → k < 2 ^ 16
    → (is_uint16_seq_higher (ahead (2 ^ 16) x k) x ≡ ltb 0 k && ltb k (2 ^ 15))
      × (uint16_seq_diff (ahead (2 ^ 16) x k) x ≡ k)
unfolding is_uint16_seq_higher uint16_seq_diff
is_uint16_seq_higher_lem x k h h' = rw (sub16-ahead x k h h') (ground arith)

-- A sequence number `k` ahead of the start of a window that ends `n` ahead of its start is in the
-- window exactly when `k` is at most `n`, in 32 bits and in 16, wherever the window wraps.
pub is_seq_in_window_lem :
    (start k n : ℕ)
    → (start < 2 ^ 32
        → k < 2 ^ 32
        → n < 2 ^ 32
        → is_uint32_seq_in_window (ahead (2 ^ 32) start k) start (ahead (2 ^ 32) start n) ≡ leb k n)
      × (start < 2 ^ 16
          → k < 2 ^ 16
          → n < 2 ^ 16
          → is_uint16_seq_in_window (ahead (2 ^ 16) start k) start (ahead (2 ^ 16) start n)
            ≡ leb k n)
unfolding is_uint32_seq_in_window is_uint16_seq_in_window
is_seq_in_window_lem start k n = (
  λ s p q. rw (sub32-ahead start k s p, sub32-ahead start n s q) refl,
  λ s p q. rw (sub16-ahead start k s p, sub16-ahead start n s q) refl,
)
