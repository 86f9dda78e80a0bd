-- ===== src/Base/Bits.antt =====
-- Shifts, bit lengths and exclusive or on unbounded numbers, as `math/big` has them.
use Prim.Native.Nat.{
  ℕ, zero, suc, ◌+◌, ◌-◌, ◌*◌, ◌/◌, ◌%◌, ◌≤◌, ◌<◌, bit_xor, digits, differ, bit_xor-bitwise,
}
use mathlib.Core.Path.{◌≡◌, refl, sym, ap, ◌∙◌}
use mathlib.Core.Logic.{◌↔◌}
use native.Mathlib.Omega.{arith}
use pig.Base.Tests.{◌==◌, if◌then◌else◌}

-- `x >> k`, `x << k` and `x.BitLen()`.
unfoldable pub shr : ℕ → ℕ → ℕ
shr x zero = x
shr x (suc k) = shr x k / 2

unfoldable pub shl : ℕ → ℕ → ℕ
shl x zero = x
shl x (suc k) = 2 * shl x k

-- A number has no more digits than itself, so it serves as the count of rounds.
bit_len_rounds : ℕ → ℕ → ℕ
bit_len_rounds zero x = 0
bit_len_rounds (suc f) x = let rest = suc (bit_len_rounds f (x / 2)) in if x == 0 then 0 else rest

unfoldable pub bit_len : ℕ → ℕ
unfolding bit_len_rounds
bit_len x = bit_len_rounds x x

pub shr-add : (x j k : ℕ) → shr x (j + k) ≡ shr (shr x j) k
unfolding shr
shr-add x j zero = ap (shr x) (omega arith)
shr-add x j (suc k) =
    let e : j + suc k ≡ suc (j + k) = omega arith in rw e (ap (λ y. y / 2) (shr-add x j k))

pub shr_half : (x k : ℕ) → shr (x / 2) k ≡ shr x (suc k)
unfolding shr
shr_half x zero = refl
shr_half x (suc k) = ap (λ y. y / 2) (shr_half x k)

pub zero-shr : (k : ℕ) → shr 0 k ≡ 0
unfolding shr
zero-shr zero = refl
zero-shr (suc k) = omega (arith, zero-shr k)

pub zero-shl : (k : ℕ) → shl 0 k ≡ 0
unfolding shl
zero-shl zero = refl
zero-shl (suc k) = omega (arith, zero-shl k)

pub shr-shl : (x k : ℕ) → shr (shl x k) k ≡ x
unfolding shr shl
shr-shl x zero = refl
shr-shl x (suc k) =
    sym (shr_half (2 * shl x k) k)
    ∙ ap (λ y. shr y k) (let e : 2 * shl x k / 2 ≡ shl x k = omega arith in e)
    ∙ shr-shl x k

-- Numbers that agree above a position agree above every later one.
pub shr_agree : (x y j k : ℕ) → j ≤ k → shr x j ≡ shr y j → shr x k ≡ shr y k
shr_agree x y j k h e =
    let s : j + (k - j) ≡ k = omega arith in
    ap (shr x) (sym s)
    ∙ shr-add x j (k - j)
    ∙ ap (λ z. shr z (k - j)) e
    ∙ sym (shr-add y j (k - j))
    ∙ ap (shr y) s

bit_len_rounds-suc : (f x : ℕ) → bit_len_rounds (suc f) (suc x) ≡ suc (bit_len_rounds f (suc x / 2))
unfolding bit_len_rounds
bit_len_rounds-suc f x = ground arith

bit_len_rounds-le : (f x k : ℕ) → x ≤ f → (bit_len_rounds f x ≤ k) ↔ (shr x k ≡ 0)
unfolding bit_len_rounds
bit_len_rounds-le zero zero k h = (λ _. zero-shr k, λ _. omega arith)
bit_len_rounds-le zero (suc x) k h = absurd (omega arith)
bit_len_rounds-le (suc f) zero k h = (λ _. zero-shr k, λ _. omega arith)
bit_len_rounds-le (suc f) (suc x) zero h = (
  λ p. absurd (omega (arith, bit_len_rounds-suc f x)),
  λ (e : shr (suc x) zero ≡ 0). absurd (unfold shr in omega arith),
)
bit_len_rounds-le (suc f) (suc x) (suc k) h =
    let ih = bit_len_rounds-le f (suc x / 2) k (omega arith) in
    (
      λ p. sym (shr_half (suc x) k) ∙ ih.0 (omega (arith, bit_len_rounds-suc f x)),
      λ e.
          let p : bit_len_rounds f (suc x / 2) ≤ k = ih.1 (shr_half (suc x) k ∙ e) in
          omega (arith, bit_len_rounds-suc f x),
    )

-- The bit length is the least shift that leaves nothing.
pub bit_len-le : (x k : ℕ) → (bit_len x ≤ k) ↔ (shr x k ≡ 0)
unfolding bit_len
bit_len-le x k = bit_len_rounds-le x x k (omega arith)

abbrev xor_digits : ℕ → ℕ → ℕ → ℕ
xor_digits n a b = digits (λ b. b) differ n a b

xor_digits_rounds : (n m a b : ℕ) → a ≤ n → a ≤ m → xor_digits n a b ≡ xor_digits m a b
xor_digits_rounds zero zero a b p q = refl
xor_digits_rounds zero (suc m) zero b p q = refl
xor_digits_rounds zero (suc m) (suc a) b p q = absurd (omega arith)
xor_digits_rounds (suc n) zero zero b p q = refl
xor_digits_rounds (suc n) zero (suc a) b p q = absurd (omega arith)
xor_digits_rounds (suc n) (suc m) zero b p q = refl
xor_digits_rounds (suc n) (suc m) (suc a) b p q =
    omega (arith, xor_digits_rounds n m (suc a / 2) (b / 2) (omega arith) (omega arith))

pub zero-bit_xor : (b : ℕ) → bit_xor 0 b ≡ b
zero-bit_xor b = bit_xor-bitwise 0 b

zero-differ : (y : ℕ) → differ 0 y ≡ y
zero-differ y = refl

pub bit_xor_step : (a b : ℕ) → bit_xor a b ≡ bit_xor (a / 2) (b / 2) * 2 + differ (a % 2) (b % 2)
bit_xor_step zero b = omega (arith, zero-bit_xor b, zero-bit_xor (b / 2), zero-differ (b % 2))
bit_xor_step (suc a) b = omega (
  arith,
  bit_xor-bitwise (suc a) b,
  bit_xor-bitwise (suc a / 2) (b / 2),
  xor_digits_rounds a (suc a / 2) (suc a / 2) (b / 2) (omega arith) (omega arith),
)

pub differ_bit : (x y : ℕ) → x < 2 → y < 2 → (differ x y ≤ 1) × ((differ x y ≡ 0) ↔ (x ≡ y))
differ_bit zero zero p q = (omega arith, (λ _. refl, λ _. refl))
differ_bit zero (suc zero) p q =
    (omega arith, (λ e. absurd (omega arith), λ e. absurd (omega arith)))
differ_bit (suc zero) zero p q =
    (omega arith, (λ e. absurd (omega arith), λ e. absurd (omega arith)))
differ_bit (suc zero) (suc zero) p q = (omega arith, (λ _. refl, λ _. refl))
differ_bit zero (suc (suc y)) p q = absurd (omega arith)
differ_bit (suc zero) (suc (suc y)) p q = absurd (omega arith)
differ_bit (suc (suc x)) y p q = absurd (omega arith)

bit_xor_half : (a b : ℕ) → bit_xor a b / 2 ≡ bit_xor (a / 2) (b / 2)
bit_xor_half a b =
    omega (arith, bit_xor_step a b, (differ_bit (a % 2) (b % 2) (omega arith) (omega arith)).0)

pub shr-bit_xor : (a b k : ℕ) → shr (bit_xor a b) k ≡ bit_xor (shr a k) (shr b k)
unfolding shr
shr-bit_xor a b zero = refl
shr-bit_xor a b (suc k) = ap (λ y. y / 2) (shr-bit_xor a b k) ∙ bit_xor_half (shr a k) (shr b k)

bit_xor_zero_bounded : (n a b : ℕ) → a ≤ n → b ≤ n → (bit_xor a b ≡ 0) ↔ (a ≡ b)
bit_xor_zero_bounded zero a b p q =
    let ea : a ≡ 0 = omega arith in
    let eb : b ≡ 0 = omega arith in rw (ea, eb) ((λ _. refl, λ _. refl))
bit_xor_zero_bounded (suc n) a b p q =
    let ih = bit_xor_zero_bounded n (a / 2) (b / 2) (omega arith) (omega arith) in
    let d = differ_bit (a % 2) (b % 2) (omega arith) (omega arith) in
    (
      λ e.
          let e1 : a / 2 ≡ b / 2 = ih.0 (omega (arith, bit_xor_step a b)) in
          let e2 : a % 2 ≡ b % 2 = d.1.0 (omega (arith, bit_xor_step a b)) in omega arith,
      λ e.
          let e1 : bit_xor (a / 2) (b / 2) ≡ 0 = ih.1 (omega arith) in
          let e2 : differ (a % 2) (b % 2) ≡ 0 = d.1.1 (omega arith) in
          omega (arith, bit_xor_step a b),
    )

pub bit_xor_zero : (a b : ℕ) → (bit_xor a b ≡ 0) ↔ (a ≡ b)
bit_xor_zero a b = bit_xor_zero_bounded (a + b) a b (omega arith) (omega arith)

-- Two numbers differ first below position `k` exactly when they agree from `k` on.
pub bit_len-xor-le : (a b k : ℕ) → (bit_len (bit_xor a b) ≤ k) ↔ (shr a k ≡ shr b k)
bit_len-xor-le a b k =
    let l = bit_len-le (bit_xor a b) k in
    let z = bit_xor_zero (shr a k) (shr b k) in
    (λ p. z.0 (sym (shr-bit_xor a b k) ∙ l.0 p), λ e. l.1 (shr-bit_xor a b k ∙ z.1 e))
