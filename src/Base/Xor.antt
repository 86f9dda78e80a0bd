-- ===== src/Base/Xor.antt =====
-- Exclusive or undone by itself, on numbers and on lists of them.
use Prim.Native.Nat.{ℕ, zero, suc, ◌+◌, ◌/◌, ◌%◌, ◌^◌, ◌≤◌, ◌<◌, bit_xor, differ}
use mathlib.Core.Path.{◌≡◌, refl, ap, ap₂, ◌∙◌}
use mathlib.Core.List.{List, [], ◌∷◌}
use native.Mathlib.Omega.{arith}
use pig.Base.Lists.{length}
use pig.Base.Bits.{bit_xor_step, differ_bit}

differ_back : (x y : ℕ) → x < 2 → y < 2 → differ (differ x y) y ≡ x
differ_back zero zero p q = refl
differ_back zero (suc zero) p q = refl
differ_back (suc zero) zero p q = refl
differ_back (suc zero) (suc zero) p q = refl
differ_back zero (suc (suc y)) p q = absurd (omega arith)
differ_back (suc zero) (suc (suc y)) p q = absurd (omega arith)
differ_back (suc (suc x)) y p q = absurd (omega arith)

bit_xor_back_bounded : (n a b : ℕ) → a ≤ n → b ≤ n → bit_xor (bit_xor a b) b ≡ a
bit_xor_back_bounded zero a b p q =
    let ea : a ≡ 0 = omega arith in let eb : b ≡ 0 = omega arith in rw (ea, eb) refl
bit_xor_back_bounded (suc n) a b p q =
    let x = bit_xor a b in
    let d = differ_bit (a % 2) (b % 2) (omega arith) (omega arith) in
    let half : x / 2 ≡ bit_xor (a / 2) (b / 2) = omega (arith, bit_xor_step a b, d.0) in
    let low : x % 2 ≡ differ (a % 2) (b % 2) = omega (arith, bit_xor_step a b, d.0) in
    let ih : bit_xor (x / 2) (b / 2) ≡ a / 2 =
      ap (λ y. bit_xor y (b / 2)) half
      ∙ bit_xor_back_bounded n (a / 2) (b / 2) (omega arith) (omega arith) in
    let bit : differ (x % 2) (b % 2) ≡ a % 2 =
      ap (λ y. differ y (b % 2)) low ∙ differ_back (a % 2) (b % 2) (omega arith) (omega arith) in
    omega (arith, bit_xor_step x b, ih, bit)

pub bit_xor_back : (a b : ℕ) → bit_xor (bit_xor a b) b ≡ a
bit_xor_back a b = bit_xor_back_bounded (a + b) a b (omega arith) (omega arith)

pub bit_xor_lt : (k a b : ℕ) → a < 2 ^ k → b < 2 ^ k → bit_xor a b < 2 ^ k
bit_xor_lt zero a b p q =
    let ea : a ≡ 0 = omega arith in let eb : b ≡ 0 = omega arith in rw (ea, eb) (omega arith)
bit_xor_lt (suc k) a b p q =
    let d = differ_bit (a % 2) (b % 2) (omega arith) (omega arith) in
    omega (arith, bit_xor_step a b, d.0, bit_xor_lt k (a / 2) (b / 2) (omega arith) (omega arith))

-- The bytes of one list, each with that of another.
abbrev pub xor_bytes : List ℕ → List ℕ → List ℕ
xor_bytes [] ks = []
xor_bytes (x ∷ xs) [] = []
xor_bytes (x ∷ xs) (k ∷ ks) = bit_xor x k ∷ xor_bytes xs ks

pub length-xor_bytes :
    (xs ks : List ℕ) → length xs ≤ length ks → length (xor_bytes xs ks) ≡ length xs
length-xor_bytes [] ks h = refl
length-xor_bytes (x ∷ xs) [] h = absurd (omega arith)
length-xor_bytes (x ∷ xs) (k ∷ ks) h = ap suc (length-xor_bytes xs ks (omega arith))

pub xor_bytes_back : (xs ks : List ℕ) → length xs ≤ length ks → xor_bytes (xor_bytes xs ks) ks ≡ xs
xor_bytes_back [] ks h = refl
xor_bytes_back (x ∷ xs) [] h = absurd (omega arith)
xor_bytes_back (x ∷ xs) (k ∷ ks) h =
    ap₂ (λ y ys. y ∷ ys) (bit_xor_back x k) (xor_bytes_back xs ks (omega arith))
