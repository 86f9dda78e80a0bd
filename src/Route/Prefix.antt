-- ===== src/Route/Prefix.antt =====
-- Keys compared by their leading bits: what `getBit`, `commonBits` and `maskPrefix` of
-- pkg/route/table_helpers.go compute.
use Prim.Native.Nat.{bit_xor}
use pig.Base.{ℕ, zero, suc, ◌+◌, ◌-◌, ◌*◌, ◌/◌, ◌%◌, ◌≤◌, ◌<◌, ◌≡◌, refl, sym, ap, ◌∙◌, ◌↔◌, arith}
use pig.Base.Bits.{shr, shl, bit_len, shr_half, shr_agree, shr-shl, bit_len-xor-le}
use pig.Route.Address.{get_bit, common_bits, clear_bit, mask_from, mask_prefix}

-- The first `n` bits of a key of `width` bits.
abbrev pub top : ℕ → ℕ → ℕ → ℕ
top width n k = shr k (width - n)

-- A key of the width with no bit set beyond the first `n`.
pub record IsKey (width n k : ℕ) : Type 0 where
  pub fits : shr k width ≡ 0
  pub clean : shl (top width n k) (width - n) ≡ k

pub top_agree :
    (width m n a b : ℕ) → m ≤ n → top width n a ≡ top width n b → top width m a ≡ top width m b
top_agree width m n a b h e = shr_agree a b (width - n) (width - m) (omega arith) e

pub eq_of_IsKey :
    (width n a b : ℕ) → IsKey width n a → IsKey width n b → top width n a ≡ top width n b → a ≡ b
eq_of_IsKey width n a b ha hb e = sym ha.clean ∙ ap (λ x. shl x (width - n)) e ∙ hb.clean

common_bits_lem : (width a b : ℕ) → common_bits width a b ≡ width - bit_len (bit_xor a b)
unfolding common_bits
common_bits_lem width a b = ground arith

-- `commonBits` is the number of equal leading bits.
pub le-common_bits :
    (width n a b : ℕ)
    → shr a width ≡ 0
    → shr b width ≡ 0
    → n ≤ width
    → (n ≤ common_bits width a b) ↔ (top width n a ≡ top width n b)
le-common_bits width n a b ha hb h =
    let fits : bit_len (bit_xor a b) ≤ width = (bit_len-xor-le a b width).1 (ha ∙ sym hb) in
    let e = bit_len-xor-le a b (width - n) in
    (
      λ p. e.0 (omega (arith, common_bits_lem width a b)),
      λ t.
          let q : bit_len (bit_xor a b) ≤ width - n = e.1 t in
          omega (arith, common_bits_lem width a b),
    )

pub get_bit_lt : (width k n : ℕ) → get_bit width k n < 2
unfolding get_bit
get_bit_lt width k n = omega arith

-- `getBit` is the next bit after the first `n`.
pub top-suc :
    (width n k : ℕ) → n < width → top width (n + 1) k ≡ 2 * top width n k + get_bit width k n
unfolding get_bit shr
top-suc width n k h =
    let e1 : width - (n + 1) ≡ width - 1 - n = omega arith in
    let e2 : width - n ≡ suc (width - 1 - n) = omega arith in rw (e1, e2) (omega arith)

shl_double : (x k : ℕ) → shl (2 * x) k ≡ 2 * shl x k
unfolding shl
shl_double x zero = refl
shl_double x (suc k) = ap (λ y. 2 * y) (shl_double x k)

shr_add_shl : (y c k : ℕ) → shr (y + shl c k) k ≡ shr y k + c
unfolding shl shr
shr_add_shl y c zero = refl
shr_add_shl y c (suc k) =
    let e : (y + 2 * shl c k) / 2 ≡ y / 2 + shl c k = omega arith in
    sym (shr_half (y + 2 * shl c k) k)
    ∙ ap (λ z. shr z k) e
    ∙ shr_add_shl (y / 2) c k
    ∙ ap (λ z. z + c) (shr_half y k)

shl_le_of_le_shr : (c x k : ℕ) → c ≤ shr x k → shl c k ≤ x
unfolding shl shr
shl_le_of_le_shr c x zero h = h
shl_le_of_le_shr c x (suc k) h =
    let ih : shl c k ≤ x / 2 = shl_le_of_le_shr c (x / 2) k (rw (shr_half x k) h) in omega arith

clear_bit_lem : (x i : ℕ) → shr (clear_bit x i) i ≡ 2 * shr x (suc i)
unfolding clear_bit shr
clear_bit_lem x i =
    let c = shr x i % 2 in
    let fits : shl c i ≤ x = shl_le_of_le_shr c x i (omega arith) in
    let e : x - shl c i + shl c i ≡ x = omega arith in
    omega (arith, shr_add_shl (x - shl c i) c i, ap (λ z. shr z i) e)

-- The loop clears, from the top down, every bit below `m`.
mask_from_lem : (width m pos x : ℕ) → pos + m ≡ width → mask_from width m pos x ≡ shl (shr x m) m
unfolding mask_from shl shr
mask_from_lem width zero pos x h = refl
mask_from_lem width (suc m) pos x h =
    let e : width - 1 - pos ≡ m = omega arith in
    rw e (
      mask_from_lem width m (suc pos) (clear_bit x m) (omega arith)
      ∙ ap (λ y. shl y m) (clear_bit_lem x m)
      ∙ shl_double (shr x (suc m)) m)

mask_prefix_lem :
    (width n k : ℕ) → n ≤ width → mask_prefix width k n ≡ shl (top width n k) (width - n)
unfolding mask_prefix
mask_prefix_lem width n k h = mask_from_lem width (width - n) n k (omega arith)

-- `maskPrefix` keeps the first `n` bits and no other.
pub top-mask_prefix :
    (width n k : ℕ) → n ≤ width → top width n (mask_prefix width k n) ≡ top width n k
top-mask_prefix width n k h =
    ap (top width n) (mask_prefix_lem width n k h) ∙ shr-shl (top width n k) (width - n)

pub fits_of_top : (width n a b : ℕ) → top width n a ≡ top width n b → shr a width ≡ shr b width
fits_of_top width n a b e = shr_agree a b (width - n) width (omega arith) e

pub mask_prefix-IsKey :
    (width n k : ℕ) → n ≤ width → shr k width ≡ 0 → IsKey width n (mask_prefix width k n)
mask_prefix-IsKey width n k h fits = record {
  fits = fits_of_top width n (mask_prefix width k n) k (top-mask_prefix width n k h) ∙ fits;
  clean =
      ap (λ y. shl y (width - n)) (top-mask_prefix width n k h) ∙ sym (mask_prefix_lem width n k h);
}
