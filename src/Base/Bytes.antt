-- ===== src/Base/Bytes.antt =====
-- The bytes of unbounded numbers, as `Bytes` and `SetBytes` of `math/big` have them.
use Prim.Native.Nat.{ℕ, zero, suc, ◌+◌, ◌*◌, ◌/◌, ◌%◌, ◌^◌, ◌≤◌, ◌<◌}
use mathlib.Core.Path.{◌≡◌, refl}
use mathlib.Core.List.{List, [], ◌∷◌, ◌++◌, foldl, foldl-append}
use native.Mathlib.Omega.{arith}
use pig.Base.Lists.{length, length-append}

-- A number has no more bytes than itself, so it serves as the count of rounds.
bytes_rounds : ℕ → ℕ → List ℕ
bytes_rounds zero n = []
bytes_rounds (suc f) zero = []
bytes_rounds (suc f) (suc n) = bytes_rounds f (suc n / 256) ++ (suc n % 256 ∷ [])

-- `x.Bytes()`: the highest byte first, and none that is a leading zero.
unfoldable pub int_bytes : ℕ → List ℕ
unfolding bytes_rounds
int_bytes n = bytes_rounds n n

unfoldable pub int_value : List ℕ → ℕ
int_value bytes = foldl (λ acc b. 256 * acc + b) 0 bytes

pub data AllBytes : List ℕ → Type 0 where
  no_byte : AllBytes []
  byte_first : {b : ℕ} {bs : List ℕ} → b < 256 → AllBytes bs → AllBytes (b ∷ bs)

-- The shortest list of bytes with a value, the highest byte first.
pub record IsBytesOf (bytes : List ℕ) (n : ℕ) : Type 0 where
  pub value : int_value bytes ≡ n
  pub in_range : AllBytes bytes
  pub shortest : (w : ℕ) → n < 256 ^ w → length bytes ≤ w

AllBytes-append : {bs : List ℕ} {b : ℕ} → AllBytes bs → b < 256 → AllBytes (bs ++ (b ∷ []))
AllBytes-append no_byte h = byte_first h no_byte
AllBytes-append (byte_first k r) h = byte_first k (AllBytes-append r h)

bytes_rounds-value : (f n : ℕ) → n ≤ f → int_value (bytes_rounds f n) ≡ n
unfolding bytes_rounds int_value
bytes_rounds-value zero n h = omega arith
bytes_rounds-value (suc f) zero h = refl
bytes_rounds-value (suc f) (suc n) h =
    let rest = bytes_rounds f (suc n / 256) in
    rw (foldl-append (λ (acc b : ℕ). 256 * acc + b) 0 rest (suc n % 256 ∷ []))
      (omega (arith, bytes_rounds-value f (suc n / 256) (omega arith)))

bytes_rounds-AllBytes : (f n : ℕ) → AllBytes (bytes_rounds f n)
unfolding bytes_rounds
bytes_rounds-AllBytes zero n = no_byte
bytes_rounds-AllBytes (suc f) zero = no_byte
bytes_rounds-AllBytes (suc f) (suc n) =
    AllBytes-append (bytes_rounds-AllBytes f (suc n / 256)) (omega arith)

length-bytes_rounds : (f n w : ℕ) → n < 256 ^ w → length (bytes_rounds f n) ≤ w
unfolding bytes_rounds
length-bytes_rounds zero n w h = omega arith
length-bytes_rounds (suc f) zero w h = omega arith
length-bytes_rounds (suc f) (suc n) zero h = absurd (omega arith)
length-bytes_rounds (suc f) (suc n) (suc w) h = omega (
  arith,
  length-append (bytes_rounds f (suc n / 256)) (suc n % 256 ∷ []),
  length-bytes_rounds f (suc n / 256) w (omega arith),
)

pub int_bytes-IsBytesOf : (n : ℕ) → IsBytesOf (int_bytes n) n
unfolding int_bytes
int_bytes-IsBytesOf n = record {
  value = bytes_rounds-value n n (omega arith);
  in_range = bytes_rounds-AllBytes n n;
  shortest = length-bytes_rounds n n;
}
