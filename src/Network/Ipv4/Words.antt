-- ===== src/Network/Ipv4/Words.antt =====
-- One's-complement sums over the bytes of a packet, for the checksums of pkg/network/checksum.go.
use pig.Base.{
  ℕ, zero, suc, ◌+◌, ◌*◌, ◌%◌, ◌^◌, ◌≤◌, ◌<◌, ◌≡◌, refl, sym, ap, subst, ◌∙◌, ◌≢◌, Bool, true, ◌&&◌,
  List, [], ◌∷◌, ltb, length, set, length-set, get_or-set_self, get_or-set_ne, arith,
}
use pig.Network.Ipv4.{byte, word, write, sum_words, checksum, nonzero}

-- The sum of `n` words from index `i`, without a bound.
unfoldable pub words : List ℕ → ℕ → ℕ → ℕ
words p i zero = 0
words p i (suc n) = word p i + words p (i + 2) n

abbrev pub AreBytes : List ℕ → Type 0
AreBytes p = (i : ℕ) → byte p i < 256

-- A test of the bytes, for concrete packets.
abbrev pub all_below : List ℕ → Bool
all_below [] = true
all_below (x ∷ p) = ltb x 256 && all_below p

pub all_below-AreBytes : (p : List ℕ) → all_below p ≡ true → AreBytes p
all_below-AreBytes [] h i = omega arith
all_below-AreBytes (x ∷ p) h zero = ground arith
all_below-AreBytes (x ∷ p) h (suc i) = all_below-AreBytes p (ground arith) i

byte-write_hi : (p : List ℕ) (k hi lo : ℕ) → k < length p → byte (write p k hi lo) k ≡ hi
byte-write_hi p k hi lo h =
    get_or-set_ne (set p k hi) (k + 1) k lo 0 (λ e. omega arith) ∙ get_or-set_self p k hi 0 h

byte-write_lo : (p : List ℕ) (k hi lo : ℕ) → k + 1 < length p → byte (write p k hi lo) (k + 1) ≡ lo
byte-write_lo p k hi lo h =
    get_or-set_self (set p k hi) (k + 1) lo 0 (omega (arith, length-set p k hi))

pub byte-write_ne :
    (p : List ℕ) (k j hi lo : ℕ) → j ≢ k → j ≢ k + 1 → byte (write p k hi lo) j ≡ byte p j
byte-write_ne p k j hi lo n n' =
    get_or-set_ne (set p k hi) (k + 1) j lo 0 (λ e. n' (sym e))
    ∙ get_or-set_ne p k j hi 0 (λ e. n (sym e))

pub length-write : (p : List ℕ) (k hi lo : ℕ) → length (write p k hi lo) ≡ length p
length-write p k hi lo = length-set (set p k hi) (k + 1) lo ∙ length-set p k hi

pub word-write :
    (p : List ℕ) (k hi lo : ℕ) → k + 1 < length p → word (write p k hi lo) k ≡ hi * 256 + lo
word-write p k hi lo h = rw (byte-write_hi p k hi lo (omega arith), byte-write_lo p k hi lo h) refl

pub words-le : (p : List ℕ) (i n : ℕ) → AreBytes p → words p i n ≤ 65535 * n
unfolding words
words-le p i zero b = omega arith
words-le p i (suc n) b = let hi = b i in let lo = b (i + 1) in omega (arith, words-le p (i + 2) n b)

-- The loop does not wrap on as many words as a packet can hold.
pub sum_words_lem :
    (p : List ℕ) (i n sum : ℕ)
    → AreBytes p
    → sum + 65535 * n < 2 ^ 32
    → (sum_words p i n sum ≡ sum + words p i n) × (sum + words p i n < 2 ^ 32)
unfolding sum_words words
sum_words_lem p i zero sum b h = (omega arith, omega arith)
sum_words_lem p i (suc n) sum b h =
    let hi = b i in
    let lo = b (i + 1) in
    let e : ((sum + byte p i * 256) % 2 ^ 32 + byte p (i + 1)) % 2 ^ 32 ≡ sum + word p i =
      omega arith in
    let (ih, bound) = sum_words_lem p (i + 2) n (sum + word p i) b (omega arith) in
    (ap (sum_words p (i + 2) n) e ∙ ih ∙ omega arith, omega arith)

-- A write behind the words does not change their sum.
words-write_behind :
    (p : List ℕ) (i n k hi lo : ℕ) → k + 1 < i → words (write p k hi lo) i n ≡ words p i n
unfolding words
words-write_behind p i zero k hi lo h = refl
words-write_behind p i (suc n) k hi lo h =
    let a = byte-write_ne p k i hi lo (λ e. omega arith) (λ e. omega arith) in
    let b = byte-write_ne p k (i + 1) hi lo (λ e. omega arith) (λ e. omega arith) in
    omega (arith, a, b, words-write_behind p (i + 2) n k hi lo (omega arith))

-- Nor does a write after them.
pub words-write_after :
    (p : List ℕ) (i n k hi lo : ℕ) → i + 2 * n ≤ k → words (write p k hi lo) i n ≡ words p i n
unfolding words
words-write_after p i zero k hi lo h = refl
words-write_after p i (suc n) k hi lo h =
    let a = byte-write_ne p k i hi lo (λ e. omega arith) (λ e. omega arith) in
    let b = byte-write_ne p k (i + 1) hi lo (λ e. omega arith) (λ e. omega arith) in
    omega (arith, a, b, words-write_after p (i + 2) n k hi lo (omega arith))

-- A write at one of the words replaces that word in the sum.
pub words-write :
    (p : List ℕ) (i n m k hi lo : ℕ)
    → m < n
    → k ≡ i + 2 * m
    → k + 1 < length p
    → words (write p k hi lo) i n + word p k ≡ words p i n + (hi * 256 + lo)
unfolding words
words-write p i zero m k hi lo h e l = absurd (omega arith)
words-write p i (suc n) zero k hi lo h e l =
    let at : k ≡ i = omega arith in
    let rest = words-write_behind p (i + 2) n k hi lo (omega arith) in
    let new = word-write p k hi lo l in
    rw (sym at) (
      omega (
        arith,
        subst (λ x. words (write p k hi lo) (x + 2) n ≡ words p (x + 2) n) (sym at) rest,
        new,
      ))
words-write p i (suc n) (suc m) k hi lo h e l =
    let a = byte-write_ne p k i hi lo (λ e'. omega arith) (λ e'. omega arith) in
    let b = byte-write_ne p k (i + 1) hi lo (λ e'. omega arith) (λ e'. omega arith) in
    omega (arith, a, b, words-write p (i + 2) n m k hi lo (omega arith) (omega arith) l)

-- A sum and its checksum add up to a multiple of 65535, whether 0 is sent as all ones or not.
pub checksum_lem :
    (sum : ℕ)
    → sum < 2 ^ 32
    → ((sum + checksum sum) % 65535 ≡ 0)
      × ((sum + nonzero (checksum sum)) % 65535 ≡ 0)
      × (checksum sum < 2 ^ 16)
unfolding checksum
checksum_lem sum h = ground arith
