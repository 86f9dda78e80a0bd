-- ===== src/Network/Ipv4/Verifies.antt =====
-- The packets that pkg/network/checksum.go writes, against what a receiver sums: the one's-complement sum over
-- what a checksum covers, the checksum included.
use pig.Base.{
  ℕ, zero, suc, ◌+◌, ◌-◌, ◌*◌, ◌/◌, ◌%◌, ◌^◌, ◌≤◌, ◌<◌, ◌≡◌, refl, ◌∙◌, ◌≢◌, inl, inr, List, [],
  ◌∷◌, ◌==◌, length, set, eq_of_==, arith, Bool-cases,
}
use pig.Network.Ipv4.{
  byte, word, nonzero, write, write_checksum, sum_words, checksum, payload_offset,
  pseudo_header_sum, odd_byte, segment_sum, update_ip_checksum,
}
use pig.Network.Ipv4.Words.{
  words, AreBytes, byte-write_ne, length-write, word-write, sum_words_lem, words-le, words-write,
  checksum_lem,
}

-- Only the two bytes from `k` on differ.
pub record Changes (p : List ℕ) (k : ℕ) (p' : List ℕ) : Type 0 where
  pub same_length : length p' ≡ length p
  pub same_bytes : (j : ℕ) → j ≢ k → j ≢ k + 1 → byte p' j ≡ byte p j

byte-set : (p : List ℕ) (k v j : ℕ) → v < 256 → byte p j < 256 → byte (set p k v) j < 256
byte-set [] k v j h b = b
byte-set (x ∷ p) zero v zero h b = h
byte-set (x ∷ p) zero v (suc j) h b = b
byte-set (x ∷ p) (suc k) v zero h b = b
byte-set (x ∷ p) (suc k) v (suc j) h b = byte-set p k v j h b

pub AreBytes-write : (p : List ℕ) (k : ℕ) → AreBytes p → AreBytes (write p k 0 0)
AreBytes-write p k b j =
    byte-set (set p k 0) (k + 1) 0 j (omega arith) (byte-set p k 0 j (omega arith) (b j))

pub rewrites : (p : List ℕ) (k c : ℕ) → Changes p k (write_checksum (write p k 0 0) k c)
rewrites p k c = record {
  same_length = length-write (write p k 0 0) k (c / 256) (c % 256) ∙ length-write p k 0 0;
  same_bytes = λ j n n'.
      byte-write_ne (write p k 0 0) k j (c / 256) (c % 256) n n' ∙ byte-write_ne p k j 0 0 n n';
}

-- A checksum field of 0 would say that there is none.
pub nonzero_written :
    (p : List ℕ) (k c : ℕ)
    → k + 1 < length p
    → word (write_checksum (write p k 0 0) k (nonzero c)) k ≢ 0
nonzero_written p k c l =
    let same = length-write p k 0 0 in
    let w = word-write (write p k 0 0) k (nonzero c / 256) (nonzero c % 256) (omega arith) in
    let pos : 0 < nonzero c = ground arith in λ z. absurd (omega arith)

-- Writing a checksum over a cleared field adds it to the sum.
pub words-checksum :
    (p : List ℕ) (i n m k c : ℕ)
    → m < n
    → k ≡ i + 2 * m
    → k + 1 < length p
    → words (write_checksum (write p k 0 0) k c) i n ≡ words (write p k 0 0) i n + c
words-checksum p i n m k c h e l =
    let cleared = word-write p k 0 0 l in
    let same = length-write p k 0 0 in
    let written = words-write (write p k 0 0) i n m k (c / 256) (c % 256) h e (omega arith) in
    omega arith

-- The plain sum of `n` words, with its checksum written at one of them.
pub words_verify :
    (p : List ℕ) (i n m k : ℕ)
    → AreBytes p
    → m < n
    → n ≤ 32768
    → k ≡ i + 2 * m
    → k + 1 < length p
    → let q = write p k 0 0 in
      words (write_checksum q k (checksum (sum_words q i n 0))) i n % 65535 ≡ 0
words_verify p i n m k b h n_le e l =
    let q = write p k 0 0 in
    let (s, bound) = sum_words_lem q i n 0 (AreBytes-write p k b) (omega arith) in
    let (ok, _, _) = checksum_lem (sum_words q i n 0) (omega arith) in
    let w = words-checksum p i n m k (checksum (sum_words q i n 0)) h e l in omega arith

-- `updateIPChecksum` makes the words of the header sum to a multiple of 65535 and changes only
-- the checksum field, on a packet of bytes that holds its header, and a header that holds the field.
pub update_ip_checksum_lem :
    (p : List ℕ)
    → AreBytes p
    → 12 ≤ payload_offset p
    → payload_offset p ≤ length p
    → Changes p 10 (update_ip_checksum p)
      × (words (update_ip_checksum p) 0 (payload_offset p / 2) % 65535 ≡ 0)
unfolding update_ip_checksum payload_offset
update_ip_checksum_lem p b h l =
    let first = byte-write_ne p 10 0 0 0 (λ e. omega arith) (λ e. omega arith) in
    rw first (
      rewrites p 10 _,
      words_verify p 0 (byte p 0 % 16 * 4 / 2) 5 10 b (omega arith) (omega arith) refl
          (omega arith),
    )

-- The last byte of a segment of odd length, as the high byte of a word.
abbrev pub left_over : List ℕ → ℕ → ℕ → ℕ
left_over p offset n = n % 2 * (256 * byte p (offset + (n - 1)))

-- What the receiver of a TCP or UDP segment sums: both addresses, the protocol, the length and the segment.
unfoldable pub verifying_sum : List ℕ → ℕ → ℕ → ℕ
unfolding words
verifying_sum p offset n =
    words p 12 4 + byte p 9 + n + words p offset (n / 2) + left_over p offset n

pub odd_byte-left_over : (p : List ℕ) (offset n : ℕ) → odd_byte p offset n ≡ left_over p offset n
odd_byte-left_over p offset n = elim (Bool-cases (n % 2 == 1)) [
  | inr even ↦ let z : n % 2 ≡ 0 = ground arith in rw (even, z) (omega arith)
  | inl odd ↦
      let o = eq_of_== (n % 2) 1 odd in
      let e : offset + n - 1 ≡ offset + (n - 1) = omega arith in rw (odd, o, e) (omega arith)
]

verifying_sum-pseudo :
    (p : List ℕ) (offset n : ℕ)
    → verifying_sum p offset n
      ≡ pseudo_header_sum p n + words p offset (n / 2) + odd_byte p offset n
unfolding verifying_sum pseudo_header_sum words
verifying_sum-pseudo p offset n = omega (arith, odd_byte-left_over p offset n)

pseudo_header_sum-write :
    (p : List ℕ) (k hi lo n : ℕ)
    → 20 ≤ k
    → pseudo_header_sum (write p k hi lo) n ≡ pseudo_header_sum p n
unfolding pseudo_header_sum
pseudo_header_sum-write p k hi lo n h = omega (
  arith,
  same 9 (omega arith),
  same 12 (omega arith),
  same 13 (omega arith),
  same 14 (omega arith),
  same 15 (omega arith),
  same 16 (omega arith),
  same 17 (omega arith),
  same 18 (omega arith),
  same 19 (omega arith),
)
  where
    same : (j : ℕ) → j < 20 → byte (write p k hi lo) j ≡ byte p j
    same j l = byte-write_ne p k j hi lo (λ e. omega arith) (λ e. omega arith)

pseudo_header_sum-le :
    (p : List ℕ) (n : ℕ) → AreBytes p → pseudo_header_sum p n ≤ 4 * 65535 + 255 + n
unfolding pseudo_header_sum
pseudo_header_sum-le p n b = omega (arith, b 9, b 12, b 13, b 14, b 15, b 16, b 17, b 18, b 19)

pub odd_byte-write :
    (p : List ℕ) (k hi lo offset n m : ℕ)
    → m < n / 2
    → k ≡ offset + 2 * m
    → odd_byte (write p k hi lo) offset n ≡ odd_byte p offset n
odd_byte-write p k hi lo offset n m h e = elim (Bool-cases (n % 2 == 1)) [
  | inr even ↦ rw even refl
  | inl odd ↦
      let o = eq_of_== (n % 2) 1 odd in
      rw (odd, byte-write_ne p k (offset + n - 1) hi lo (λ e'. omega arith) (λ e'. omega arith))
        refl
]

pub odd_byte-le : (p : List ℕ) (offset n : ℕ) → AreBytes p → odd_byte p offset n ≤ 65280
odd_byte-le p offset n b = elim (Bool-cases (n % 2 == 1)) [
  | inr even ↦ rw even (omega arith)
  | inl odd ↦ rw odd (omega (arith, b (offset + n - 1)))
]

-- The code's sum over a segment does not wrap.
pub segment_sum_lem :
    (p : List ℕ) (offset n : ℕ)
    → AreBytes p
    → n < 65536
    → (segment_sum p offset n ≡ verifying_sum p offset n) × (verifying_sum p offset n < 2 ^ 32)
unfolding segment_sum
segment_sum_lem p offset n b h =
    let e = verifying_sum-pseudo p offset n in
    let pseudo = pseudo_header_sum-le p n b in
    let odd = odd_byte-le p offset n b in
    let (s, bound) = sum_words_lem p offset (n / 2) (pseudo_header_sum p n) b (omega arith) in
    let sum = words-le p offset (n / 2) b in (omega arith, omega arith)

-- A checksum written at a word of the segment adds to the receiver's sum.
pub verifying_sum-checksum :
    (p : List ℕ) (offset n m k c : ℕ)
    → 20 ≤ offset
    → m < n / 2
    → k ≡ offset + 2 * m
    → k + 1 < length p
    → let q = write p k 0 0 in
      verifying_sum (write_checksum q k c) offset n ≡ verifying_sum q offset n + c
verifying_sum-checksum p offset n m k c h h' e l =
    let q = write p k 0 0 in
    omega (
      arith,
      verifying_sum-pseudo q offset n,
      verifying_sum-pseudo (write_checksum q k c) offset n,
      pseudo_header_sum-write q k (c / 256) (c % 256) n (omega arith),
      odd_byte-write q k (c / 256) (c % 256) offset n m h' e,
      words-checksum p offset (n / 2) m k c h' e l,
    )
