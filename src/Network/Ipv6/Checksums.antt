-- ===== src/Network/Ipv6/Checksums.antt =====
-- The checksums of pkg/network/checksum6.go against what a receiver sums.
use pig.Base.{
  ℕ, ◌+◌, ◌*◌, ◌/◌, ◌%◌, ◌^◌, ◌≤◌, ◌<◌, ◌≡◌, ◌≢◌, refl, ◌⊎◌, inl, inr, ◌||◌, List, ltb, ◌==◌,
  length, arith, if◌then◌else◌, ltb_of_le, Bool-cases, subst,
}
use pig.Network.Ipv4.{word, write, write_checksum, sum_words, checksum, nonzero}
use pig.Network.Ipv4.Words.{
  words, AreBytes, sum_words_lem, words-le, words-write_after, checksum_lem,
}
use pig.Network.Ipv4.Verifies.{
  Changes, AreBytes-write, nonzero_written, rewrites, words-checksum, odd_byte-write, odd_byte-le,
  left_over, odd_byte-left_over,
}
use pig.Network.Ipv6.{
  found, transport_header, pseudo_header_sum6, segment_sum6, write_segment, update_tcp_checksum6,
  update_udp_checksum6, update_icmp6_checksum, udp_length, payload_end,
}
use pig.Network.Ipv6.Header.{IsFound, transport_header-IsFound}

-- What the receiver sums: both addresses, the length, the protocol and the segment.
unfoldable pub verifying_sum6 : List ℕ → ℕ → ℕ → ℕ → ℕ
unfolding words
verifying_sum6 p next offset n =
    words p 8 8
    + words p 24 8
    + n / 2 ^ 16 % 2 ^ 16
    + n % 2 ^ 16
    + next
    + words p offset (n / 2)
    + left_over p offset n

segment_sum6_lem :
    (p : List ℕ) (next offset n : ℕ)
    → AreBytes p
    → n < 65536
    → next < 256
    → (segment_sum6 p next offset n ≡ verifying_sum6 p next offset n)
      × (verifying_sum6 p next offset n < 2 ^ 32)
unfolding segment_sum6 pseudo_header_sum6 verifying_sum6
segment_sum6_lem p next offset n b h h' =
    let odd = odd_byte-le p offset n b in
    let e = odd_byte-left_over p offset n in
    let src = words-le p 8 8 b in
    let dst = words-le p 24 8 b in
    let sum = words-le p offset (n / 2) b in
    let (s1, _) = sum_words_lem p 8 8 0 b (omega arith) in
    let (s2, _) = sum_words_lem p 24 8 (sum_words p 8 8 0) b (omega arith) in
    let (s3, _) = sum_words_lem p offset (n / 2) (pseudo_header_sum6 p next n) b (omega arith) in
    (omega arith, omega arith)

verifying_sum6-checksum :
    (p : List ℕ) (next offset n m k c : ℕ)
    → 40 ≤ offset
    → m < n / 2
    → k ≡ offset + 2 * m
    → k + 1 < length p
    → let q = write p k 0 0 in
      verifying_sum6 (write_checksum q k c) next offset n ≡ verifying_sum6 q next offset n + c
unfolding verifying_sum6
verifying_sum6-checksum p next offset n m k c h h' e l =
    let q = write p k 0 0 in
    omega (
      arith,
      odd_byte-left_over q offset n,
      odd_byte-left_over (write_checksum q k c) offset n,
      words-write_after q 8 8 k (c / 256) (c % 256) (omega arith),
      words-write_after q 24 8 k (c / 256) (c % 256) (omega arith),
      odd_byte-write q k (c / 256) (c % 256) offset n m h' e,
      words-checksum p offset (n / 2) m k c h' e l,
    )

-- A segment with its checksum written at one of its words, 0 sent as it is or as all ones.
segment6_verifies :
    (p : List ℕ) (next offset n m k : ℕ)
    → AreBytes p
    → 40 ≤ offset
    → m < n / 2
    → n < 65536
    → next < 256
    → k ≡ offset + 2 * m
    → k + 1 < length p
    → (verifying_sum6 (write_segment (λ c. c) p next offset n k) next offset n % 65535 ≡ 0)
      × (verifying_sum6 (write_segment nonzero p next offset n k) next offset n % 65535 ≡ 0)
segment6_verifies p next offset n m k b h h' h'' hn e l =
    let q = write p k 0 0 in
    let (s, bound) = segment_sum6_lem q next offset n (AreBytes-write p k b) h'' hn in
    let c = checksum (segment_sum6 q next offset n) in
    let (plain, ones, _) = checksum_lem (segment_sum6 q next offset n) (omega arith) in
    (on_code c plain, on_code (nonzero c) ones)
  where
    on_code :
        (c : ℕ)
        → (segment_sum6 (write p k 0 0) next offset n + c) % 65535 ≡ 0
        → verifying_sum6 (write_checksum (write p k 0 0) k c) next offset n % 65535 ≡ 0
    on_code c ok =
        let (s, bound) =
          segment_sum6_lem (write p k 0 0) next offset n (AreBytes-write p k b) h'' hn in
        let w = verifying_sum6-checksum p next offset n m k c h h' e l in omega arith

-- A segment that `transportHeader` finds is short enough for the sums.
found_bounds :
    (p : List ℕ) (next offset n : ℕ)
    → AreBytes p
    → transport_header p ≡ found next offset n
    → (40 ≤ offset) × (n < 65536) × (offset + n ≤ length p)
found_bounds p next offset n b e =
    let (_, after, _, whole) = subst (IsFound (payload_end p)) e (transport_header-IsFound p) in
    let hi = b 4 in let lo = b 5 in (after, omega arith, omega arith)

udp_length-lt : (p : List ℕ) (offset n : ℕ) → AreBytes p → n < 65536 → udp_length p offset n < 65536
udp_length-lt p offset n b h = elim (Bool-cases (word p (offset + 4) == 0)) [
  | inl z ↦ rw z h
  | inr z ↦ rw z (omega (arith, b (offset + 4), b (offset + 4 + 1)))
]

-- `updateTCPChecksum` on a packet of bytes where `transportHeader` finds a TCP segment of at least 20
-- bytes makes the pseudo-header and the segment sum to a multiple of 65535 and changes only the
-- checksum field.
pub update_tcp_checksum6_lem :
    (p : List ℕ) (offset n : ℕ)
    → AreBytes p
    → transport_header p ≡ found 6 offset n
    → 20 ≤ n
    → Changes p (offset + 16) (update_tcp_checksum6 p)
      × (verifying_sum6 (update_tcp_checksum6 p) 6 offset n % 65535 ≡ 0)
unfolding update_tcp_checksum6
update_tcp_checksum6_lem p offset n b e h =
    let (after, short, inside) = found_bounds p 6 offset n b e in
    rw (e, update_tcp_checksum6, ltb_of_le (length p) (offset + 20) (omega arith))
      (
        rewrites p (offset + 16) _,
        (segment6_verifies p 6 offset n 8 (offset + 16) b after (omega arith) short (omega arith)
            refl (omega arith)).0,
      )

-- `updateUDPChecksum` on a packet of bytes where `transportHeader` finds a UDP segment: a datagram of
-- at least 8 bytes that ends within the packet sums with its pseudo-header to a multiple of 65535 and
-- only the checksum field changes, which is not 0 then, where its length is its own length field, or the
-- segment's if that is 0; a packet with a shorter datagram, or one that ends beyond it, is left alone.
pub update_udp_checksum6_lem :
    (p : List ℕ) (offset n : ℕ)
    → AreBytes p
    → transport_header p ≡ found 17 offset n
    → (8 ≤ udp_length p offset n
        → offset + udp_length p offset n ≤ length p
        → Changes p (offset + 6) (update_udp_checksum6 p)
          × (verifying_sum6 (update_udp_checksum6 p) 17 offset (udp_length p offset n) % 65535 ≡ 0)
          × (word (update_udp_checksum6 p) (offset + 6) ≢ 0))
      × ((udp_length p offset n < 8) ⊎ (length p < offset + udp_length p offset n)
          → update_udp_checksum6 p ≡ p)
unfolding update_udp_checksum6
update_udp_checksum6_lem p offset n b e =
    let (after, short, inside) = found_bounds p 17 offset n b e in
    let len_lt = udp_length-lt p offset n b short in
    (
      λ h l.
          rw
            (
              e,
              update_udp_checksum6,
              ltb_of_le (length p) (offset + 8) (omega arith),
              ltb_of_le (udp_length p offset n) 8 h,
              ltb_of_le (length p) (offset + udp_length p offset n) l,
            )
            (
              rewrites p (offset + 6) _,
              (segment6_verifies p 17 offset (udp_length p offset n) 3 (offset + 6) b after
                  (omega arith) len_lt (omega arith) refl (omega arith)).1,
              nonzero_written p (offset + 6)
                  (checksum
                    (segment_sum6 (write p (offset + 6) 0 0) 17 offset (udp_length p offset n)))
                  (omega arith),
            ),
      λ bad. rw (e, update_udp_checksum6) (refused (udp_length p offset n) _ bad),
    )
  where
    refused :
        (len : ℕ) (q : List ℕ)
        → (len < 8) ⊎ (length p < offset + len)
        → (if ltb (length p) (offset + 8)
            then p
            else if ltb len 8 || ltb (length p) (offset + len)
            then p
            else q)
          ≡ p
    refused len q bad = ground arith

-- `updateICMPv6Checksum` on a packet of bytes, for a message of less than 65536 bytes that starts after
-- the fixed header: a message of at least 4 bytes within the packet sums with its pseudo-header to a
-- multiple of 65535 and only the checksum field changes; a packet with a shorter message, or one that
-- ends beyond it, is left alone.
pub update_icmp6_checksum_lem :
    (p : List ℕ) (offset n : ℕ)
    → AreBytes p
    → 40 ≤ offset
    → n < 65536
    → (4 ≤ n
        → offset + n ≤ length p
        → Changes p (offset + 2) (update_icmp6_checksum p offset n)
          × (verifying_sum6 (update_icmp6_checksum p offset n) 58 offset n % 65535 ≡ 0))
      × ((n < 4) ⊎ (length p < offset + n) → update_icmp6_checksum p offset n ≡ p)
unfolding update_icmp6_checksum
update_icmp6_checksum_lem p offset n b h h' = (
  λ m l.
      rw
        (
          ltb_of_le (length p) (offset + 4) (omega arith),
          update_icmp6_checksum,
          ltb_of_le n 4 m,
          ltb_of_le (length p) (offset + n) l,
        )
        (
          rewrites p (offset + 2) _,
          (segment6_verifies p 58 offset n 1 (offset + 2) b h (omega arith) h' (omega arith) refl
              (omega arith)).0,
        ),
  λ bad. refused _ bad,
)
  where
    refused :
        (q : List ℕ)
        → (n < 4) ⊎ (length p < offset + n)
        → (if ltb (length p) (offset + 4) || (ltb (length p) (offset + n) || ltb n 4) then p else q)
          ≡ p
    refused q bad = ground arith
