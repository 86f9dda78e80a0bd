-- ===== src/Network/Ipv4/Segments.antt =====
-- The checksums of pkg/network/checksum.go over a TCP, UDP or ICMP segment.
use pig.Base.{
  ℕ, ◌+◌, ◌-◌, ◌*◌, ◌/◌, ◌%◌, ◌≤◌, ◌<◌, ◌≡◌, ◌≢◌, refl, ap, Bool, true, false, List, ltb, length,
  ltb_of_le, ltb_of_lt, arith,
}
use pig.Network.Ipv4.{
  word, write, write_checksum, checksum, nonzero, payload_offset, total_length, segment_sum,
  update_tcp_checksum, update_udp_checksum, update_icmp_checksum,
}
use pig.Network.Ipv4.Words.{words, AreBytes, byte-write_ne, checksum_lem}
use pig.Network.Ipv4.Verifies.{
  Changes, AreBytes-write, nonzero_written, rewrites, words_verify, verifying_sum, segment_sum_lem,
  verifying_sum-checksum,
}

-- A segment with its checksum written at one of its words, 0 sent as it is or as all ones.
segment_verifies :
    (p : List ℕ) (offset n m k : ℕ)
    → AreBytes p
    → 20 ≤ offset
    → m < n / 2
    → n < 65536
    → k ≡ offset + 2 * m
    → k + 1 < length p
    → let q = write p k 0 0 in
      let c = checksum (segment_sum q offset n) in
      (verifying_sum (write_checksum q k c) offset n % 65535 ≡ 0)
      × (verifying_sum (write_checksum q k (nonzero c)) offset n % 65535 ≡ 0)
segment_verifies p offset n m k b h h' h'' e l =
    let q = write p k 0 0 in
    let (s, bound) = segment_sum_lem q offset n (AreBytes-write p k b) h'' in
    let c = checksum (segment_sum q offset n) in
    let (plain, ones, _) = checksum_lem (segment_sum q offset n) (omega arith) in
    (on_code c plain, on_code (nonzero c) ones)
  where
    on_code :
        (c : ℕ)
        → (segment_sum (write p k 0 0) offset n + c) % 65535 ≡ 0
        → verifying_sum (write_checksum (write p k 0 0) k c) offset n % 65535 ≡ 0
    on_code c ok =
        let (s, bound) = segment_sum_lem (write p k 0 0) offset n (AreBytes-write p k b) h'' in
        let w = verifying_sum-checksum p offset n m k c h h' e l in omega arith

total_length-lt : (p : List ℕ) → AreBytes p → total_length p < 65536
unfolding total_length
total_length-lt p b = omega (arith, b 2, b 3)

-- The fields that place a segment are before its checksum.
payload_offset-write :
    (p : List ℕ) (k : ℕ) → 0 < k → payload_offset (write p k 0 0) ≡ payload_offset p
unfolding payload_offset
payload_offset-write p k h =
    ap (λ x. x % 16 * 4) (byte-write_ne p k 0 0 0 (λ e. omega arith) (λ e. omega arith))

-- `updateTCPChecksum` makes the pseudo-header and the segment sum to a multiple of 65535 and changes
-- only the checksum field, on a packet of bytes that holds its total length, with a header of at least
-- 20 bytes and a segment that holds the field.
pub update_tcp_checksum_lem :
    (p : List ℕ)
    → AreBytes p
    → 20 ≤ payload_offset p
    → payload_offset p + 18 ≤ total_length p
    → total_length p ≤ length p
    → Changes p (payload_offset p + 16) (update_tcp_checksum p)
      × (verifying_sum
              (update_tcp_checksum p)
              (payload_offset p)
              (total_length p - payload_offset p)
            % 65535
          ≡ 0)
unfolding update_tcp_checksum
update_tcp_checksum_lem p b h h' l =
    let t = total_length-lt p b in
    (
      rewrites p (payload_offset p + 16) _,
      (segment_verifies p (payload_offset p) (total_length p - payload_offset p) 8
          (payload_offset p + 16) b h (omega arith) (omega arith) refl (omega arith)).0,
    )

-- `updateUDPChecksum`, on a packet of bytes with a header of at least 20 bytes: a datagram of at
-- least 8 bytes, by its own length field, that ends within the packet sums with its pseudo-header to
-- a multiple of 65535, its checksum is not 0, and only the checksum field changes; one that ends beyond it
-- is left alone.
pub update_udp_checksum_lem :
    (p : List ℕ)
    → AreBytes p
    → 20 ≤ payload_offset p
    → 8 ≤ word p (payload_offset p + 4)
    → (payload_offset p + word p (payload_offset p + 4) ≤ length p
        → Changes p (payload_offset p + 6) (update_udp_checksum p)
          × (verifying_sum
                  (update_udp_checksum p)
                  (payload_offset p)
                  (word p (payload_offset p + 4))
                % 65535
              ≡ 0)
          × (word (update_udp_checksum p) (payload_offset p + 6) ≢ 0))
      × (length p < payload_offset p + word p (payload_offset p + 4) → update_udp_checksum p ≡ p)
unfolding update_udp_checksum
update_udp_checksum_lem p b h h' = (
  λ l.
      let udp_len = word p (payload_offset p + 4) in
      let n_lt : udp_len < 65536 =
        omega (arith, b (payload_offset p + 4), b (payload_offset p + 4 + 1)) in
      rw
        (
          ltb_of_le (length p) (payload_offset p + 8) (omega arith),
          update_udp_checksum,
          ltb_of_le (length p) (payload_offset p + udp_len) l,
        )
        (
          rewrites p (payload_offset p + 6) _,
          (segment_verifies p (payload_offset p) udp_len 3 (payload_offset p + 6) b h (omega arith)
              n_lt refl (omega arith)).1,
          nonzero_written p (payload_offset p + 6)
              (checksum
                (segment_sum (write p (payload_offset p + 6) 0 0) (payload_offset p) udp_len))
              (omega arith),
        ),
  λ l. skipped (ltb (length p) (payload_offset p + 8)) refl l,
)
  where
    skipped :
        (short : Bool)
        → ltb (length p) (payload_offset p + 8) ≡ short
        → length p < payload_offset p + word p (payload_offset p + 4)
        → update_udp_checksum p ≡ p
    skipped true e l = rw (e, update_udp_checksum) refl
    skipped false e l =
        rw
          (
            e,
            update_udp_checksum,
            ltb_of_lt (length p) (payload_offset p + word p (payload_offset p + 4)) l,
          )
          refl

-- `updateICMPChecksum` makes the whole words of the message sum to a multiple of 65535 and changes
-- only the checksum field, on a packet of bytes that holds its total length and a message that holds the field.
pub update_icmp_checksum_lem :
    (p : List ℕ)
    → AreBytes p
    → payload_offset p + 4 ≤ total_length p
    → total_length p ≤ length p
    → Changes p (payload_offset p + 2) (update_icmp_checksum p)
      × (words (update_icmp_checksum p) (payload_offset p) ((total_length p - payload_offset p) / 2)
            % 65535
          ≡ 0)
unfolding update_icmp_checksum
update_icmp_checksum_lem p b h l =
    let t = total_length-lt p b in
    (
      rewrites p (payload_offset p + 2) _,
      words_verify p (payload_offset p) ((total_length p - payload_offset p) / 2) 1
          (payload_offset p + 2) b (omega arith) (omega arith) refl (omega arith),
    )
