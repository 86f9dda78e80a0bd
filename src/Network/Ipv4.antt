-- ===== src/Network/Ipv4.antt =====
-- `IPv4Packet` of pkg/network/ipv4.go and its checksums of pkg/network/checksum.go. A packet is the
-- list of its bytes, which the methods write in place: they return the new list. The code panics on
-- an index out of range; here such a read gives 0 and such a write nothing, so the results about
-- it assume lengths that keep every index in range.
pub mod Words
pub mod Verifies
pub mod Segments
mod Tests
use pig.Base.{
  ℕ, zero, suc, ◌+◌, ◌-◌, ◌*◌, ◌/◌, ◌%◌, ◌^◌, Bool, true, false, ◌&&◌, ◌||◌, not, List, [], ◌∷◌,
  ◌==◌, ltb, leb, if◌then◌else◌, length, get_or, set, take, drop,
}

abbrev pub byte : List ℕ → ℕ → ℕ
byte p i = get_or p i 0

-- Two bytes, the high one first.
abbrev pub word : List ℕ → ℕ → ℕ
word p i = byte p i * 256 + byte p (i + 1)

unfoldable pub version : List ℕ → ℕ
version p = byte p 0 / 16

unfoldable pub total_length : List ℕ → ℕ
total_length p = word p 2

unfoldable pub protocol : List ℕ → ℕ
protocol p = byte p 9

unfoldable pub payload_offset : List ℕ → ℕ
payload_offset p = byte p 0 % 16 * 4

unfoldable pub source_ip : List ℕ → List ℕ
source_ip p = take 4 (drop 12 p)

unfoldable pub destination_ip : List ℕ → List ℕ
destination_ip p = take 4 (drop 16 p)

unfoldable pub source_port : List ℕ → ℕ
unfolding protocol
source_port p = if not (protocol p == 6) && not (protocol p == 17) then 0 else word p 20

unfoldable pub destination_port : List ℕ → ℕ
unfolding protocol
destination_port p = if not (protocol p == 6) && not (protocol p == 17) then 0 else word p 22

-- `copy(p[i:i+4], bytes)`, where `bytes` is `ip.To4()`: four bytes, or none.
unfoldable pub copy_to : List ℕ → ℕ → List ℕ → List ℕ
copy_to p i [] = p
copy_to p i (b ∷ bs) = copy_to (set p i b) (i + 1) bs

unfoldable pub set_source_ip : List ℕ → List ℕ → List ℕ
unfolding copy_to
set_source_ip p ip4 = copy_to p 12 ip4

unfoldable pub set_destination_ip : List ℕ → List ℕ → List ℕ
unfolding copy_to
set_destination_ip p ip4 = copy_to p 16 ip4

-- Writes two bytes.
abbrev pub write : List ℕ → ℕ → ℕ → ℕ → List ℕ
write p i hi lo = set (set p i hi) (i + 1) lo

-- The summing loop from index `i`: the rounds left, and the `uint32` sum.
unfoldable pub sum_words : List ℕ → ℕ → ℕ → ℕ → ℕ
sum_words p i zero sum = sum
sum_words p i (suc n) sum =
    sum_words p (i + 2) n (((sum + byte p i * 256) % 2 ^ 32 + byte p (i + 1)) % 2 ^ 32)

-- The two folds of the sum, and the complement.
unfoldable pub checksum : ℕ → ℕ
checksum sum =
    let folded = sum / 2 ^ 16 + sum % 2 ^ 16 in 2 ^ 16 - 1 - (folded + folded / 2 ^ 16) % 2 ^ 16

abbrev pub write_checksum : List ℕ → ℕ → ℕ → List ℕ
write_checksum p i c = write p i (c / 256) (c % 256)

unfoldable pub update_ip_checksum : List ℕ → List ℕ
unfolding sum_words checksum payload_offset
update_ip_checksum p =
    let q = write p 10 0 0 in
    write_checksum q 10 (checksum (sum_words q 0 (payload_offset q / 2) 0))

-- Nine bytes and a length do not reach 2 ^ 32.
unfoldable pub pseudo_header_sum : List ℕ → ℕ → ℕ
pseudo_header_sum p transport_len =
    word p 12 + word p 14 + word p 16 + word p 18 + byte p 9 + transport_len

-- The byte that a segment of odd length leaves over, as the high byte of a word.
abbrev pub odd_byte : List ℕ → ℕ → ℕ → ℕ
odd_byte p offset n = if n % 2 == 1 then byte p (offset + n - 1) * 256 else 0

-- The sum over the pseudo-header and a segment.
unfoldable pub segment_sum : List ℕ → ℕ → ℕ → ℕ
unfolding sum_words pseudo_header_sum
segment_sum p offset n =
    (sum_words p offset (n / 2) (pseudo_header_sum p n) + odd_byte p offset n) % 2 ^ 32

unfoldable pub update_tcp_checksum : List ℕ → List ℕ
unfolding segment_sum checksum payload_offset total_length
update_tcp_checksum p =
    let offset = payload_offset p in
    let q = write p (offset + 16) 0 0 in
    write_checksum q (offset + 16) (checksum (segment_sum q offset (total_length p - offset)))

-- A checksum of 0 is sent as all ones.
abbrev pub nonzero : ℕ → ℕ
nonzero c = if c == 0 then 2 ^ 16 - 1 else c

unfoldable pub update_udp_checksum : List ℕ → List ℕ
unfolding segment_sum checksum payload_offset
update_udp_checksum p =
    let offset = payload_offset p in
    let udp_len = word p (offset + 4) in
    let q = write p (offset + 6) 0 0 in
    if ltb (length p) (offset + 8)
    then p
    else if ltb (length p) (offset + udp_len)
    then p
    else write_checksum q (offset + 6) (nonzero (checksum (segment_sum q offset udp_len)))

unfoldable pub update_icmp_checksum : List ℕ → List ℕ
unfolding sum_words checksum payload_offset total_length
update_icmp_checksum p =
    let offset = payload_offset p in
    let q = write p (offset + 2) 0 0 in
    write_checksum q (offset + 2) (checksum (sum_words q offset ((total_length p - offset) / 2) 0))

unfoldable pub update_checksum : List ℕ → List ℕ
unfolding update_ip_checksum update_tcp_checksum update_udp_checksum update_icmp_checksum
    total_length protocol
update_checksum p =
    let q = update_ip_checksum p in
    if ltb (length p) (total_length p)
    then p
    else if protocol q == 1
    then update_icmp_checksum q
    else if protocol q == 6
    then update_tcp_checksum q
    else if protocol q == 17
    then update_udp_checksum q
    else q
