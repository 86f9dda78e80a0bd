-- ===== src/Network/Ipv6.antt =====
-- `IPv6Packet` of pkg/network/ipv6.go and its checksums of pkg/network/checksum6.go, over the bytes of
-- a packet as `IPv4Packet` is.
pub mod Header
pub mod Checksums
mod Tests
use pig.Base.{
  ℕ, zero, suc, ◌+◌, ◌-◌, ◌*◌, ◌/◌, ◌%◌, ◌^◌, min, Bool, true, false, ◌||◌, not, ◌&&◌, List, ◌==◌,
  ltb, leb, if◌then◌else◌, length, take, drop,
}
use pig.Network.Ipv4.{
  byte, word, write, copy_to, sum_words, checksum, write_checksum, odd_byte, nonzero,
}

unfoldable pub version6 : List ℕ → ℕ
version6 p = byte p 0 / 16

unfoldable pub total_length6 : List ℕ → ℕ
total_length6 p = word p 4 + 40

unfoldable pub source_ip6 : List ℕ → List ℕ
source_ip6 p = take 16 (drop 8 p)

unfoldable pub destination_ip6 : List ℕ → List ℕ
destination_ip6 p = take 16 (drop 24 p)

-- `bytes` is `ip.To16()`: sixteen bytes, or none.
unfoldable pub set_source_ip6 : List ℕ → List ℕ → List ℕ
unfolding copy_to
set_source_ip6 p ip16 = copy_to p 8 ip16

unfoldable pub set_destination_ip6 : List ℕ → List ℕ → List ℕ
unfolding copy_to
set_destination_ip6 p ip16 = copy_to p 24 ip16

-- What `transportHeader` returns: the protocol, the offset and the length of the segment, or false.
-- `out_of_rounds` is for a count of rounds that is too small.
pub data Transport : Type 0 where
  found : ℕ → ℕ → ℕ → Transport
  not_ok out_of_rounds : Transport

-- A round of its loop returns, or goes on with the next header and its offset.
pub data Round : Type 0 where
  return_round : Transport → Round
  continue_round : ℕ → ℕ → Round

abbrev pub is_transport : ℕ → Bool
is_transport next = (next == 6) || ((next == 17) || (next == 58))

abbrev pub is_extension : ℕ → Bool
is_extension next =
    (next == 0)
    || ((next == 43) || ((next == 60) || ((next == 135) || ((next == 139) || (next == 140)))))

-- The offset after an extension, refused past the end.
abbrev pub skip : List ℕ → ℕ → ℕ → ℕ → Round
skip p end offset ext_len =
    if ltb end (offset + 2)
    then return_round not_ok
    else if ltb end (offset + ext_len)
    then return_round not_ok
    else continue_round (byte p offset) (offset + ext_len)

unfoldable pub transport_round : List ℕ → ℕ → ℕ → ℕ → Round
transport_round p end next offset =
    if is_transport next
    then if leb end offset
      then return_round not_ok
      else return_round (found next offset (end - offset))
    else if is_extension next
    then skip p end offset ((byte p (offset + 1) + 1) * 8)
    else if next == 44
    then if ltb end (offset + 8)
      then return_round not_ok
      else if word p (offset + 2) / 2 ^ 3 == 0
      then continue_round (byte p offset) (offset + 8)
      else return_round not_ok
    else if next == 51
    then skip p end offset ((byte p (offset + 1) + 2) * 4)
    else return_round not_ok

unfoldable pub transport_loop : List ℕ → ℕ → ℕ → ℕ → ℕ → Transport
unfolding transport_round
transport_loop p end zero next offset = out_of_rounds
transport_loop p end (suc rounds) next offset = elim (transport_round p end next offset) [
  | return_round t ↦ t
  | continue_round next' offset' ↦ transport_loop p end rounds next' offset'
]

abbrev pub payload_end : List ℕ → ℕ
payload_end p = min (40 + word p 4) (length p)

-- Every round moves the offset on, so the length of the packet bounds the rounds.
unfoldable pub transport_header : List ℕ → Transport
unfolding transport_loop
transport_header p =
    if ltb (length p) 40 then not_ok else transport_loop p (payload_end p) (length p) (byte p 6) 40

unfoldable pub protocol6 : List ℕ → ℕ
unfolding transport_header
protocol6 p = elim (transport_header p) [
  | found next offset n ↦ next
  | _ ↦ if leb (length p) 6 then 0 else byte p 6
]

abbrev pub port_at : List ℕ → ℕ → ℕ → ℕ → ℕ
port_at p next offset i =
    if not (next == 6) && not (next == 17)
    then 0
    else if ltb (length p) (offset + 4)
    then 0
    else word p (offset + i)

unfoldable pub source_port6 : List ℕ → ℕ
unfolding transport_header
source_port6 p = elim (transport_header p) [ found next offset n ↦ port_at p next offset 0 | _ ↦ 0 ]

unfoldable pub destination_port6 : List ℕ → ℕ
unfolding transport_header
destination_port6 p = elim (transport_header p) [
  | found next offset n ↦ port_at p next offset 2
  | _ ↦ 0
]

unfoldable pub pseudo_header_sum6 : List ℕ → ℕ → ℕ → ℕ
unfolding sum_words
pseudo_header_sum6 p next len =
    sum_words p 24 8 (sum_words p 8 8 0) + len / 2 ^ 16 % 2 ^ 16 + len % 2 ^ 16 + next

unfoldable pub segment_sum6 : List ℕ → ℕ → ℕ → ℕ → ℕ
unfolding sum_words pseudo_header_sum6
segment_sum6 p next offset n =
    (sum_words p offset (n / 2) (pseudo_header_sum6 p next n) + odd_byte p offset n) % 2 ^ 32

-- Clears the field at `at`, and writes there what `fix` makes of the checksum.
abbrev pub write_segment : (ℕ → ℕ) → List ℕ → ℕ → ℕ → ℕ → ℕ → List ℕ
write_segment fix p next offset n at =
    let q = write p at 0 0 in write_checksum q at (fix (checksum (segment_sum6 q next offset n)))

unfoldable pub update_tcp_checksum6 : List ℕ → List ℕ
unfolding transport_header segment_sum6 checksum
update_tcp_checksum6 p = elim (transport_header p) [
  | found next offset n ↦
      if next == 6
      then if ltb (length p) (offset + 20)
        then p
        else write_segment (λ c. c) p 6 offset n (offset + 16)
      else p
  | _ ↦ p
]

-- The datagram's own length, or the segment's where that is 0.
abbrev pub udp_length : List ℕ → ℕ → ℕ → ℕ
udp_length p offset n = if word p (offset + 4) == 0 then n else word p (offset + 4)

unfoldable pub update_udp_checksum6 : List ℕ → List ℕ
unfolding transport_header segment_sum6 checksum
update_udp_checksum6 p = elim (transport_header p) [
  | found next offset n ↦
      if next == 17
      then if ltb (length p) (offset + 8)
        then p
        else if ltb (udp_length p offset n) 8 || ltb (length p) (offset + udp_length p offset n)
        then p
        else write_segment nonzero p 17 offset (udp_length p offset n) (offset + 6)
      else p
  | _ ↦ p
]

unfoldable pub update_icmp6_checksum : List ℕ → ℕ → ℕ → List ℕ
unfolding segment_sum6 checksum
update_icmp6_checksum p offset icmp_len =
    if ltb (length p) (offset + 4) || (ltb (length p) (offset + icmp_len) || ltb icmp_len 4)
    then p
    else write_segment (λ c. c) p 58 offset icmp_len (offset + 2)

unfoldable pub update_checksum6 : List ℕ → List ℕ
unfolding transport_header update_tcp_checksum6 update_udp_checksum6 update_icmp6_checksum
update_checksum6 p = elim (transport_header p) [
  | found next offset n ↦
      if next == 6
      then update_tcp_checksum6 p
      else if next == 17
      then update_udp_checksum6 p
      else if next == 58
      then update_icmp6_checksum p offset n
      else p
  | _ ↦ p
]
