-- ===== src/Network/Ipv6/Tests.antt =====
-- Runs of pkg/network/ipv6.go and checksum6.go on concrete packets.
use pig.Base.{
  ◌≢◌, ℕ, ◌+◌, ◌%◌, ◌≤◌, ◌<◌, ◌≡◌, refl, ◌⊎◌, List, [], ◌∷◌, ◌++◌, arith, length, replicate,
}
use pig.Network.Ipv4.Words.{all_below-AreBytes}
use pig.Network.Ipv4.Verifies.{Changes}
use pig.Network.Ipv6.{
  transport_header, payload_end, update_tcp_checksum6, update_udp_checksum6, update_icmp6_checksum,
  udp_length,
}
use pig.Network.Ipv4.{word}
use pig.Network.Ipv6.Header.{IsFound, transport_header-IsFound}
use pig.Network.Ipv6.Checksums.{
  verifying_sum6, update_tcp_checksum6_lem, update_udp_checksum6_lem, update_icmp6_checksum_lem,
}

-- A fixed header for `len` bytes after it.
abbrev with_header6 : ℕ → ℕ → List ℕ → List ℕ
with_header6 len next payload =
    96 ∷ 0 ∷ 0 ∷ 0 ∷ 0 ∷ len ∷ next ∷ 64 ∷ (replicate 16 32 ++ (replicate 16 253 ++ payload))

-- A hop-by-hop extension before a datagram of 11 bytes.
abbrev udp6_packet : List ℕ
udp6_packet =
    with_header6 19 0
      (17 ∷ 0 ∷ 1 ∷ 4 ∷ 0 ∷ 0 ∷ 0 ∷ 0 ∷ 20 ∷ 233 ∷ 0 ∷ 53 ∷ 0 ∷ 11 ∷ 0 ∷ 0 ∷ 200 ∷ 100 ∷ 55 ∷ [])

abbrev tcp6_packet : List ℕ
tcp6_packet =
    with_header6 20 6
      (20 ∷ 233 ∷ 0 ∷ 80 ∷ 1 ∷ 2 ∷ 3 ∷ 4 ∷ 0 ∷ 0 ∷ 0 ∷ 0 ∷ 80 ∷ 2 ∷ 255 ∷ 255 ∷ 0 ∷ 0 ∷ 0 ∷ 0 ∷ [])

abbrev icmp6_packet : List ℕ
icmp6_packet = with_header6 8 58 (128 ∷ 0 ∷ 0 ∷ 0 ∷ 1 ∷ 2 ∷ 3 ∷ 4 ∷ [])

transport_header-IsFound_example : IsFound (payload_end udp6_packet) (transport_header udp6_packet)
transport_header-IsFound_example = transport_header-IsFound udp6_packet

update_tcp_checksum6_lem_example :
    Changes tcp6_packet (40 + 16) (update_tcp_checksum6 tcp6_packet)
    × (verifying_sum6 (update_tcp_checksum6 tcp6_packet) 6 40 20 % 65535 ≡ 0)
unfolding transport_header
update_tcp_checksum6_lem_example =
    update_tcp_checksum6_lem tcp6_packet 40 20 (all_below-AreBytes tcp6_packet refl) refl
      (omega arith)

update_udp_checksum6_lem_example :
    (8 ≤ udp_length udp6_packet 48 11
      → 48 + udp_length udp6_packet 48 11 ≤ length udp6_packet
      → Changes udp6_packet (48 + 6) (update_udp_checksum6 udp6_packet)
        × (verifying_sum6 (update_udp_checksum6 udp6_packet) 17 48 (udp_length udp6_packet 48 11)
              % 65535
            ≡ 0)
        × (word (update_udp_checksum6 udp6_packet) (48 + 6) ≢ 0))
    × ((udp_length udp6_packet 48 11 < 8) ⊎ (length udp6_packet < 48 + udp_length udp6_packet 48 11)
        → update_udp_checksum6 udp6_packet ≡ udp6_packet)
unfolding transport_header
update_udp_checksum6_lem_example =
    update_udp_checksum6_lem udp6_packet 48 11 (all_below-AreBytes udp6_packet refl) refl

update_icmp6_checksum_lem_example :
    (4 ≤ 8
      → 40 + 8 ≤ length icmp6_packet
      → Changes icmp6_packet (40 + 2) (update_icmp6_checksum icmp6_packet 40 8)
        × (verifying_sum6 (update_icmp6_checksum icmp6_packet 40 8) 58 40 8 % 65535 ≡ 0))
    × ((8 < 4) ⊎ (length icmp6_packet < 40 + 8)
        → update_icmp6_checksum icmp6_packet 40 8 ≡ icmp6_packet)
update_icmp6_checksum_lem_example =
    update_icmp6_checksum_lem icmp6_packet 40 8 (all_below-AreBytes icmp6_packet refl) (omega arith)
      (omega arith)
