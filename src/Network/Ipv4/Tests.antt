-- ===== src/Network/Ipv4/Tests.antt =====
-- Runs of pkg/network/checksum.go on concrete packets.
use pig.Base.{◌≢◌, ℕ, ◌+◌, ◌-◌, ◌/◌, ◌%◌, ◌≤◌, ◌<◌, ◌≡◌, refl, List, [], ◌∷◌, arith, length}
use pig.Network.Ipv4.{
  word, payload_offset, total_length, update_ip_checksum, update_tcp_checksum, update_udp_checksum,
  update_icmp_checksum,
}
use pig.Network.Ipv4.Words.{words, all_below-AreBytes}
use pig.Network.Ipv4.Verifies.{Changes, verifying_sum, update_ip_checksum_lem}
use pig.Network.Ipv4.Segments.{
  update_tcp_checksum_lem, update_udp_checksum_lem, update_icmp_checksum_lem,
}

-- A header of 20 bytes for a packet of `total`, before a segment.
abbrev with_header : ℕ → ℕ → List ℕ → List ℕ
with_header total proto segment =
    69 ∷ 0 ∷ 0 ∷ total ∷ 18 ∷ 52 ∷ 0 ∷ 0 ∷ 64 ∷ proto ∷ 0 ∷ 0 ∷ 10 ∷ 0 ∷ 0 ∷ 1 ∷ 192 ∷ 168 ∷ 7 ∷ 9
    ∷ segment

abbrev udp_packet : List ℕ
udp_packet = with_header 31 17 (20 ∷ 233 ∷ 0 ∷ 53 ∷ 0 ∷ 11 ∷ 0 ∷ 0 ∷ 200 ∷ 100 ∷ 55 ∷ [])

abbrev tcp_packet : List ℕ
tcp_packet =
    with_header 40 6
      (20 ∷ 233 ∷ 0 ∷ 80 ∷ 1 ∷ 2 ∷ 3 ∷ 4 ∷ 0 ∷ 0 ∷ 0 ∷ 0 ∷ 80 ∷ 2 ∷ 255 ∷ 255 ∷ 0 ∷ 0 ∷ 0 ∷ 0 ∷ [])

abbrev icmp_packet : List ℕ
icmp_packet = with_header 28 1 (8 ∷ 0 ∷ 0 ∷ 0 ∷ 1 ∷ 2 ∷ 3 ∷ 4 ∷ [])

update_ip_checksum_lem_example :
    Changes udp_packet 10 (update_ip_checksum udp_packet)
    × (words (update_ip_checksum udp_packet) 0 (payload_offset udp_packet / 2) % 65535 ≡ 0)
unfolding payload_offset
update_ip_checksum_lem_example =
    update_ip_checksum_lem udp_packet (all_below-AreBytes udp_packet refl) (omega arith)
      (omega arith)

update_tcp_checksum_lem_example :
    Changes tcp_packet (payload_offset tcp_packet + 16) (update_tcp_checksum tcp_packet)
    × (verifying_sum
            (update_tcp_checksum tcp_packet)
            (payload_offset tcp_packet)
            (total_length tcp_packet - payload_offset tcp_packet)
          % 65535
        ≡ 0)
unfolding payload_offset total_length
update_tcp_checksum_lem_example =
    update_tcp_checksum_lem tcp_packet (all_below-AreBytes tcp_packet refl) (omega arith)
      (omega arith) (omega arith)

update_udp_checksum_lem_example :
    (payload_offset udp_packet + word udp_packet (payload_offset udp_packet + 4) ≤ length udp_packet
      → Changes udp_packet (payload_offset udp_packet + 6) (update_udp_checksum udp_packet)
        × (verifying_sum
                (update_udp_checksum udp_packet)
                (payload_offset udp_packet)
                (word udp_packet (payload_offset udp_packet + 4))
              % 65535
            ≡ 0)
        × (word (update_udp_checksum udp_packet) (payload_offset udp_packet + 6) ≢ 0))
    × (length udp_packet
          < payload_offset udp_packet + word udp_packet (payload_offset udp_packet + 4)
        → update_udp_checksum udp_packet ≡ udp_packet)
unfolding payload_offset
update_udp_checksum_lem_example =
    update_udp_checksum_lem udp_packet (all_below-AreBytes udp_packet refl) (omega arith)
      (omega arith)

update_icmp_checksum_lem_example :
    Changes icmp_packet (payload_offset icmp_packet + 2) (update_icmp_checksum icmp_packet)
    × (words
            (update_icmp_checksum icmp_packet)
            (payload_offset icmp_packet)
            ((total_length icmp_packet - payload_offset icmp_packet) / 2)
          % 65535
        ≡ 0)
unfolding payload_offset total_length
update_icmp_checksum_lem_example =
    update_icmp_checksum_lem icmp_packet (all_below-AreBytes icmp_packet refl) (omega arith)
      (omega arith)
