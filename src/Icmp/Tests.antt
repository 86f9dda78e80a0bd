-- ===== src/Icmp/Tests.antt =====
-- Runs of pkg/transport/icmp at concrete inputs.
use pig.Base.{
  ℕ, ◌+◌, ◌^◌, ◌<◌, ◌≡◌, refl, ◌≢◌, ◌⊎◌, Bool, true, ◌&&◌, List, [], ◌∷◌, ◌++◌, ltb, leb, length,
  arith, none, some,
}
use pig.Icmp.Seq.{
  is_uint32_seq_higher, uint32_seq_diff, is_uint32_seq_in_window, is_uint16_seq_in_window, ahead,
  is_uint32_seq_higher_lem, is_seq_in_window_lem,
}
use pig.Icmp.Flight.{FlightCounter, add, sub, must_wait, must_wait_lem}
use pig.Icmp.Retransmit.{Packet, Queue, put, get_packet, delete_until, total_len, range_from}
use pig.Icmp.Retransmit.Laws.{put_lem}
use pig.Icmp.Retransmit.Ranging.{announced, Calls, range_from_lem}
use pig.Icmp.Retransmit.Sorted.{
  IsSorted, sorted_nil, sorted_cons, after_nil, after_cons, before, from, buffers, delete_until_lem,
}

-- A number that has wrapped past 2 ^ 32.
is_uint32_seq_higher_lem_example :
    (is_uint32_seq_higher (ahead (2 ^ 32) 4294967290 10) 4294967290 ≡ ltb 0 10 && ltb 10 (2 ^ 31))
    × (uint32_seq_diff (ahead (2 ^ 32) 4294967290 10) 4294967290 ≡ 10)
is_uint32_seq_higher_lem_example =
    is_uint32_seq_higher_lem 4294967290 10 (omega arith) (omega arith)

is_seq_in_window_lem_example :
    (65530 < 2 ^ 32
      → 3 < 2 ^ 32
      → 10 < 2 ^ 32
      → is_uint32_seq_in_window (ahead (2 ^ 32) 65530 3) 65530 (ahead (2 ^ 32) 65530 10) ≡ leb 3 10)
    × (65530 < 2 ^ 16
        → 3 < 2 ^ 16
        → 10 < 2 ^ 16
        → is_uint16_seq_in_window (ahead (2 ^ 16) 65530 3) 65530 (ahead (2 ^ 16) 65530 10)
          ≡ leb 3 10)
is_seq_in_window_lem_example = is_seq_in_window_lem 65530 3 10

abbrev half_full : FlightCounter
half_full = record { cwnd = 4000; send_window_size = 64000; bc = 2000 }

must_wait_lem_example :
    ((add half_full 1000).bc ≡ 2000 + 1000)
    × ((half_full.bc ≡ 0) ⊎ (((add half_full 1000).bc < 4000) × ((add half_full 1000).bc < 64000)))
    × ((sub (add half_full 1000) 1000).bc ≡ half_full.bc)
unfolding must_wait
must_wait_lem_example =
    must_wait_lem half_full 1000 1000 (omega arith) (omega arith) (omega arith) (omega arith)
      (omega arith) refl

abbrev packet : ℕ → Packet
packet n = record { packet_seq = n; packet_data = 7 ∷ []; buffer = n ∷ [] }

abbrev two_packets : Queue
two_packets = packet 10 ∷ packet 11 ∷ []

two_packets-IsSorted : IsSorted two_packets
two_packets-IsSorted =
    sorted_cons (after_cons (omega arith) after_nil) (sorted_cons after_nil sorted_nil)

delete_until_lem_example :
    IsSorted (delete_until two_packets 11).0
    × (((from 11 two_packets ≡ [])
          × (delete_until two_packets 11 ≡ (two_packets, [], total_len two_packets 0)))
        ⊎ ((from 11 two_packets ≢ [])
            × (delete_until two_packets 11 ≡ (
              from 11 two_packets,
              buffers (before 11 two_packets),
              total_len (before 11 two_packets) 0,
            ))))
delete_until_lem_example = delete_until_lem two_packets 11 two_packets-IsSorted

put_lem_example :
    IsSorted (put two_packets (packet 12)).0
    × (((length (packet 12).packet_data ≢ 0)
          × (from 12 two_packets ≡ [])
          × (put two_packets (packet 12) ≡ (two_packets ++ (packet 12 ∷ []), [])))
        ⊎ (((length (packet 12).packet_data ≡ 0) ⊎ (from 12 two_packets ≢ []))
            × (put two_packets (packet 12) ≡ (two_packets, (packet 12).buffer ∷ []))))
put_lem_example = put_lem two_packets (packet 12) two_packets-IsSorted

-- A callback that collects sequence numbers and never stops.
abbrev collect : List ℕ → Packet → ℕ → Bool × List ℕ
collect s p next = (true, s ++ (p.packet_seq ∷ []))

range_from_lem_example :
    ((get_packet two_packets 11 ≡ none) × (range_from collect two_packets 11 [] ≡ []))
    ⊎ ((p : Packet) × (ps : Queue) × (get_packet two_packets 11 ≡ some p)
        × (from 11 two_packets ≡ p ∷ ps)
        × Calls collect (announced (p ∷ ps)) [] (range_from collect two_packets 11 []))
range_from_lem_example = range_from_lem collect two_packets 11 [] two_packets-IsSorted

-- An acknowledgement past the last packet drops nothing, yet reports every byte.
past_the_end : delete_until two_packets 12 ≡ (two_packets, [], 2)
unfolding delete_until
past_the_end = refl

-- A packet with the number of the last one is left out, and its buffer cleared.
equal_to_the_last : put two_packets (packet 11) ≡ (two_packets, (11 ∷ []) ∷ [])
unfolding put
equal_to_the_last = refl
