-- ===== src/Icmp/Reno/Tests.antt =====
-- A connection of pkg/transport/icmp that loses packets, evaluated.
use pig.Base.{◌≡◌, refl, true, ◌||◌}
use pig.Icmp.Seq.{is_uint32_seq_higher}
use pig.Icmp.Reno.{Reno, init_new_reno, Segment, process_packet, on_timeout}
use pig.Icmp.Reno.Blocking.{packet, timeout, starts, steps, reachable-IsBlockedInRecovery}

-- A packet that leaves a gap of 100 bytes.
abbrev after_gap : Segment
after_gap = record { packet_seq = 100; packet_ack = 0; data_len = 50 }

abbrev with_gap : Reno
with_gap = process_packet (init_new_reno 1000) 3000 3000 after_gap 0 0

blocked_by_gap : with_gap.transmit_blocked ≡ true
unfolding process_packet init_new_reno is_uint32_seq_higher
blocked_by_gap = refl

still_blocked : (on_timeout with_gap 3000 3000).transmit_blocked ≡ true
unfolding process_packet init_new_reno on_timeout is_uint32_seq_higher
still_blocked = refl

reachable-IsBlockedInRecovery_example :
    (on_timeout with_gap 3000 3000).transmit_blocked
    ≡ ((on_timeout with_gap 3000 3000).retransmit || (on_timeout with_gap 3000 3000).recovery)
reachable-IsBlockedInRecovery_example =
    reachable-IsBlockedInRecovery 1000 (on_timeout with_gap 3000 3000) (
      steps with_gap (on_timeout with_gap 3000 3000)
        (steps (init_new_reno 1000) with_gap starts
          (packet (init_new_reno 1000) 3000 3000 after_gap 0 0))
        (timeout with_gap 3000 3000))
