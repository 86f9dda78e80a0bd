-- ===== src/Icmp/Reno.antt =====
-- Congestion control of pkg/transport/icmp/reno.go, with the handling of a packet and of the timeout in
-- conn.go as far as they change it. A packet is one that passes the checks of its type, code, identifier and
-- length. The segments that are sent again, the timers and the queues are left out; the number of the next
-- byte to send and the bytes in flight are arguments, and so is what the out-of-order queue gives to
-- `recoverFromLoss`. The read buffer takes all data.
pub mod Blocking
mod Tests
use pig.Base.{
  ℕ, ◌+◌, ◌*◌, ◌/◌, ◌%◌, ◌^◌, Bool, true, false, not, ◌&&◌, ◌||◌, ◌==◌, ltb, leb, if◌then◌else◌,
  max,
}
use pig.Icmp.Seq.{is_uint32_seq_higher, uint32_seq_diff}

pub record Reno : Type 0 where
  pub emss : ℕ
  pub cwnd : ℕ
  pub ssthresh : ℕ
  pub retransmit : Bool
  pub recovery : Bool
  pub transmit_blocked : Bool
  pub recover_seq : ℕ
  pub dup_cnt : ℕ
  pub ack_bytes_count : ℕ
  pub peer_seq : ℕ
  pub peer_ack : ℕ
  pub prev_peer_ack : ℕ

unfoldable pub init_new_reno : ℕ → Reno
init_new_reno emss = record {
  emss = emss;
  cwnd = 10 * emss % 2 ^ 32;
  ssthresh = 0xFFFFFFFF;
  retransmit = false;
  recovery = false;
  transmit_blocked = false;
  recover_seq = 0;
  dup_cnt = 0;
  ack_bytes_count = 0;
  peer_seq = 0;
  peer_ack = 0xFFFFFFFF;
  prev_peer_ack = 0;
}

abbrev pub add_cwnd : Reno → ℕ → Reno
add_cwnd c n = record c { cwnd = (c.cwnd + n) % 2 ^ 32 }

unfoldable pub update_congestion_window : Reno → ℕ → Reno
update_congestion_window c peer_ack =
    let acked = uint32_seq_diff peer_ack c.peer_ack in
    let count = (c.ack_bytes_count + acked) % 2 ^ 32 in
    if c.retransmit
    then c
    else if leb c.ssthresh c.cwnd
    then if leb c.cwnd count
      then add_cwnd (record c { ack_bytes_count = 0 }) c.emss
      else record c { ack_bytes_count = count }
    else add_cwnd (record c { ack_bytes_count = 0 }) (if ltb c.emss acked then c.emss else acked)

unfoldable pub block_transmit : Reno → Reno
block_transmit c = record c { transmit_blocked = true }

unfoldable pub unblock_transmit : Reno → Reno
unblock_transmit c = if c.retransmit || c.recovery then c else record c { transmit_blocked = false }

-- A packet: its two numbers and the length of its data.
pub record Segment : Type 0 where
  pub packet_seq : ℕ
  pub packet_ack : ℕ
  pub data_len : ℕ

abbrev pub is_duplicate_ack : Reno → ℕ → Segment → Bool
is_duplicate_ack c our_seq p =
    (p.data_len == 0) && ((p.packet_ack == c.peer_ack) && is_uint32_seq_higher our_seq p.packet_ack)

-- Entering fast recovery, with the bytes in flight.
unfoldable pub enter_recovery : Reno → ℕ → ℕ → Reno
unfolding block_transmit
enter_recovery c our_seq flight =
    let threshold = max (flight / 2) (2 * c.emss % 2 ^ 32) in
    record (block_transmit c) {
      recover_seq = our_seq;
      ssthresh = threshold;
      cwnd = (threshold + 3 * c.emss) % 2 ^ 32;
      retransmit = true;
    }

-- What follows the third duplicate, unless RFC 6582 section 4.1 holds it back.
abbrev pub third_duplicate : Reno → ℕ → ℕ → ℕ → Reno
third_duplicate c our_seq flight ack =
    let entered = enter_recovery c our_seq flight in
    if is_uint32_seq_higher c.recover_seq ack
    then if leb c.cwnd c.emss
      then c
      else if ltb (4 * c.emss % 2 ^ 32) (uint32_seq_diff c.peer_ack c.prev_peer_ack)
      then c
      else entered
    else entered

-- For an acknowledgement that is a duplicate.
unfoldable pub handle_duplicate_ack : Reno → ℕ → ℕ → Segment → Reno
unfolding enter_recovery
handle_duplicate_ack c our_seq flight p =
    let cnt = (c.dup_cnt + 1) % 2 ^ 8 in
    let counted = record c { dup_cnt = cnt } in
    if c.retransmit
    then add_cwnd c c.emss
    else if ltb cnt 3
    then counted
    else third_duplicate counted our_seq flight p.packet_ack

-- Whether the acknowledgement is a partial one in fast recovery, and the state after it.
unfoldable pub is_partial_ack : Reno → ℕ → Bool
is_partial_ack c peer_ack = c.retransmit && is_uint32_seq_higher c.recover_seq peer_ack

unfoldable pub do_fast_retransmit : Reno → ℕ → Reno
unfolding unblock_transmit
do_fast_retransmit c peer_ack =
    let diff = uint32_seq_diff peer_ack c.peer_ack in
    let acked = if ltb diff c.emss then c.emss else diff in
    if c.retransmit
    then if is_uint32_seq_higher c.recover_seq peer_ack
      then if ltb acked c.ssthresh then record c { cwnd = (c.ssthresh + c.emss) % 2 ^ 32 } else c
      else unblock_transmit (record c { cwnd = c.ssthresh; retransmit = false })
    else c

unfoldable pub on_timeout : Reno → ℕ → ℕ → Reno
unfolding unblock_transmit
on_timeout c our_seq flight = unblock_transmit (record c {
  ssthresh = max (flight / 2) (2 * c.emss % 2 ^ 32);
  cwnd = c.emss;
  recover_seq = our_seq;
  retransmit = false;
})

-- A gap in the peer's numbers starts loss recovery.
unfoldable pub detect_loss : Reno → Segment → Reno
unfolding block_transmit
detect_loss c p =
    if is_uint32_seq_higher p.packet_seq c.peer_seq && not c.recovery
    then block_transmit (record c { recovery = true })
    else c

unfoldable pub acknowledge : Reno → ℕ → Reno
unfolding is_partial_ack do_fast_retransmit update_congestion_window
acknowledge c ack =
    let partial = is_partial_ack c ack in
    let c1 = do_fast_retransmit (record c { dup_cnt = 0 }) ack in
    let c2 = if partial then c1 else update_congestion_window c1 ack in
    if is_uint32_seq_higher ack c2.peer_ack
    then record c2 { prev_peer_ack = c2.peer_ack; peer_ack = ack }
    else c2

-- The data of a packet; `seq` and `ack` are the peer's numbers after `recoverFromLoss`.
unfoldable pub receive_data : Reno → Segment → ℕ → ℕ → Reno
unfolding unblock_transmit
receive_data c p seq ack =
    if p.data_len == 0
    then c
    else if c.recovery
    then if not (c.peer_seq == p.packet_seq)
      then c
      else unblock_transmit (record c { peer_seq = seq; peer_ack = ack; recovery = false })
    else record c { peer_seq = (p.packet_seq + p.data_len) % 2 ^ 32 }

unfoldable pub process_packet : Reno → ℕ → ℕ → Segment → ℕ → ℕ → Reno
unfolding detect_loss handle_duplicate_ack acknowledge receive_data
process_packet c our_seq flight p seq ack =
    let c1 = detect_loss c p in
    if is_uint32_seq_higher c.peer_seq p.packet_seq
    then c
    else if is_duplicate_ack c1 our_seq p
    then handle_duplicate_ack c1 our_seq flight p
    else receive_data (acknowledge c1 p.packet_ack) p seq ack
