-- ===== src/Icmp/Reno/Blocking.antt =====
-- When the sender of pkg/transport/icmp is blocked, along the packets and timeouts that the read loop of
-- conn.go handles.
use pig.Base.{
  ℕ, ◌+◌, ◌*◌, ◌/◌, max, ◌%◌, ◌^◌, ◌≡◌, refl, sym, ap, ◌∙◌, Bool, true, false, not, ◌&&◌, ◌||◌,
  ◌==◌, ltb, leb, if◌then◌else◌,
}
use pig.Icmp.Seq.{is_uint32_seq_higher, uint32_seq_diff}
use pig.Icmp.Reno.{
  Reno, init_new_reno, add_cwnd, update_congestion_window, block_transmit, unblock_transmit,
  Segment, is_duplicate_ack, enter_recovery, third_duplicate, handle_duplicate_ack, is_partial_ack,
  do_fast_retransmit, on_timeout, detect_loss, acknowledge, receive_data, process_packet,
}

-- One round of the read loop.
pub data Step : Reno → Reno → Type 0 where
  packet :
      (c : Reno) (our_seq flight : ℕ) (p : Segment) (seq ack : ℕ)
      → Step c (process_packet c our_seq flight p seq ack)
  timeout : (c : Reno) (our_seq flight : ℕ) → Step c (on_timeout c our_seq flight)

pub data Reachable (emss : ℕ) : Reno → Type 0 where
  starts : Reachable emss (init_new_reno emss)
  steps : (c c' : Reno) → Reachable emss c → Step c c' → Reachable emss c'

-- Blocked exactly in fast recovery or in the recovery of a loss.
abbrev IsBlockedInRecovery : Reno → Type 0
IsBlockedInRecovery c = c.transmit_blocked ≡ (c.retransmit || c.recovery)

by_test :
    (b : Bool) (x y : Reno)
    → (b ≡ true → IsBlockedInRecovery x)
    → (b ≡ false → IsBlockedInRecovery y)
    → IsBlockedInRecovery (if b then x else y)
by_test true x y p q = p refl
by_test false x y p q = q refl

either :
    (b : Bool) (x y : Reno)
    → IsBlockedInRecovery x
    → IsBlockedInRecovery y
    → IsBlockedInRecovery (if b then x else y)
either b x y p q = by_test b x y (λ _. p) (λ _. q)

or_true : (b : Bool) → true ≡ (b || true)
or_true true = refl
or_true false = refl

or_false : (b : Bool) → (b || false) ≡ true → b ≡ true
or_false true e = refl
or_false false e = e

update_congestion_window-IsBlockedInRecovery :
    (c : Reno) (ack : ℕ)
    → IsBlockedInRecovery c
    → IsBlockedInRecovery (update_congestion_window c ack)
unfolding update_congestion_window
update_congestion_window-IsBlockedInRecovery c ack h =
    let acked = uint32_seq_diff ack c.peer_ack in
    let count = (c.ack_bytes_count + acked) % 2 ^ 32 in
    let reset = record c { ack_bytes_count = 0 } in
    let counted = record c { ack_bytes_count = count } in
    let grown = add_cwnd reset c.emss in
    let started = add_cwnd reset (if ltb c.emss acked then c.emss else acked) in
    let avoided = if leb c.cwnd count then grown else counted in
    either c.retransmit c (if leb c.ssthresh c.cwnd then avoided else started) h (
      either (leb c.ssthresh c.cwnd) avoided started (either (leb c.cwnd count) grown counted h h)
        h)

-- Releasing one of the two recoveries unblocks the sender unless the other goes on.
unblock_transmit-IsBlockedInRecovery :
    (c : Reno)
    → ((c.retransmit || c.recovery) ≡ true → c.transmit_blocked ≡ true)
    → IsBlockedInRecovery (unblock_transmit c)
unfolding unblock_transmit
unblock_transmit-IsBlockedInRecovery c h =
    by_test (c.retransmit || c.recovery) c (record c { transmit_blocked = false })
      (λ t. h t ∙ sym t) sym

-- A blocked sender in either recovery.
blocked_left : (c : Reno) → IsBlockedInRecovery c → c.retransmit ≡ true → c.transmit_blocked ≡ true
blocked_left c h e = h ∙ ap (λ b. b || c.recovery) e

blocked_right : (c : Reno) → IsBlockedInRecovery c → c.recovery ≡ true → c.transmit_blocked ≡ true
blocked_right c h e = h ∙ ap (λ b. c.retransmit || b) e ∙ sym (or_true c.retransmit)

third_duplicate-IsBlockedInRecovery :
    (c : Reno) (our_seq flight ack : ℕ)
    → IsBlockedInRecovery c
    → IsBlockedInRecovery (third_duplicate c our_seq flight ack)
unfolding enter_recovery block_transmit
third_duplicate-IsBlockedInRecovery c our_seq flight ack h =
    let entered = enter_recovery c our_seq flight in
    let many = ltb (4 * c.emss % 2 ^ 32) (uint32_seq_diff c.peer_ack c.prev_peer_ack) in
    let unless_many = if many then c else entered in
    let held = if leb c.cwnd c.emss then c else unless_many in
    either (is_uint32_seq_higher c.recover_seq ack) held entered
      (either (leb c.cwnd c.emss) c unless_many h (either many c entered h refl)) refl

handle_duplicate_ack-IsBlockedInRecovery :
    (c : Reno) (our_seq flight : ℕ) (p : Segment)
    → IsBlockedInRecovery c
    → IsBlockedInRecovery (handle_duplicate_ack c our_seq flight p)
unfolding handle_duplicate_ack
handle_duplicate_ack-IsBlockedInRecovery c our_seq flight p h =
    let cnt = (c.dup_cnt + 1) % 2 ^ 8 in
    let counted = record c { dup_cnt = cnt } in
    let third = third_duplicate counted our_seq flight p.packet_ack in
    either c.retransmit (add_cwnd c c.emss) (if ltb cnt 3 then counted else third) h (
      either (ltb cnt 3) counted third h
        (third_duplicate-IsBlockedInRecovery counted our_seq flight p.packet_ack h))

do_fast_retransmit-IsBlockedInRecovery :
    (c : Reno) (ack : ℕ) → IsBlockedInRecovery c → IsBlockedInRecovery (do_fast_retransmit c ack)
unfolding do_fast_retransmit
do_fast_retransmit-IsBlockedInRecovery c ack h =
    let diff = uint32_seq_diff ack c.peer_ack in
    let small = ltb (if ltb diff c.emss then c.emss else diff) c.ssthresh in
    let inflated = record c { cwnd = (c.ssthresh + c.emss) % 2 ^ 32 } in
    let partial = if small then inflated else c in
    let left = record c { cwnd = c.ssthresh; retransmit = false } in
    let higher = is_uint32_seq_higher c.recover_seq ack in
    either c.retransmit (if higher then partial else unblock_transmit left) c
      (either higher partial (unblock_transmit left) (either small inflated c h h)
        (unblock_transmit-IsBlockedInRecovery left (blocked_right c h)))
      h

on_timeout-IsBlockedInRecovery :
    (c : Reno) (our_seq flight : ℕ)
    → IsBlockedInRecovery c
    → IsBlockedInRecovery (on_timeout c our_seq flight)
unfolding on_timeout
on_timeout-IsBlockedInRecovery c our_seq flight h =
    unblock_transmit-IsBlockedInRecovery
      (record c {
        ssthresh = max (flight / 2) (2 * c.emss % 2 ^ 32);
        cwnd = c.emss;
        recover_seq = our_seq;
        retransmit = false;
      })
      (blocked_right c h)

detect_loss-IsBlockedInRecovery :
    (c : Reno) (p : Segment) → IsBlockedInRecovery c → IsBlockedInRecovery (detect_loss c p)
unfolding detect_loss block_transmit
detect_loss-IsBlockedInRecovery c p h =
    either (is_uint32_seq_higher p.packet_seq c.peer_seq && not c.recovery)
      (record c { recovery = true; transmit_blocked = true }) c (or_true c.retransmit) h

acknowledge-IsBlockedInRecovery :
    (c : Reno) (ack : ℕ) → IsBlockedInRecovery c → IsBlockedInRecovery (acknowledge c ack)
unfolding acknowledge
acknowledge-IsBlockedInRecovery c ack h =
    let c1 = do_fast_retransmit (record c { dup_cnt = 0 }) ack in
    let h1 = do_fast_retransmit-IsBlockedInRecovery (record c { dup_cnt = 0 }) ack h in
    let c2 = if is_partial_ack c ack then c1 else update_congestion_window c1 ack in
    let h2 =
      either (is_partial_ack c ack) c1 (update_congestion_window c1 ack) h1
        (update_congestion_window-IsBlockedInRecovery c1 ack h1) in
    either (is_uint32_seq_higher ack c2.peer_ack)
      (record c2 { prev_peer_ack = c2.peer_ack; peer_ack = ack }) c2 h2 h2

receive_data-IsBlockedInRecovery :
    (c : Reno) (p : Segment) (seq ack : ℕ)
    → IsBlockedInRecovery c
    → IsBlockedInRecovery (receive_data c p seq ack)
unfolding receive_data
receive_data-IsBlockedInRecovery c p seq ack h =
    let recovered = record c { peer_seq = seq; peer_ack = ack; recovery = false } in
    let early = not (c.peer_seq == p.packet_seq) in
    let in_recovery = if early then c else unblock_transmit recovered in
    let in_order = record c { peer_seq = (p.packet_seq + p.data_len) % 2 ^ 32 } in
    either (p.data_len == 0) c (if c.recovery then in_recovery else in_order) h (
      either c.recovery in_recovery in_order
        (either early c (unblock_transmit recovered) h (
          unblock_transmit-IsBlockedInRecovery recovered
            (λ e. blocked_left c h (or_false c.retransmit e))))
        h)

process_packet-IsBlockedInRecovery :
    (c : Reno) (our_seq flight : ℕ) (p : Segment) (seq ack : ℕ)
    → IsBlockedInRecovery c
    → IsBlockedInRecovery (process_packet c our_seq flight p seq ack)
unfolding process_packet
process_packet-IsBlockedInRecovery c our_seq flight p seq ack h =
    let c1 = detect_loss c p in
    let h1 = detect_loss-IsBlockedInRecovery c p h in
    let duplicate = handle_duplicate_ack c1 our_seq flight p in
    let acked = acknowledge c1 p.packet_ack in
    let fresh = receive_data acked p seq ack in
    either (is_uint32_seq_higher c.peer_seq p.packet_seq) c
      (if is_duplicate_ack c1 our_seq p then duplicate else fresh) h
      (either (is_duplicate_ack c1 our_seq p) duplicate fresh
        (handle_duplicate_ack-IsBlockedInRecovery c1 our_seq flight p h1)
        (receive_data-IsBlockedInRecovery acked p seq ack
          (acknowledge-IsBlockedInRecovery c1 p.packet_ack h1)))

-- After any sequence of packets and timeouts of a new connection, the sender is blocked exactly while it is in
-- fast recovery or a loss of the peer's packets is being recovered.
pub reachable-IsBlockedInRecovery :
    (emss : ℕ) (c : Reno) → Reachable emss c → c.transmit_blocked ≡ (c.retransmit || c.recovery)
unfolding init_new_reno
reachable-IsBlockedInRecovery emss c starts = refl
reachable-IsBlockedInRecovery emss c (steps b c' r (packet _ our_seq flight p seq ack)) =
    process_packet-IsBlockedInRecovery b our_seq flight p seq ack
      (reachable-IsBlockedInRecovery emss b r)
reachable-IsBlockedInRecovery emss c (steps b c' r (timeout _ our_seq flight)) =
    on_timeout-IsBlockedInRecovery b our_seq flight (reachable-IsBlockedInRecovery emss b r)
