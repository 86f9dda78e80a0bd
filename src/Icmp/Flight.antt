-- ===== src/Icmp/Flight.antt =====
-- `FlightCounter` of pkg/transport/icmp/flight.go: the bytes in flight. `WaitCwnd` is its loop's
-- test: the caller tests again once a `Sub` has woken it.
use pig.Base.{
  ℕ, ◌+◌, ◌-◌, ◌%◌, ◌^◌, ◌≤◌, ◌<◌, ◌≡◌, ◌⊎◌, Bool, false, ◌&&◌, ◌||◌, ◌==◌, ltb, leb, if◌then◌else◌,
  arith,
}
use pig.Icmp.Seq.{sub32}

-- `cwnd` is what the shared atomic holds when it is read.
pub record FlightCounter : Type 0 where
  pub cwnd : ℕ
  pub send_window_size : ℕ
  pub bc : ℕ

unfoldable pub new_flight_counter : ℕ → ℕ → FlightCounter
new_flight_counter cwnd send_window_size = record {
  cwnd = cwnd;
  send_window_size = send_window_size;
  bc = 0;
}

unfoldable pub add : FlightCounter → ℕ → FlightCounter
add fc num = if num == 0 then fc else record fc { bc = (fc.bc + num) % 2 ^ 32 }

unfoldable pub sub : FlightCounter → ℕ → FlightCounter
sub fc num =
    if num == 0
    then fc
    else if ltb fc.bc num
    then record fc { bc = 0 }
    else record fc { bc = fc.bc - num }

unfoldable pub must_wait : FlightCounter → ℕ → Bool
unfolding sub32
must_wait fc emss =
    ltb 0 fc.bc && (leb (sub32 fc.cwnd emss) fc.bc || leb (sub32 fc.send_window_size emss) fc.bc)

-- A segment of at most `emss` bytes that is sent where `WaitCwnd` lets it through is alone in flight,
-- or keeps the bytes in flight below the congestion window and the send window; the counter
-- is their exact sum, and acknowledging the segment restores it. It takes windows that fit a segment.
pub must_wait_lem :
    (fc : FlightCounter) (emss num : ℕ)
    → fc.cwnd < 2 ^ 32
    → fc.send_window_size < 2 ^ 32
    → emss ≤ fc.cwnd
    → emss ≤ fc.send_window_size
    → num ≤ emss
    → must_wait fc emss ≡ false
    → ((add fc num).bc ≡ fc.bc + num)
      × ((fc.bc ≡ 0) ⊎ (((add fc num).bc < fc.cwnd) × ((add fc num).bc < fc.send_window_size)))
      × ((sub (add fc num) num).bc ≡ fc.bc)
unfolding must_wait add sub sub32
must_wait_lem fc emss num h1 h2 h3 h4 h5 h = ground arith
