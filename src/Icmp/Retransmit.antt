-- ===== src/Icmp/Retransmit.antt =====
-- `RetransmitQueue` of pkg/transport/icmp/retransmit.go: sent packets, oldest first. `clearMemory` is
-- a callback that returns nothing: an operation gives, beside the queue, the buffers that it clears, in order.
pub mod Sorted
pub mod Laws
pub mod Ranging
use pig.Base.{
  ℕ, zero, suc, ◌+◌, ◌%◌, ◌^◌, Bool, true, false, Option, none, some, List, [], ◌∷◌, ◌++◌, map,
  ◌==◌, ltb, leb, if◌then◌else◌, length, drop, take,
}

-- The fields that the queue reads. Bytes are numbers.
pub record Packet : Type 0 where
  pub packet_seq : ℕ
  pub packet_data : List ℕ
  pub buffer : List ℕ

abbrev pub Queue : Type 0
Queue = List Packet

abbrev pub Cleared : Type 0
Cleared = List (List ℕ)

unfoldable pub last : Packet → Queue → Packet
last p [] = p
last p (q ∷ qs) = last q qs

unfoldable pub put : Queue → Packet → Queue × Cleared
unfolding last
put q packet = if length packet.packet_data == 0 then (q, packet.buffer ∷ []) else elim q [
  | [] ↦ (packet ∷ [], [])
  | p ∷ ps ↦
      if leb packet.packet_seq (last p ps).packet_seq
      then (p ∷ ps, packet.buffer ∷ [])
      else ((p ∷ ps) ++ (packet ∷ []), [])
]

unfoldable pub get_packet : Queue → ℕ → Option Packet
get_packet [] seq = none
get_packet (p ∷ ps) seq =
    let rest = get_packet ps seq in if p.packet_seq == seq then some p else rest

-- The first loop of `DeleteUntil` from index `i`: `foundIdx`, and `deletedBytes` after it.
unfoldable pub find_until : Queue → ℕ → ℕ → ℕ → Option ℕ × ℕ
find_until [] seq i deleted = (none, deleted)
find_until (p ∷ ps) seq i deleted =
    let rest = find_until ps seq (i + 1) ((deleted + length p.packet_data) % 2 ^ 32) in
    if p.packet_seq == seq
    then (some i, deleted)
    else if ltb seq p.packet_seq
    then (some i, deleted)
    else rest

-- What `DeleteUntil` does once its first loop has stopped: the queue left, the buffers cleared
-- and the bytes returned.
abbrev pub cut : Queue → Option ℕ × ℕ → Queue × Cleared × ℕ
cut q (none, deleted) = (q, [], deleted)
cut q (some i, deleted) = (drop i q, map (λ (p : Packet). p.buffer) (take i q), deleted)

unfoldable pub delete_until : Queue → ℕ → Queue × Cleared × ℕ
unfolding find_until
delete_until q seq = cut q (find_until q seq 0 0)

-- The loop of `Len`.
unfoldable pub total_len : Queue → ℕ → ℕ
total_len [] total = total
total_len (p ∷ ps) total = total_len ps ((total + length p.packet_data) % 2 ^ 32)

unfoldable pub queue_len : Queue → ℕ
unfolding total_len
queue_len q = total_len q 0

unfoldable pub clear : Queue → Queue × Cleared
clear q = ([], map (λ (p : Packet). p.buffer) q)

-- The search of `RangeFrom` gives the packets from its start on.
unfoldable pub range_start : Queue → ℕ → Option Queue
range_start [] seq = none
range_start (p ∷ ps) seq =
    let rest = range_start ps seq in
    if p.packet_seq == seq then some (p ∷ ps) else if ltb seq p.packet_seq then none else rest

abbrev pub next_seq : Queue → ℕ
next_seq [] = 0
next_seq (p ∷ ps) = p.packet_seq

-- The callback takes its own state along, and whether to go on.
module _ {S : Type 0} (fn : S → Packet → ℕ → Bool × S) where
  unfoldable pub visit : Queue → S → S
  visit [] s = s
  visit (p ∷ ps) s =
      let (more, s') = fn s p (next_seq ps) in let rest = visit ps s' in if more then rest else s'

  unfoldable pub range_from : Queue → ℕ → S → S
  unfolding visit range_start
  range_from q seq s = elim (range_start q seq) [ none ↦ s | some ps ↦ visit ps s ]
