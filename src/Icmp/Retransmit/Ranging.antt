-- ===== src/Icmp/Retransmit/Ranging.antt =====
-- The calls that `RangeFrom` of pkg/transport/icmp/retransmit.go makes, one by one.
use mathlib.Core.List.{zip}
use pig.Base.{
  ℕ, ◌≡◌, refl, ap, ◌⊎◌, inl, inr, Bool, true, false, none, some, List, [], ◌∷◌, ◌++◌, map, drop,
  Bool-cases,
}
use pig.Icmp.Retransmit.{Packet, Queue, get_packet, range_from, visit}
use pig.Icmp.Retransmit.Sorted.{IsSorted, from}
use pig.Icmp.Retransmit.Laws.{range_start_lem, from-get_packet}

-- Each packet with the number that is announced as the next one's: that of the packet behind it, and 0 for the last.
abbrev pub announced : Queue → List (Packet × ℕ)
announced q = zip q (map (λ (p : Packet). p.packet_seq) (drop 1 q) ++ (0 ∷ []))

-- Calling back for each of the packets in turn, until one call returns false or all are done, takes the
-- callback's state from the first to the last.
pub data Calls {S : Type 0} (fn : S → Packet → ℕ → Bool × S)
    : List (Packet × ℕ) → S → S → Type 0 where
  done : {s : S} → Calls fn [] s s
  stopped :
      {p : Packet} {next : ℕ} {rest : List (Packet × ℕ)} {s s' : S}
      → fn s p next ≡ (false, s')
      → Calls fn ((p, next) ∷ rest) s s'
  called :
      {p : Packet} {next : ℕ} {rest : List (Packet × ℕ)} {s s' end : S}
      → fn s p next ≡ (true, s')
      → Calls fn rest s' end
      → Calls fn ((p, next) ∷ rest) s end

module _ {S : Type 0} (fn : S → Packet → ℕ → Bool × S) where
  visit-Calls : (q : Queue) (s : S) → Calls fn (announced q) s (visit fn q s)
  unfolding visit zip
  visit-Calls [] s = done
  visit-Calls (p ∷ []) s = elim (Bool-cases (fn s p 0).0) [
    | inl e ↦ rw e (called (ap (λ b. (b, (fn s p 0).1)) e) done)
    | inr e ↦ rw e (stopped (ap (λ b. (b, (fn s p 0).1)) e))
  ]
  visit-Calls (p ∷ (p' ∷ ps)) s = elim (Bool-cases (fn s p p'.packet_seq).0) [
    | inl e ↦ rw e (
        called (ap (λ b. (b, (fn s p p'.packet_seq).1)) e)
          (visit-Calls (p' ∷ ps) (fn s p p'.packet_seq).1))
    | inr e ↦ rw e (stopped (ap (λ b. (b, (fn s p p'.packet_seq).1)) e))
  ]

-- `RangeFrom` on a sorted queue, where no packet has the number, calls nothing. Where one has it, the packets from that one
-- on are called in order, each with the number of the packet behind it or 0, until a call returns false or
-- the queue ends; the callback's state goes from each call to the next.
pub range_from_lem :
    {S : Type 0} (fn : S → Packet → ℕ → Bool × S) (q : Queue) (seq : ℕ) (s : S)
    → IsSorted q
    → ((get_packet q seq ≡ none) × (range_from fn q seq s ≡ s))
      ⊎ ((p : Packet) × (ps : Queue) × (get_packet q seq ≡ some p)
          × (from seq q ≡ p ∷ ps)
          × Calls fn (announced (p ∷ ps)) s (range_from fn q seq s))
unfolding range_from
range_from_lem fn q seq s sorted = elim (from-get_packet q seq sorted) [
  | inl e ↦ inl (e, rw (range_from, range_start_lem q seq sorted, e) refl)
  | inr (p, ps, e, f) ↦
      inr (
        p,
        ps,
        e,
        f,
        rw (range_from, range_start_lem q seq sorted, e, f) (visit-Calls fn (p ∷ ps) s),
      )
]
