-- ===== src/Icmp/Retransmit/Laws.antt =====
-- What the retransmit queue of pkg/transport/icmp/retransmit.go keeps and what it drops.
use pig.Base.{
  ℕ, ◌≤◌, ◌<◌, ◌≡◌, refl, ◌∙◌, ◌≢◌, ◌⊎◌, inl, inr, false, Option, none, some, [], ◌∷◌, ◌++◌, ◌==◌,
  ltb, leb, length, arith, Bool-cases, lt_of_leb, le_of_leb, ltb_of_lt, ltb_of_le, eq_of_==,
  ne_of_==, ==_of_ne, lt_of_ltb, le_of_ltb,
}
use pig.Icmp.Retransmit.{Packet, Queue, last, put, get_packet, range_start}
use pig.Icmp.Retransmit.Sorted.{
  sorted_nil, sorted_cons, after_nil, after_cons, After, IsSorted, from, from_After, cons_ne_nil,
}

After-last : (a : ℕ) (p : Packet) (ps : Queue) → After a (p ∷ ps) → a < (last p ps).packet_seq
unfolding last
After-last a p [] (after_cons k r) = k
After-last a p (p' ∷ ps) (after_cons k r) = After-last a p' ps r

After-append :
    {a : ℕ} {q : Queue} (p : Packet) → After a q → a < p.packet_seq → After a (q ++ (p ∷ []))
After-append p after_nil h = after_cons h after_nil
After-append p (after_cons k r) h = after_cons k (After-append p r h)

last-le : (p : Packet) (ps : Queue) → IsSorted (p ∷ ps) → p.packet_seq ≤ (last p ps).packet_seq
unfolding last
last-le p [] s = omega arith
last-le p (p' ∷ ps) (sorted_cons (after_cons k r) s) = omega (arith, last-le p' ps s)

IsSorted-append :
    (p : Packet) (ps : Queue) (new : Packet)
    → IsSorted (p ∷ ps)
    → (last p ps).packet_seq < new.packet_seq
    → IsSorted ((p ∷ ps) ++ (new ∷ []))
unfolding last
IsSorted-append p [] new s h =
    sorted_cons (after_cons h after_nil) (sorted_cons after_nil sorted_nil)
IsSorted-append p (p' ∷ ps) new (sorted_cons a s) h =
    sorted_cons (After-append new a (omega (arith, After-last p.packet_seq p' ps a)))
      (IsSorted-append p' ps new s h)

-- The last packet of a sorted queue is its highest.
from_above_last :
    (seq : ℕ) (p : Packet) (ps : Queue)
    → IsSorted (p ∷ ps)
    → (last p ps).packet_seq < seq
    → from seq (p ∷ ps) ≡ []
unfolding last from
from_above_last seq p [] s h = rw (ltb_of_lt p.packet_seq seq h) refl
from_above_last seq p (p' ∷ ps) (sorted_cons a s) h =
    let k = After-last p.packet_seq p' ps a in
    rw (ltb_of_lt p.packet_seq seq (omega arith)) (from_above_last seq p' ps s h)

from_up_to_last :
    (seq : ℕ) (p : Packet) (ps : Queue) → seq ≤ (last p ps).packet_seq → from seq (p ∷ ps) ≢ []
unfolding last from
from_up_to_last seq p [] h = rw (ltb_of_le p.packet_seq seq h) (λ c. cons_ne_nil p [] c)
from_up_to_last seq p (p' ∷ ps) h = elim (Bool-cases (ltb p.packet_seq seq)) [
  | inl e ↦ rw e (from_up_to_last seq p' ps h)
  | inr e ↦ rw e (λ c. cons_ne_nil p _ c)
]

-- `Put` on a sorted queue keeps it sorted. It appends a packet with data that no queued packet equals
-- or follows, and clears nothing; any other packet it leaves out, and clears that packet's buffer.
pub put_lem :
    (q : Queue) (packet : Packet)
    → IsSorted q
    → IsSorted (put q packet).0
      × (((length packet.packet_data ≢ 0)
            × (from packet.packet_seq q ≡ [])
            × (put q packet ≡ (q ++ (packet ∷ []), [])))
          ⊎ (((length packet.packet_data ≡ 0) ⊎ (from packet.packet_seq q ≢ []))
              × (put q packet ≡ (q, packet.buffer ∷ []))))
unfolding put from
put_lem q packet s = elim (Bool-cases (length packet.packet_data == 0)) [
  | inl e ↦ rw (e, put) (s, inr (inl (eq_of_== (length packet.packet_data) 0 e), refl))
  | inr e ↦ put_with_data q packet s (ne_of_== (length packet.packet_data) 0 e) e
]
  where
    put_with_data :
        (q : Queue) (packet : Packet)
        → IsSorted q
        → length packet.packet_data ≢ 0
        → (length packet.packet_data == 0) ≡ false
        → IsSorted (put q packet).0
          × (((length packet.packet_data ≢ 0)
                × (from packet.packet_seq q ≡ [])
                × (put q packet ≡ (q ++ (packet ∷ []), [])))
              ⊎ (((length packet.packet_data ≡ 0) ⊎ (from packet.packet_seq q ≢ []))
                  × (put q packet ≡ (q, packet.buffer ∷ []))))
    put_with_data [] packet s n e =
        rw (e, put) (sorted_cons after_nil sorted_nil, inl (n, refl, refl))
    put_with_data (p ∷ ps) packet s n e =
        elim (Bool-cases (leb packet.packet_seq (last p ps).packet_seq)) [
          | inl l ↦
              rw (e, put, l)
                (s, inr (inr (from_up_to_last packet.packet_seq p ps (le_of_leb _ _ l)), refl))
          | inr l ↦
              let h = lt_of_leb packet.packet_seq (last p ps).packet_seq l in
              rw (e, put, l)
                (
                  IsSorted-append p ps packet s h,
                  inl (n, from_above_last packet.packet_seq p ps s h, refl),
                )
        ]

get_After : (seq a : ℕ) (q : Queue) → seq ≤ a → After a q → get_packet q seq ≡ none
unfolding get_packet
get_After seq a [] h after_nil = refl
get_After seq a (p ∷ ps) h (after_cons k r) =
    rw (==_of_ne p.packet_seq seq (omega arith)) (get_After seq a ps h r)

abbrev pub starts : Option Packet → Queue → Option Queue
starts none q = none
starts (some p) q = some q

pub range_start_lem :
    (q : Queue) (seq : ℕ) → IsSorted q → range_start q seq ≡ starts (get_packet q seq) (from seq q)
unfolding range_start get_packet from
range_start_lem [] seq sorted_nil = refl
range_start_lem (p ∷ ps) seq (sorted_cons a s) = elim (Bool-cases (p.packet_seq == seq)) [
  | inl e ↦
      let h = eq_of_== p.packet_seq seq e in
      rw
        (
          e,
          ltb_of_le p.packet_seq seq (omega arith),
          (from_After seq p.packet_seq ps (omega arith) a).0,
        )
        refl
  | inr e ↦ elim (Bool-cases (ltb seq p.packet_seq)) [
    | inl l ↦
        let h = lt_of_ltb seq p.packet_seq l in
        rw (e, l, get_After seq p.packet_seq ps (omega arith) a) refl
    | inr l ↦
        let h = le_of_ltb seq p.packet_seq l in
        let n = ne_of_== p.packet_seq seq e in
        rw (e, l, ltb_of_lt p.packet_seq seq (omega arith)) (range_start_lem ps seq s)
  ]
]

-- A packet that some later one has the number of is not from that number on.
from-skip :
    (p : Packet) (ps : Queue) (seq : ℕ) {p' : Packet}
    → After p.packet_seq ps
    → get_packet ps seq ≡ some p'
    → from seq (p ∷ ps) ≡ from seq ps
unfolding from
from-skip p ps seq a g = elim (Bool-cases (ltb p.packet_seq seq)) [
  | inl l ↦ rw l refl
  | inr l ↦
      let h = le_of_ltb p.packet_seq seq l in
      absurd (ground (arith, g, get_After seq p.packet_seq ps h a))
]

-- The packet that `GetPacket` finds is the first from its number on.
pub from-get_packet :
    (q : Queue) (seq : ℕ)
    → IsSorted q
    → (get_packet q seq ≡ none)
      ⊎ ((p : Packet) × (ps : Queue) × (get_packet q seq ≡ some p) × (from seq q ≡ p ∷ ps))
unfolding get_packet from
from-get_packet [] seq sorted_nil = inl refl
from-get_packet (p ∷ ps) seq (sorted_cons a s) = elim (Bool-cases (p.packet_seq == seq)) [
  | inl e ↦
      let h = eq_of_== p.packet_seq seq e in
      inr (
        p,
        ps,
        rw e refl,
        rw
            (
              ltb_of_le p.packet_seq seq (omega arith),
              (from_After seq p.packet_seq ps (omega arith) a).0,
            )
            refl,
      )
  | inr e ↦ elim (from-get_packet ps seq s) [
    | inl n ↦ inl (rw e n)
    | inr (p', ps', g, f) ↦ inr (p', ps', rw e g, (from-skip p ps seq a g) ∙ f)
  ]
]
