-- ===== src/Icmp/Retransmit/Sorted.antt =====
-- The sorted queue of pkg/transport/icmp/retransmit.go, and where `DeleteUntil` cuts it.
use pig.Base.{
  ℕ, zero, suc, ◌+◌, ◌%◌, ◌^◌, ◌≤◌, ◌<◌, ◌≡◌, refl, ap, ap₂, subst, sym, ◌∙◌, ◌≢◌, ◌⊎◌, inl, inr,
  Option, none, some, [], ◌∷◌, map, ltb, if◌then◌else◌, length, drop, take, arith, Bool-cases,
  ltb_of_le, lt_of_ltb, le_of_ltb,
}
use pig.Icmp.Retransmit.{Packet, Queue, Cleared, find_until, delete_until, total_len, cut}

-- Every packet of the queue comes after `seq`.
pub data After (seq : ℕ) : Queue → Type 0 where
  after_nil : After seq []
  after_cons : {p : Packet} {ps : Queue} → seq < p.packet_seq → After seq ps → After seq (p ∷ ps)

-- Sequence numbers increase along the queue.
pub data IsSorted : Queue → Type 0 where
  sorted_nil : IsSorted []
  sorted_cons : {p : Packet} {ps : Queue} → After p.packet_seq ps → IsSorted ps → IsSorted (p ∷ ps)

pub After-trans : {a b : ℕ} {q : Queue} → a < b → After b q → After a q
After-trans h after_nil = after_nil
After-trans h (after_cons k r) = after_cons (omega arith) (After-trans h r)

-- The packets before `seq`, and the others, each in the order of the queue.
unfoldable pub before : ℕ → Queue → Queue
before seq [] = []
before seq (p ∷ ps) = let rest = before seq ps in if ltb p.packet_seq seq then p ∷ rest else rest

unfoldable pub from : ℕ → Queue → Queue
from seq [] = []
from seq (p ∷ ps) = let rest = from seq ps in if ltb p.packet_seq seq then rest else p ∷ rest

pub from_After :
    (seq a : ℕ) (q : Queue) → seq ≤ a → After a q → (from seq q ≡ q) × (before seq q ≡ [])
unfolding from before
from_After seq a [] h after_nil = (refl, refl)
from_After seq a (p ∷ ps) h (after_cons k r) =
    let (e, e') = from_After seq a ps h r in
    rw (ltb_of_le p.packet_seq seq (omega arith)) (ap (◌∷◌ p) e, e')

pub stops_here :
    (p : Packet) (ps : Queue) (seq i deleted : ℕ)
    → seq ≤ p.packet_seq
    → find_until (p ∷ ps) seq i deleted ≡ (some i, deleted)
unfolding find_until
stops_here p ps seq i deleted h = ground arith

pub goes_on :
    (p : Packet) (ps : Queue) (seq i deleted : ℕ)
    → p.packet_seq < seq
    → find_until (p ∷ ps) seq i deleted
      ≡ find_until ps seq (i + 1) ((deleted + length p.packet_data) % 2 ^ 32)
unfolding find_until
goes_on p ps seq i deleted h = ground arith

pub cons_ne_nil : (p : Packet) (ps : Queue) → (p ∷ ps) ≢ []
cons_ne_nil p ps e = let l : suc (length ps) ≡ 0 = ap length e in absurd (omega arith)

-- Where the loop of `DeleteUntil` stops.
abbrev pub Stops : Queue → Queue → Queue → Option ℕ × ℕ → ℕ → ℕ → Type 0
Stops q old new out i deleted =
    ((out ≡ (none, total_len q deleted)) × (old ≡ q) × (new ≡ []))
    ⊎ ((out ≡ (some (i + length old), total_len old deleted))
        × (take (length old) q ≡ old)
        × (drop (length old) q ≡ new)
        × (new ≢ []))

pub find_until_lem :
    (q : Queue) (seq i deleted : ℕ)
    → IsSorted q
    → Stops q (before seq q) (from seq q) (find_until q seq i deleted) i deleted
unfolding find_until before from total_len
find_until_lem [] seq i deleted sorted_nil = inl (refl, refl, refl)
find_until_lem (p ∷ ps) seq i deleted (sorted_cons a s) = elim (Bool-cases (ltb p.packet_seq seq)) [
  | inr e ↦
      let h = le_of_ltb p.packet_seq seq e in
      let (same, none_before) = from_After seq p.packet_seq ps h a in
      let z : i + 0 ≡ i = omega arith in
      rw (e, same, none_before, stops_here p ps seq i deleted h, z)
        (inr (refl, refl, refl, λ c. cons_ne_nil p ps c))
  | inl e ↦
      let h = lt_of_ltb p.packet_seq seq e in
      rw (e, goes_on p ps seq i deleted h)
        (elim (find_until_lem ps seq (i + 1) ((deleted + length p.packet_data) % 2 ^ 32) s) [
          | inl (x, y, z) ↦ inl (x, ap (◌∷◌ p) y, z)
          | inr (x, y, z, w) ↦
              let n : i + 1 + length (before seq ps) ≡ i + suc (length (before seq ps)) =
                omega arith in
              inr (
                x
                    ∙ ap
                        (λ k. (
                          some k,
                          total_len (before seq ps) ((deleted + length p.packet_data) % 2 ^ 32),
                        ))
                        n,
                ap (◌∷◌ p) y,
                z,
                w,
              )
        ])
]

abbrev pub buffers : Queue → Cleared
buffers = map (λ (p : Packet). p.buffer)

After-drop : {a : ℕ} (n : ℕ) {q : Queue} → After a q → After a (drop n q)
After-drop zero r = r
After-drop (suc n) after_nil = after_nil
After-drop (suc n) (after_cons k r) = After-drop n r

IsSorted-drop : (n : ℕ) {q : Queue} → IsSorted q → IsSorted (drop n q)
IsSorted-drop zero s = s
IsSorted-drop (suc n) sorted_nil = sorted_nil
IsSorted-drop (suc n) (sorted_cons a s) = IsSorted-drop n s

-- `DeleteUntil` on a sorted queue keeps it sorted and splits it at `seq`: where a packet from `seq`
-- on is queued, it keeps the packets from `seq` on, clears the buffers of the ones before, oldest
-- first, and returns their bytes modulo 2 ^ 32; otherwise it keeps and clears nothing, and returns
-- the bytes of them all.
pub delete_until_lem :
    (q : Queue) (seq : ℕ)
    → IsSorted q
    → IsSorted (delete_until q seq).0
      × (((from seq q ≡ []) × (delete_until q seq ≡ (q, [], total_len q 0)))
          ⊎ ((from seq q ≢ [])
              × (delete_until q seq
                  ≡ (from seq q, buffers (before seq q), total_len (before seq q) 0))))
unfolding delete_until
delete_until_lem q seq s = elim (find_until_lem q seq 0 0 s) [
  | inl (x, y, z) ↦
      let out : delete_until q seq ≡ (q, [], total_len q 0) = ap (cut q) x in
      (subst (λ r. IsSorted r.0) (sym out) s, inl (z, out))
  | inr (x, y, z, w) ↦
      let e : 0 + length (before seq q) ≡ length (before seq q) = omega arith in
      let out : delete_until q seq
          ≡ (from seq q, buffers (before seq q), total_len (before seq q) 0) =
        ap (cut q) (x ∙ ap (λ k. (some k, total_len (before seq q) 0)) e)
        ∙ ap₂ (λ kept gone. (kept, buffers gone, total_len (before seq q) 0)) z y in
      (
        subst (λ r. IsSorted r.0) (sym out)
            (subst IsSorted z (IsSorted-drop (length (before seq q)) s)),
        inr (w, out),
      )
]
