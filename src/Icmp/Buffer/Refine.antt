-- ===== src/Icmp/Buffer/Refine.antt =====
-- The circular buffer of pkg/transport/icmp/buffer.go against a bounded queue of bytes, oldest first, until
-- 2 ^ 64 bytes have gone through it.
use pig.Base.{
  ℕ, ◌+◌, ◌-◌, ◌%◌, ◌^◌, ◌≤◌, ◌<◌, ◌≡◌, sym, ap, ap₂, ◌∙◌, inl, inr, List, ◌++◌, leb, arith, length,
  take, drop, take_all, length-take, length-drop, take-append-drop, append_assoc, Bool-cases,
  le_of_leb, lt_of_leb,
}
use native.Mathlib.Nat.{mod-add-mod}
use pig.Queue.Fifo.Ring.{slots, mod_high}
use pig.Icmp.Buffer.{Buffer, calculate_used, put, copy_in, copy_out}
use pig.Icmp.Buffer.Segments.{take-drop-slots, slots-append, slots-put}

pub record IsValid (b : Buffer) : Type 0 where
  pub storage : length b.bytes ≡ b.size
  pub room : 0 < b.size
  pub ordered : b.read_pos ≤ b.write_pos
  pub bounded : b.write_pos - b.read_pos ≤ b.size
  pub in_word : b.write_pos < 2 ^ 64

-- What the buffer holds, oldest first.
unfoldable pub contents : Buffer → List ℕ
contents b = slots 0 b.size b.bytes (b.read_pos % b.size) (b.write_pos - b.read_pos)

pub calculate_used_lem : (b : Buffer) → IsValid b → calculate_used b ≡ b.write_pos - b.read_pos
unfolding calculate_used
calculate_used_lem b v = ground (arith, v.ordered, v.bounded)

size_round : (n : ℕ) → 0 < n → n % n ≡ 0
size_round n h = mod_high n n (omega arith) (omega arith) ∙ omega arith

-- The slots from an index to the end, and then from the start.
pub copy_out-slots :
    (b : Buffer) (r k : ℕ)
    → length b.bytes ≡ b.size
    → r < b.size
    → k ≤ b.size
    → copy_out b r k ≡ slots 0 b.size b.bytes r k
copy_out-slots b r k e h l = elim (Bool-cases (leb k (b.size - r))) [
  | inl t ↦
      let m = le_of_leb k (b.size - r) t in
      rw t (take-drop-slots b.size k r b.bytes e (omega arith))
  | inr t ↦
      let m = lt_of_leb k (b.size - r) t in
      let rem = b.size - r in
      let first : drop r b.bytes ≡ slots 0 b.size b.bytes r rem =
        sym (take_all rem (drop r b.bytes) (omega (arith, length-drop r b.bytes, e)))
        ∙ take-drop-slots b.size rem r b.bytes e (omega arith) in
      let second : take (k - rem) b.bytes ≡ slots 0 b.size b.bytes 0 (k - rem) =
        take-drop-slots b.size (k - rem) 0 b.bytes e (omega arith) in
      let start : (r + rem) % b.size ≡ 0 =
        ap (λ j. j % b.size) (omega arith) ∙ size_round b.size (omega arith) in
      let sum : rem + (k - rem) ≡ k = omega arith in
      rw t (
        ap₂ (λ x y. x ++ y) first
          (second ∙ ap (λ j. slots 0 b.size b.bytes j (k - rem)) (sym start))
        ∙ sym (slots-append b.size b.bytes rem (k - rem) r h)
        ∙ ap (slots 0 b.size b.bytes r) sum)
]

-- A copy past the slots adds its bytes, also where it passes the end.
pub copy_in-slots :
    (b : Buffer) (xs : List ℕ) (r n w : ℕ)
    → length b.bytes ≡ b.size
    → r < b.size
    → w < b.size
    → n + length xs ≤ b.size
    → w ≡ (r + n) % b.size
    → (slots 0 b.size (copy_in b w xs) r (n + length xs) ≡ slots 0 b.size b.bytes r n ++ xs)
      × (length (copy_in b w xs) ≡ b.size)
copy_in-slots b xs r n w e h hw l m = elim (Bool-cases (leb (length xs) (b.size - w))) [
  | inl t ↦
      let f = le_of_leb (length xs) (b.size - w) t in
      rw t (slots-put b.size b.bytes xs n r w e h l (omega arith) m)
  | inr t ↦
      let f = lt_of_leb (length xs) (b.size - w) t in
      let rem = b.size - w in
      let n1 : length (take rem xs) ≡ rem = omega (arith, length-take rem xs, f) in
      let n2 : length (drop rem xs) ≡ length xs - rem = length-drop rem xs in
      let p1 = slots-put b.size b.bytes (take rem xs) n r w e h (omega arith) (omega arith) m in
      let q1 = put b.bytes w (take rem xs) in
      let wrap : 0 ≡ (r + (n + rem)) % b.size =
        sym (size_round b.size (omega arith))
        ∙ ap (λ j. j % b.size) (let s : b.size ≡ w + rem = omega arith in s)
        ∙ ap (λ j. (j + rem) % b.size) m
        ∙ mod-add-mod (r + n) b.size rem
        ∙ ap (λ j. j % b.size) (omega arith) in
      let p2 =
        slots-put b.size q1 (drop rem xs) (n + rem) r 0 p1.1 h (omega arith) (omega arith) wrap in
      let total : n + length xs ≡ n + rem + length (drop rem xs) = omega arith in
      let before : slots 0 b.size q1 r (n + rem) ≡ slots 0 b.size b.bytes r n ++ take rem xs =
        ap (λ j. slots 0 b.size q1 r (n + j)) (sym n1) ∙ p1.0 in
      rw t (
        (
          ap (slots 0 b.size (put q1 0 (drop rem xs)) r) total
              ∙ p2.0
              ∙ ap (λ x. x ++ drop rem xs) before
              ∙ append_assoc (slots 0 b.size b.bytes r n) (take rem xs) (drop rem xs)
              ∙ ap (λ x. slots 0 b.size b.bytes r n ++ x) (take-append-drop rem xs),
          p2.1,
        ))
]
