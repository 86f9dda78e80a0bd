-- ===== src/Icmp/Buffer/Laws.antt =====
-- `Write` and `Read` of pkg/transport/icmp/buffer.go on a valid buffer.
use pig.Base.{
  ℕ, ◌+◌, ◌-◌, ◌*◌, ◌%◌, ◌^◌, ◌≤◌, ◌<◌, ◌≡◌, ◌≢◌, refl, sym, ap, ap₂, ◌∙◌, ◌⊎◌, inl, inr, Bool,
  true, false, ◌||◌, List, [], ◌∷◌, ◌++◌, ◌==◌, ltb, leb, if◌then◌else◌, arith, length, take, drop,
  take_all, drop_all, take-length_append, drop-length_append, Bool-cases, le_of_leb, lt_of_leb,
  le_of_ltb, ==_of_ne, eq_of_==, ne_of_==, length-replicate,
}
use native.Mathlib.Nat.{mod-add-mod, mod-lt}
use pig.Queue.Fifo.Ring.{slots, length-slots}
use pig.Icmp.Buffer.{
  Buffer, new_buffer, calculate_used, copy_in, wrote, write_closed, write_waits, write_bytes, write,
  has_read, read_waits, read_bytes, read, read_woken,
}
use pig.Icmp.Buffer.Segments.{slots-append}
use pig.Icmp.Buffer.Refine.{IsValid, contents, calculate_used_lem, copy_out-slots, copy_in-slots}

length-contents : (b : Buffer) → length (contents b) ≡ b.write_pos - b.read_pos
unfolding contents
length-contents b = length-slots 0 b.size b.bytes (b.read_pos % b.size) (b.write_pos - b.read_pos)

new_buffer-IsValid : (n : ℕ) → IsValid (new_buffer n)
unfolding new_buffer
new_buffer-IsValid n =
    let size = if n == 0 then 64 * 1024 else n in
    record {
      storage = length-replicate size 0;
      room = ground arith;
      ordered = omega arith;
      bounded = omega arith;
      in_word = omega arith;
    }

-- A new buffer is valid, open and empty.
pub new_buffer_lem :
    (n : ℕ)
    → IsValid (new_buffer n) × (contents (new_buffer n) ≡ []) × ((new_buffer n).closed ≡ false)
unfolding new_buffer contents
new_buffer_lem n = (new_buffer-IsValid n, refl, refl)

write_bytes_lem :
    (b : Buffer) (xs : List ℕ)
    → IsValid b
    → b.write_pos - b.read_pos + length xs ≤ b.size
    → b.write_pos + length xs < 2 ^ 64
    → (b' : Buffer) × (write_bytes b xs ≡ wrote (length xs) b')
      × IsValid b'
      × (contents b' ≡ contents b ++ xs)
      × (b'.closed ≡ b.closed)
unfolding contents
write_bytes_lem b xs v l s =
    let used = b.write_pos - b.read_pos in
    let r = b.read_pos % b.size in
    let w = b.write_pos % b.size in
    let next : (b.write_pos + length xs) % 2 ^ 64 ≡ b.write_pos + length xs = omega arith in
    let place : w ≡ (r + used) % b.size =
      ap (λ j. j % b.size) (let e : b.write_pos ≡ b.read_pos + used = omega (arith, v.ordered) in e)
      ∙ sym (mod-add-mod b.read_pos b.size used) in
    let c =
      copy_in-slots b xs r used w v.storage (mod-lt b.read_pos v.room) (mod-lt b.write_pos v.room) l
        place in
    let after : b.write_pos + length xs - b.read_pos ≡ used + length xs =
      omega (arith, v.ordered) in
    (
      record b { bytes = copy_in b w xs; write_pos = b.write_pos + length xs },
      ap (λ k. wrote (length xs) (record b { bytes = copy_in b w xs; write_pos = k })) next,
      record {
        storage = c.1;
        room = v.room;
        ordered = omega (arith, v.ordered);
        bounded = omega (arith, after, l);
        in_word = s;
      },
      ap (slots 0 b.size (copy_in b w xs) r) after ∙ c.0,
      refl,
    )

write-fits :
    (b : Buffer) (x : ℕ) (xs : List ℕ)
    → IsValid b
    → b.closed ≡ false
    → b.write_pos - b.read_pos + length (x ∷ xs) ≤ b.size
    → write b (x ∷ xs) ≡ write_bytes b (x ∷ xs)
unfolding write
write-fits b x xs v o l =
    let u = calculate_used_lem b v in
    let guard : (leb b.size (calculate_used b) || ltb (b.size - calculate_used b) (length (x ∷ xs)))
        ≡ false =
      ground (arith, u, l) in
    let fit = take (b.size - calculate_used b) (x ∷ xs) in
    ap₂ (λ c g. if c then write_closed else if g then write_waits else write_bytes b fit) o guard
    ∙ ap (write_bytes b) (take_all (b.size - calculate_used b) (x ∷ xs) (omega (arith, u, l)))

write_full :
    (b : Buffer) (x : ℕ) (xs : List ℕ)
    → IsValid b
    → b.closed ≡ false
    → b.size < b.write_pos - b.read_pos + length (x ∷ xs)
    → write b (x ∷ xs) ≡ write_waits
unfolding write
write_full b x xs v o l =
    let u = calculate_used_lem b v in
    let guard : (leb b.size (calculate_used b) || ltb (b.size - calculate_used b) (length (x ∷ xs)))
        ≡ true =
      ground (arith, u, l) in
    rw (o, guard, write) refl

-- `Write` of some bytes to an open, valid buffer, until 2 ^ 64 bytes have gone through it: where they
-- fit, all of them are added to the contents, and the buffer stays valid; where they do not, it waits.
pub write_lem :
    (b : Buffer) (x : ℕ) (xs : List ℕ)
    → IsValid b
    → b.closed ≡ false
    → b.write_pos + length (x ∷ xs) < 2 ^ 64
    → ((length (contents b) + length (x ∷ xs) ≤ b.size)
        × ((b' : Buffer) × (write b (x ∷ xs) ≡ wrote (length (x ∷ xs)) b')
            × IsValid b'
            × (contents b' ≡ contents b ++ (x ∷ xs))
            × (b'.closed ≡ b.closed)))
      ⊎ ((b.size < length (contents b) + length (x ∷ xs)) × (write b (x ∷ xs) ≡ write_waits))
write_lem b x xs v o s =
    let new = x ∷ xs in
    let n = length-contents b in
    elim (Bool-cases (leb (b.write_pos - b.read_pos + length new) b.size)) [
      | inl t ↦
          let l = le_of_leb (b.write_pos - b.read_pos + length new) b.size t in
          let (b', e, ok, c, k) = write_bytes_lem b new v l s in
          inl (omega (arith, n, l), (b', write-fits b x xs v o l ∙ e, ok, c, k))
      | inr t ↦
          let l = lt_of_leb (b.write_pos - b.read_pos + length new) b.size t in
          inr (omega (arith, n, l), write_full b x xs v o l)
    ]

read_empty :
    (b : Buffer) (n : ℕ)
    → b.closed ≡ false
    → 0 < n
    → b.write_pos ≡ b.read_pos
    → read b n false ≡ read_waits
unfolding read
read_empty b n o h e =
    let some_room : (n == 0) ≡ false = ==_of_ne n 0 (λ z. absurd (omega arith)) in
    let empty : (b.write_pos == b.read_pos) ≡ true = ground arith in
    rw (some_room, o, empty, read) refl

abbrev at_most : ℕ → ℕ → ℕ
at_most n used = if ltb n used then n else used

read_some :
    (b : Buffer) (n : ℕ)
    → b.closed ≡ false
    → 0 < n
    → b.write_pos ≢ b.read_pos
    → read b n false ≡ read_bytes b (at_most n (calculate_used b))
unfolding read
read_some b n o h d =
    let some_room : (n == 0) ≡ false = ==_of_ne n 0 (λ z. absurd (omega arith)) in
    rw (some_room, o, ==_of_ne b.write_pos b.read_pos d, read) refl

-- A reader that is woken where there are bytes takes them as an earlier one does, late or not.
woken_some :
    (b : Buffer) (n : ℕ) (late : Bool)
    → b.closed ≡ false
    → b.write_pos ≢ b.read_pos
    → read_woken b n late ≡ read_bytes b (at_most n (calculate_used b))
unfolding read_woken
woken_some b n late o d = rw (o, ==_of_ne b.write_pos b.read_pos d, read_woken) refl

-- The first bytes of the contents and the others.
contents-split :
    (b : Buffer) (k : ℕ)
    → IsValid b
    → k ≤ b.write_pos - b.read_pos
    → (slots 0 b.size b.bytes (b.read_pos % b.size) k ≡ take k (contents b))
      × (slots 0 b.size b.bytes ((b.read_pos + k) % b.size) (b.write_pos - (b.read_pos + k))
          ≡ drop k (contents b))
unfolding contents
contents-split b k v l =
    let r = b.read_pos % b.size in
    let used = b.write_pos - b.read_pos in
    let first = slots 0 b.size b.bytes r k in
    let others = slots 0 b.size b.bytes ((r + k) % b.size) (used - k) in
    let n : length first ≡ k = length-slots 0 b.size b.bytes r k in
    let both : contents b ≡ first ++ others =
      ap (slots 0 b.size b.bytes r) (let e : used ≡ k + (used - k) = omega arith in e)
      ∙ slots-append b.size b.bytes k (used - k) r (mod-lt b.read_pos v.room) in
    (
      sym (take-length_append first others)
          ∙ ap (λ m. take m (first ++ others)) n
          ∙ ap (take k) (sym both),
      ap₂ (slots 0 b.size b.bytes) (sym (mod-add-mod b.read_pos b.size k))
            (let e : b.write_pos - (b.read_pos + k) ≡ used - k = omega arith in e)
          ∙ sym (drop-length_append first others)
          ∙ ap (λ m. drop m (first ++ others)) n
          ∙ ap (drop k) (sym both),
    )

read_bytes_lem :
    (b : Buffer) (k : ℕ)
    → IsValid b
    → k ≤ b.write_pos - b.read_pos
    → (b' : Buffer) × (read_bytes b k ≡ has_read (take k (contents b)) b')
      × IsValid b'
      × (contents b' ≡ drop k (contents b))
      × (b'.closed ≡ b.closed)
read_bytes_lem b k v l =
    let next : (b.read_pos + k) % 2 ^ 64 ≡ b.read_pos + k = omega (arith, v.in_word, v.ordered) in
    let split = contents-split b k v l in
    let out =
      copy_out-slots b (b.read_pos % b.size) k v.storage (mod-lt b.read_pos v.room)
        (omega (arith, v.bounded)) in
    (
      record b { read_pos = b.read_pos + k },
      ap₂ (λ x p. has_read x (record b { read_pos = p })) (out ∙ split.0) next,
      record {
        storage = v.storage;
        room = v.room;
        ordered = omega (arith, v.ordered);
        bounded = omega (arith, v.bounded);
        in_word = v.in_word;
      },
      unfold contents in split.1,
      refl,
    )

-- Room for more than there is reads it all.
take-at_most : (n : ℕ) (xs : List ℕ) → take (at_most n (length xs)) xs ≡ take n xs
take-at_most n xs = elim (Bool-cases (ltb n (length xs))) [
  | inl t ↦ rw t refl
  | inr t ↦
      rw t (take_all (length xs) xs (omega arith) ∙ sym (take_all n xs (le_of_ltb n (length xs) t)))
]

drop-at_most : (n : ℕ) (xs : List ℕ) → drop (at_most n (length xs)) xs ≡ drop n xs
drop-at_most n xs = elim (Bool-cases (ltb n (length xs))) [
  | inl t ↦ rw t refl
  | inr t ↦
      rw t (drop_all (length xs) xs (omega arith) ∙ sym (drop_all n xs (le_of_ltb n (length xs) t)))
]

-- `Read` into room for some bytes, from an open, valid buffer before its deadline: it returns the oldest
-- bytes, as many as there is room for, and takes them from the contents; it waits on an empty buffer. A
-- `Read` that has waited does the same where it is woken with bytes there, also after its deadline.
pub read_lem :
    (b : Buffer) (n : ℕ)
    → IsValid b
    → b.closed ≡ false
    → 0 < n
    → ((contents b ≢ [])
        × ((b' : Buffer) × (read b n false ≡ has_read (take n (contents b)) b')
            × IsValid b'
            × (contents b' ≡ drop n (contents b))
            × (b'.closed ≡ b.closed)
            × ((late : Bool) → read_woken b n late ≡ read b n false)))
      ⊎ ((contents b ≡ []) × (read b n false ≡ read_waits))
read_lem b n v o h =
    let c = length-contents b in
    let u = calculate_used_lem b v ∙ sym c in
    let k = at_most n (calculate_used b) in
    elim (Bool-cases (b.write_pos == b.read_pos)) [
      | inl t ↦
          let e = eq_of_== b.write_pos b.read_pos t in
          inr (empty_of_length (contents b) (omega (arith, c, e)), read_empty b n o h e)
      | inr t ↦
          let d = ne_of_== b.write_pos b.read_pos t in
          let (b', e, ok, rest, q) =
            read_bytes_lem b k v (ground (arith, calculate_used_lem b v)) in
          inl (
            λ none_left. d (omega (arith, ap length none_left, c, v.ordered)),
            (
              b',
              read_some b n o h d
                  ∙ e
                  ∙ ap (λ x. has_read x b')
                      (ap (λ m. take (at_most n m) (contents b)) u ∙ take-at_most n (contents b)),
              ok,
              rest ∙ ap (λ m. drop (at_most n m) (contents b)) u ∙ drop-at_most n (contents b),
              q,
              λ late. woken_some b n late o d ∙ sym (read_some b n o h d),
            ),
          )
    ]
  where
    empty_of_length : (xs : List ℕ) → length xs ≡ 0 → xs ≡ []
    empty_of_length [] e = refl
    empty_of_length (x ∷ xs) e = absurd (omega arith)
