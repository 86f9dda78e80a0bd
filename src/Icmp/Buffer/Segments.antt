-- ===== src/Icmp/Buffer/Segments.antt =====
-- Copies to and from the circular buffer of pkg/transport/icmp/buffer.go, slot by slot.
use pig.Base.{
  ℕ, zero, suc, ◌+◌, ◌%◌, ◌≤◌, ◌<◌, ◌≡◌, refl, sym, ap, ap₂, ◌∙◌, List, [], ◌∷◌, ◌++◌, arith,
  length, get_or, set, take, drop, length-set, append-nil, append_assoc, take-append-drop,
}
use native.Mathlib.Nat.{mod-add-mod}
use pig.Queue.Fifo.Ring.{slots, slots-set_end, mod_low}
use pig.Icmp.Buffer.{put}

drop-get_or : (i : ℕ) (q : List ℕ) → i < length q → drop i q ≡ get_or q i 0 ∷ drop (suc i) q
drop-get_or i [] h = absurd (omega arith)
drop-get_or zero (x ∷ q) h = refl
drop-get_or (suc i) (x ∷ q) h = drop-get_or i q (omega arith)

-- Bytes that do not pass the end are slots.
pub take-drop-slots :
    (len k i : ℕ) (q : List ℕ)
    → length q ≡ len
    → i + k ≤ len
    → take k (drop i q) ≡ slots 0 len q i k
take-drop-slots len zero i q e h = refl
take-drop-slots len (suc zero) i q e h = ap (take 1) (drop-get_or i q (omega arith))
take-drop-slots len (suc (suc k)) i q e h =
    let m : (i + 1) % len ≡ suc i = mod_low (i + 1) len (omega arith) ∙ omega arith in
    ap (take (suc (suc k))) (drop-get_or i q (omega arith))
    ∙ ap (λ x. get_or q i 0 ∷ x)
        (take-drop-slots len (suc k) (suc i) q e (omega arith)
          ∙ ap (λ j. slots 0 len q j (suc k)) (sym m))

-- The slots in two runs.
pub slots-append :
    (len : ℕ) (q : List ℕ) (n m h : ℕ)
    → h < len
    → slots 0 len q h (n + m) ≡ slots 0 len q h n ++ slots 0 len q ((h + n) % len) m
slots-append len q zero m h l =
    let e : (h + 0) % len ≡ h = mod_low (h + 0) len (omega arith) ∙ omega arith in
    let z : 0 + m ≡ m = omega arith in ap (slots 0 len q h) z ∙ ap (λ j. slots 0 len q j m) (sym e)
slots-append len q (suc n) m h l =
    let next : (h + 1) % len < len = omega arith in
    let e : ((h + 1) % len + n) % len ≡ (h + suc n) % len =
      mod-add-mod (h + 1) len n ∙ ap (λ k. k % len) (omega arith) in
    let z : suc n + m ≡ suc (n + m) = omega arith in
    ap (slots 0 len q h) z
    ∙ ap (λ x. get_or q h 0 ∷ x)
        (slots-append len q n m ((h + 1) % len) next
          ∙ ap (λ j. slots 0 len q ((h + 1) % len) n ++ slots 0 len q j m) e)

put-nil : (q : List ℕ) (i : ℕ) → put q i [] ≡ q
put-nil q i = ap (λ k. take i q ++ drop k q) (omega arith) ∙ take-append-drop i q

take-set :
    (q : List ℕ) (i x : ℕ) (zs : List ℕ)
    → i < length q
    → take i q ++ (x ∷ zs) ≡ take (suc i) (set q i x) ++ zs
take-set [] i x zs h = absurd (omega arith)
take-set (y ∷ q) zero x zs h = refl
take-set (y ∷ q) (suc i) x zs h = ap (λ z. y ∷ z) (take-set q i x zs (omega arith))

drop-set : (q : List ℕ) (i k x : ℕ) → i < k → drop k (set q i x) ≡ drop k q
drop-set [] i k x h = refl
drop-set (y ∷ q) i zero x h = absurd (omega arith)
drop-set (y ∷ q) zero (suc k) x h = refl
drop-set (y ∷ q) (suc i) (suc k) x h = drop-set q i k x (omega arith)

-- A copy writes its first byte and then the others.
put-cons :
    (q : List ℕ) (i x : ℕ) (xs : List ℕ)
    → i < length q
    → put q i (x ∷ xs) ≡ put (set q i x) (suc i) xs
put-cons q i x xs h =
    let e : i + suc (length xs) ≡ suc i + length xs = omega arith in
    take-set q i x (xs ++ drop (i + suc (length xs)) q) h
    ∙ ap (λ y. take (suc i) (set q i x) ++ (xs ++ y))
        (ap (λ k. drop k q) e ∙ sym (drop-set q i (suc i + length xs) x (omega arith)))

-- A copy just past the slots, that does not pass the end, adds its bytes.
pub slots-put :
    (len : ℕ) (q : List ℕ) (xs : List ℕ) (n h i : ℕ)
    → length q ≡ len
    → h < len
    → n + length xs ≤ len
    → i + length xs ≤ len
    → i ≡ (h + n) % len
    → (slots 0 len (put q i xs) h (n + length xs) ≡ slots 0 len q h n ++ xs)
      × (length (put q i xs) ≡ len)
slots-put len q [] n h i e l a b m =
    let p = put-nil q i in
    let z : n + 0 ≡ n = omega arith in
    (ap₂ (λ y k. slots 0 len y h k) p z ∙ sym (append-nil (slots 0 len q h n)), ap length p ∙ e)
slots-put len q (x ∷ []) n h i e l a b m =
    let p = put-cons q i x [] (omega arith) ∙ put-nil (set q i x) (suc i) in
    let z : n + 1 ≡ suc n = omega arith in
    (
      ap₂ (λ y k. slots 0 len y h k) p z
          ∙ slots-set_end 0 len q x n h i (omega arith) l (omega arith) m,
      ap length p ∙ length-set q i x ∙ e,
    )
slots-put len q (x ∷ (y ∷ xs)) n h i e l a b m =
    let q' = set q i x in
    let p = put-cons q i x (y ∷ xs) (omega arith) in
    let next : suc i ≡ (h + suc n) % len =
      sym (mod_low (suc i) len (omega arith))
      ∙ ap (λ k. k % len) (omega (arith, m))
      ∙ mod-add-mod (h + n) len 1
      ∙ ap (λ k. k % len) (omega arith) in
    let ih =
      slots-put len q' (y ∷ xs) (suc n) h (suc i) (length-set q i x ∙ e) l (omega arith)
        (omega arith) next in
    let z : n + length (x ∷ (y ∷ xs)) ≡ suc n + length (y ∷ xs) = omega arith in
    (
      ap₂ (λ y k. slots 0 len y h k) p z
          ∙ ih.0
          ∙ ap (λ s. s ++ (y ∷ xs)) (slots-set_end 0 len q x n h i (omega arith) l (omega arith) m)
          ∙ append_assoc (slots 0 len q h n) (x ∷ []) (y ∷ xs),
      ap length p ∙ ih.1,
    )
