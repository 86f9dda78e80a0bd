-- ===== src/Queue/Fifo/Ring.antt =====
-- The slots of a ring of `len` places, read from a cursor on: what the index arithmetic of
-- pkg/queue/fifo.go and of its copying loop amounts to.
use pig.Base.{
  ℕ, zero, suc, ◌+◌, ◌-◌, ◌%◌, ◌≤◌, ◌<◌, ◌≡◌, refl, ap, ap₂, ◌∙◌, ◌≢◌, List, [], ◌∷◌, ◌++◌, arith,
  length, get_or, set, length-set, get_or-set_self, get_or-set_ne, Bool-cases, inl, inr, ltb,
  le_of_ltb, lt_of_ltb,
}
use native.Mathlib.Nat.{mod-eq_of_lt, mod-eq-sub-mod}
use pig.Queue.Fifo.{copy_out}

pub mod_low : (a len : ℕ) → a < len → a % len ≡ a
mod_low a len h = mod-eq_of_lt h

pub mod_high : (a len : ℕ) → len ≤ a → a < len + len → a % len ≡ a - len
mod_high a len h h' =
    mod-eq-sub-mod {n = a} {m = len} h ∙ mod-eq_of_lt {n = a - len} {m = len} (omega arith)

-- Fewer than `len` steps do not lead back to a place.
step_away : (len h m : ℕ) → h < len → m < len → 0 < m → (h + m) % len ≢ h
step_away len h m a b c = elim (Bool-cases (ltb (h + m) len)) [
  | inl low ↦ omega (arith, mod_low (h + m) len (lt_of_ltb (h + m) len low))
  | inr high ↦
      let ge = le_of_ltb (h + m) len high in omega (arith, mod_high (h + m) len ge (omega arith))
]

-- Steps may be taken one at a time.
pub step_first :
    (len h m : ℕ) → h < len → suc m < len + 1 → ((h + 1) % len + m) % len ≡ (h + suc m) % len
step_first len h m a b = elim (Bool-cases (ltb (h + 1) len)) [
  | inl low ↦
      let e : (h + 1) % len ≡ h + 1 = mod_low (h + 1) len (lt_of_ltb (h + 1) len low) in
      rw e (ap (λ k. k % len) (omega arith))
  | inr high ↦
      let ge = le_of_ltb (h + 1) len high in
      let e : (h + 1) % len ≡ h + 1 - len = mod_high (h + 1) len ge (omega arith) in
      omega (
        arith,
        e,
        ap (λ k. (k + m) % len) e,
        mod_low (h + 1 - len + m) len (omega arith),
        mod_high (h + suc m) len (omega arith) (omega arith),
      )
]

module _ {A : Type 0} (d : A) (len : ℕ) where
  -- The `n` slots from `h` on.
  abbrev pub slots : List A → ℕ → ℕ → List A
  slots q h zero = []
  slots q h (suc n) = get_or q h d ∷ slots q ((h + 1) % len) n

  pub length-slots : (q : List A) (h n : ℕ) → length (slots q h n) ≡ n
  length-slots q h zero = refl
  length-slots q h (suc n) = ap suc (length-slots q ((h + 1) % len) n)

  -- A write `m` places on does not touch the slots before it.
  pub slots-set_after :
      (q : List A) (v : A) (n m h i : ℕ)
      → h < len
      → n ≤ m
      → m < len
      → i ≡ (h + m) % len
      → slots (set q i v) h n ≡ slots q h n
  slots-set_after q v zero m h i a b c e = refl
  slots-set_after q v (suc n) zero h i a b c e = absurd (omega arith)
  slots-set_after q v (suc n) (suc m) h i a b c e =
      ap₂ ◌∷◌
        (get_or-set_ne q i h v d (λ same. step_away len h (suc m) a c (omega arith) (omega arith)))
        (slots-set_after q v n m ((h + 1) % len) i (omega arith) (omega arith) (omega arith)
          (omega (arith, step_first len h m a (omega arith))))

  -- A write just past the slots adds one.
  pub slots-set_end :
      (q : List A) (v : A) (n h i : ℕ)
      → len ≤ length q
      → h < len
      → n < len
      → i ≡ (h + n) % len
      → slots (set q i v) h (suc n) ≡ slots q h n ++ (v ∷ [])
  slots-set_end q v zero h i l a b e =
      let same : i ≡ h = omega (arith, mod_low (h + 0) len (omega arith)) in
      rw same (ap (λ x. x ∷ []) (get_or-set_self q h v d (omega arith)))
  slots-set_end q v (suc n) h i l a b e =
      ap₂ ◌∷◌
        (get_or-set_ne q i h v d (λ same. step_away len h (suc n) a b (omega arith) (omega arith)))
        (slots-set_end q v n ((h + 1) % len) i l (omega arith) (omega arith)
          (omega (arith, step_first len h n a (omega arith))))

  -- A place is `len - 1` steps from the one after it.
  step_round : (h : ℕ) → h < len → h ≡ ((h + 1) % len + (len - 1)) % len
  step_round h a =
      let e : h + suc (len - 1) ≡ h + len = omega arith in
      omega (
        arith,
        step_first len h (len - 1) a (omega arith),
        ap (λ k. k % len) e,
        mod_high (h + len) len (omega arith) (omega arith),
      )

  -- The slots after the first are not touched when the first is cleared.
  pub slots-set_first :
      (q : List A) (v : A) (n h : ℕ)
      → h < len
      → n < len
      → slots (set q h v) ((h + 1) % len) n ≡ slots q ((h + 1) % len) n
  slots-set_first q v n h a b =
      slots-set_after q v n (len - 1) ((h + 1) % len) h (omega arith) (omega arith) (omega arith)
        (step_round h a)

  -- The copying loop returns the slots and stops at the cursor after them.
  pub copy_out_lem :
      (n h : ℕ) (q : List A)
      → h < len
      → n ≤ len
      → let (items, q', cursor) = copy_out d n len q h in
        (items ≡ slots q h n) × (length q' ≡ length q) × (cursor ≡ (h + n) % len)
  unfolding copy_out
  copy_out_lem zero h q a b = (refl, refl, omega (arith, mod_low (h + 0) len (omega arith)))
  copy_out_lem (suc n) h q a b =
      let ih = copy_out_lem n ((h + 1) % len) (set q h d) (omega arith) (omega arith) in
      (
        ap (◌∷◌ (get_or q h d)) (ih.0 ∙ slots-set_first q d n h a (omega arith)),
        ih.1 ∙ length-set q h d,
        ih.2 ∙ step_first len h n a (omega arith),
      )
