-- ===== src/Queue/Fifo/Refine.antt =====
-- The FIFO of pkg/queue/fifo.go against a bounded queue: a list, oldest first.
use pig.Base.{
  ℕ, suc, ◌+◌, ◌%◌, ◌≤◌, ◌<◌, ◌≡◌, refl, ap, ◌∙◌, ◌≢◌, Bool, true, false, Option, List, [], ◌∷◌,
  ◌++◌, arith, length, set, length-set, length-replicate, ◌==◌, ne_of_==,
}
use native.Mathlib.Nat.{mod-add-mod, add_assoc}
use pig.Queue.Wred.{Floats, Wred}
use pig.Queue.Fifo.{
  Status, ok, dropped, wred_dropped, closed_err, Fifo, new_fifo, early_drop, push_guarded, push,
}
use pig.Queue.Fifo.Ring.{slots, length-slots, slots-set_end, mod_low}

module _ (fs : Floats) {A : Type 0} (d : A) where
  open fs use {Float}

  pub record IsValid (f : Fifo fs d) : Type 0 where
    pub storage : length f.queue ≡ f.length
    pub room : 0 < f.length
    pub bounded : f.elems ≤ f.length
    pub r_in : f.r_cursor < f.length
    pub w_at : f.w_cursor ≡ (f.r_cursor + f.elems) % f.length

  -- Every index that the code uses is in range.
  pub in_range :
      {f : Fifo fs d} → IsValid f → (f.r_cursor < length f.queue) × (f.w_cursor < length f.queue)
  in_range v = omega arith

  -- What the queue holds, oldest first.
  unfoldable pub contents : Fifo fs d → List A
  contents f = slots d f.length f.queue f.r_cursor f.elems

  pub length-contents : (f : Fifo fs d) → length (contents f) ≡ f.elems
  unfolding contents
  length-contents f = length-slots d f.length f.queue f.r_cursor f.elems

  -- A new queue with room is valid and empty.
  pub new_fifo_lem : (n : ℕ) → 0 < n → IsValid (new_fifo fs d n) × (contents (new_fifo fs d n) ≡ [])
  unfolding new_fifo contents
  new_fifo_lem n h = (
    record {
      storage = length-replicate n d;
      room = h;
      bounded = omega arith;
      r_in = h;
      w_at = omega (arith, mod_low (0 + 0) n (omega arith));
    },
    refl,
  )

  -- The bounded queue: the early dropper's verdict is an input.
  abbrev pub push_spec : Bool → Bool → Bool → List A → A → List A × Status
  push_spec true full drop q item = (q, closed_err)
  push_spec false true drop q item = (q, dropped)
  push_spec false false true q item = (q, wred_dropped)
  push_spec false false false q item = (q ++ (item ∷ []), ok)

  -- The accepted item ends up last.
  accepted :
      (f : Fifo fs d) (item : A) (r : Option (Wred fs))
      → IsValid f
      → f.elems ≢ f.length
      → let f' = (push_guarded fs d false false (r, false) f item).0 in
        IsValid f' × (contents f' ≡ contents f ++ (item ∷ []))
  unfolding contents
  accepted f item r v ne = (
    record {
      storage = length-set f.queue f.w_cursor item ∙ v.storage;
      room = v.room;
      bounded = omega (arith, v.bounded);
      r_in = v.r_in;
      w_at =
          ap (λ k. (k + 1) % f.length) v.w_at
          ∙ mod-add-mod (f.r_cursor + f.elems) f.length 1
          ∙ ap (λ k. k % f.length) (add_assoc f.r_cursor f.elems 1);
    },
    let e : f.elems + 1 ≡ suc f.elems = omega arith in
        ap (slots d f.length (set f.queue f.w_cursor item) f.r_cursor) e
        ∙ slots-set_end d f.length f.queue item f.elems f.r_cursor f.w_cursor
            (omega (arith, v.storage)) v.r_in (omega (arith, v.bounded)) v.w_at,
  )

  abbrev Pushes : Fifo fs d → A → Bool → Bool → Option (Wred fs) × Bool → Type 0
  Pushes f item closed full early =
      let (f', status) = push_guarded fs d closed full early f item in
      IsValid f'
      × ((contents f', status) ≡ push_spec closed full early.1 (contents f) item)
      × (f'.length ≡ f.length)
      × (f'.closed ≡ f.closed)

  guarded :
      (f : Fifo fs d) (item : A) (closed full : Bool) (early : Option (Wred fs) × Bool)
      → IsValid f
      → (f.elems == f.length) ≡ full
      → Pushes f item closed full early
  guarded f item true full early v e = (v, refl, refl, refl)
  guarded f item false true early v e = (v, refl, refl, refl)
  guarded f item false false (r, true) v e = (
    record {
      storage = v.storage;
      room = v.room;
      bounded = v.bounded;
      r_in = v.r_in;
      w_at = v.w_at;
    },
    unfold contents in refl,
    refl,
    refl,
  )
  guarded f item false false (r, false) v e =
      let (valid, held) = accepted f item r v (ne_of_== f.elems f.length e) in
      (valid, ap (λ q. (q, ok)) held, refl, refl)

  -- `Push` on a valid queue is `push_spec` on the contents, keeps the invariant, and changes neither the capacity nor
  -- whether the queue is closed.
  pub push_refines :
      (f : Fifo fs d) (item : A) (draw : Float)
      → IsValid f
      → let (f', status) = push fs d f item draw in
        IsValid f'
        × ((contents f', status)
            ≡ push_spec f.closed
                (length (contents f) == f.length)
                (early_drop fs d f.wred f.elems draw).1
                (contents f)
                item)
        × (f'.length ≡ f.length)
        × (f'.closed ≡ f.closed)
  unfolding push
  push_refines f item draw v =
      rw (length-contents f)
        (guarded f item f.closed (f.elems == f.length) (early_drop fs d f.wred f.elems draw) v refl)
