-- ===== src/Queue/Fifo/Take.antt =====
-- What leaves the FIFO of pkg/queue/fifo.go, by the blocking calls and by the polling ones, against
-- a list, oldest first.
use pig.Base.{
  suc, ◌+◌, ◌-◌, ◌%◌, ◌≡◌, refl, ap, sym, ◌∙◌, ◌≢◌, Bool, true, false, List, [], ◌∷◌, arith, length,
  get_or, length-set, ◌==◌, if◌then◌else◌, eq_of_==, ne_of_==,
}
use pig.Queue.Wred.{Floats}
use pig.Queue.Fifo.{
  Fifo, Outcome, waits, returns, pop, pop_all, try_pop, try_pop_all, take_one, take_all,
}
use pig.Queue.Fifo.Ring.{slots, slots-set_first, copy_out_lem, mod_low, step_first}
use pig.Queue.Fifo.Refine.{IsValid, contents, length-contents}

module _ (fs : Floats) {A : Type 0} (d : A) where
  open fs use {Float}

  -- The queue keeps its capacity and stays open or closed.
  pub record Keeps (f f' : Fifo fs d) : Type 0 where
    pub valid : IsValid fs d f'
    pub same_length : f'.length ≡ f.length
    pub same_closed : f'.closed ≡ f.closed

  -- `take_one` splits off the oldest item.
  take_one_lem :
      (f : Fifo fs d)
      → IsValid fs d f
      → f.elems ≢ 0
      → let (item, f') = take_one fs d f in Keeps f f' × (contents fs d f ≡ item ∷ contents fs d f')
  unfolding take_one contents
  take_one_lem f v ne = (
    record {
      valid = record {
        storage = length-set f.queue f.r_cursor d ∙ v.storage;
        room = v.room;
        bounded = omega (arith, v.bounded);
        r_in = omega (arith, v.room);
        w_at =
            v.w_at
            ∙ ap (λ k. (f.r_cursor + k) % f.length) e
            ∙ sym (step_first f.length f.r_cursor (f.elems - 1) v.r_in (omega (arith, v.bounded)));
      };
      same_length = refl;
      same_closed = refl;
    },
    ap (slots d f.length f.queue f.r_cursor) e
        ∙ ap (◌∷◌ (get_or f.queue f.r_cursor d)) (
            sym (
              slots-set_first d f.length f.queue d (f.elems - 1) f.r_cursor v.r_in
                (omega (arith, v.bounded)))),
  )
    where
      e : f.elems ≡ suc (f.elems - 1)
      e = omega arith

  -- `take_all` empties the queue.
  take_all_lem :
      (f : Fifo fs d)
      → IsValid fs d f
      → let (items, f') = take_all fs d f in
        Keeps f f' × (items ≡ contents fs d f) × (contents fs d f' ≡ []) × (f'.elems ≡ 0)
  unfolding take_all contents
  take_all_lem f v =
      let c = copy_out_lem d f.length f.elems f.r_cursor f.queue v.r_in v.bounded in
      (
        record {
          valid = record {
            storage = c.1 ∙ v.storage;
            room = v.room;
            bounded = omega arith;
            r_in = omega (arith, c.2, v.room);
            w_at =
                v.w_at
                ∙ sym c.2
                ∙ sym (mod_low _ f.length (omega (arith, c.2, v.room)))
                ∙ ap (λ k. k % f.length) (omega arith);
          };
          same_length = refl;
          same_closed = refl;
        },
        c.0,
        refl,
        refl,
      )

  -- What the blocking calls do on the list: wait while it is empty and open.
  abbrev pub pop_spec : Bool → List A → Outcome (A × List A)
  pop_spec closed (x ∷ q) = returns (x, q)
  pop_spec true [] = returns (d, [])
  pop_spec false [] = waits

  abbrev pub pop_all_spec : Bool → List A → Outcome (List A × List A)
  pop_all_spec closed (x ∷ q) = returns (x ∷ q, [])
  pop_all_spec true [] = returns ([], [])
  pop_all_spec false [] = waits

  -- A call of the queue does what the list does, and keeps the queue valid.
  abbrev pub Agrees :
      {B : Type 0} → Fifo fs d → Outcome (B × Fifo fs d) → Outcome (B × List A) → Type 0
  Agrees f waits waits = Unit {0}
  Agrees f (returns (b, f')) (returns (b', q)) = Keeps f f' × (b ≡ b') × (contents fs d f' ≡ q)
  Agrees f waits (returns s) = ⊥
  Agrees f (returns r) waits = ⊥

  refl-Keeps : (f : Fifo fs d) → IsValid fs d f → Keeps f f
  refl-Keeps f v = record { valid = v; same_length = refl; same_closed = refl }

  empty_contents : (f : Fifo fs d) → f.elems ≡ 0 → contents fs d f ≡ []
  unfolding contents
  empty_contents f e = ap (slots d f.length f.queue f.r_cursor) e

  cons_contents :
      (f : Fifo fs d)
      → IsValid fs d f
      → f.elems ≢ 0
      → (x : A) × (q : List A) × (contents fs d f ≡ x ∷ q)
  cons_contents f v ne =
      let (item, f') = take_one fs d f in (item, contents fs d f', (take_one_lem f v ne).1)

  pop_guarded :
      (f : Fifo fs d) (empty closed : Bool)
      → IsValid fs d f
      → (f.elems == 0) ≡ empty
      → Agrees f
          (if empty then (if closed then returns (d, f) else waits) else returns (take_one fs d f))
          (pop_spec closed (contents fs d f))
  pop_guarded f true true v e =
      let none' = empty_contents f (eq_of_== f.elems 0 e) in rw none' (refl-Keeps f v, refl, none')
  pop_guarded f true false v e = rw (empty_contents f (eq_of_== f.elems 0 e)) tt
  pop_guarded f false closed v e =
      let (keeps, split) = take_one_lem f v (ne_of_== f.elems 0 e) in rw split (keeps, refl, refl)

  pop_all_guarded :
      (f : Fifo fs d) (empty closed : Bool)
      → IsValid fs d f
      → (f.elems == 0) ≡ empty
      → Agrees f
          (if empty then (if closed then returns ([], f) else waits) else returns (take_all fs d f))
          (pop_all_spec closed (contents fs d f))
  pop_all_guarded f true true v e =
      let none' = empty_contents f (eq_of_== f.elems 0 e) in rw none' (refl-Keeps f v, refl, none')
  pop_all_guarded f true false v e = rw (empty_contents f (eq_of_== f.elems 0 e)) tt
  pop_all_guarded f false closed v e =
      let (x, q, split) = cons_contents f v (ne_of_== f.elems 0 e) in
      let (keeps, items, left, _) = take_all_lem f v in rw split (keeps, items ∙ split, left)

  -- `Pop` on a valid queue returns the oldest item; on an empty queue it waits, or returns the zero value if closed.
  pub pop_refines :
      (f : Fifo fs d) → IsValid fs d f → Agrees f (pop fs d f) (pop_spec f.closed (contents fs d f))
  unfolding pop
  pop_refines f v = pop_guarded f (f.elems == 0) f.closed v refl

  -- `PopAll` on a valid queue returns every item, oldest first, and leaves the queue empty; on an empty
  -- one it waits, or returns nothing if closed.
  pub pop_all_refines :
      (f : Fifo fs d)
      → IsValid fs d f
      → Agrees f (pop_all fs d f) (pop_all_spec f.closed (contents fs d f))
  unfolding pop_all
  pop_all_refines f v = pop_all_guarded f (f.elems == 0) f.closed v refl

  -- What the polling calls do on the list: the value, whether it is now empty, and whether it is closed.
  abbrev pub try_pop_spec : Bool → List A → (A × Bool × Bool) × List A
  try_pop_spec closed [] = ((d, true, closed), [])
  try_pop_spec closed (x ∷ q) = ((x, length q == 0, closed), q)

  abbrev pub try_pop_all_spec : Bool → List A → (List A × Bool × Bool) × List A
  try_pop_all_spec closed q = ((q, length q == 0, closed), [])

  -- A polling call returns what the list returns, and keeps the queue valid.
  abbrev pub Polls :
      {B : Type 0} → Fifo fs d → (B × Bool × Bool) × Fifo fs d → (B × Bool × Bool) × List A → Type 0
  Polls f (b, f') (b', q) = Keeps f f' × (b ≡ b') × (contents fs d f' ≡ q)

  try_pop_guarded :
      (f : Fifo fs d) (empty : Bool)
      → IsValid fs d f
      → (f.elems == 0) ≡ empty
      → Polls f
          (if empty
            then ((d, true, f.closed), f)
            else let (val, f') = take_one fs d f in ((val, f'.elems == 0, f.closed), f'))
          (try_pop_spec f.closed (contents fs d f))
  try_pop_guarded f true v e =
      let none' = empty_contents f (eq_of_== f.elems 0 e) in rw none' (refl-Keeps f v, refl, refl)
  try_pop_guarded f false v e =
      let (keeps, split) = take_one_lem f v (ne_of_== f.elems 0 e) in
      let n = length-contents fs d (take_one fs d f).1 in
      rw split (keeps, ap (λ k. ((take_one fs d f).0, k == 0, f.closed)) (sym n), refl)

  try_pop_all_guarded :
      (f : Fifo fs d) (empty : Bool)
      → IsValid fs d f
      → (f.elems == 0) ≡ empty
      → Polls f
          (if empty
            then (([], true, f.closed), f)
            else let (vals, f') = take_all fs d f in ((vals, length vals == 0, f.closed), f'))
          (try_pop_all_spec f.closed (contents fs d f))
  try_pop_all_guarded f true v e =
      let none' = empty_contents f (eq_of_== f.elems 0 e) in rw none' (refl-Keeps f v, refl, refl)
  try_pop_all_guarded f false v e =
      let (keeps, items, left, _) = take_all_lem f v in
      (keeps, ap (λ q. (q, length q == 0, f.closed)) items, left)

  -- `TryPop` on a valid queue never waits: it returns the oldest item and says whether that was the last
  -- one, or the zero value on an empty queue, and says whether the queue is closed.
  pub try_pop_refines :
      (f : Fifo fs d)
      → IsValid fs d f
      → Polls f (try_pop fs d f) (try_pop_spec f.closed (contents fs d f))
  unfolding try_pop
  try_pop_refines f v = try_pop_guarded f (f.elems == 0) v refl

  -- `TryPopAll` on a valid queue never waits: it returns every item, oldest first, and leaves the
  -- queue empty. It says that the queue is empty where there was no item.
  pub try_pop_all_refines :
      (f : Fifo fs d)
      → IsValid fs d f
      → Polls f (try_pop_all fs d f) (try_pop_all_spec f.closed (contents fs d f))
  unfolding try_pop_all
  try_pop_all_refines f v = try_pop_all_guarded f (f.elems == 0) v refl
