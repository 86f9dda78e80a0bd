-- ===== src/Queue/Fifo.antt =====
-- `FIFO` of pkg/queue/fifo.go, a ring of `length` slots. The mutex makes each exported method one
-- step, which takes the queue and returns it beside what the method returns. `cond.Wait` is the
-- outcome `waits`: the caller runs the same step again once it has been woken.
pub mod Ring
pub mod Refine
pub mod Take
mod Tests
use pig.Base.{
  ℕ, zero, suc, ◌+◌, ◌-◌, ◌%◌, ◌≡◌, Bool, true, false, Option, none, some, List, [], ◌∷◌, ◌==◌, ltb,
  if◌then◌else◌, get_or, set, replicate, length,
}
use pig.Queue.Wred.{Floats, Wred, NewWred, made, refused, new_wred, update, is_drop}

pub data Status : Type 0 where
  ok dropped wred_dropped closed_err : Status

pub data Outcome (B : Type 0) : Type 0 where
  waits : Outcome B
  returns : B → Outcome B

module _ {A : Type 0} (zero_value : A) where
  -- The copying loop of `popAll`: the rounds left, and what it writes.
  unfoldable pub copy_out : ℕ → ℕ → List A → ℕ → List A × List A × ℕ
  copy_out zero length queue cursor = ([], queue, cursor)
  copy_out (suc n) length queue cursor =
      let (items, queue', cursor') =
        copy_out n length (set queue cursor zero_value) ((cursor + 1) % length) in
      (get_or queue cursor zero_value ∷ items, queue', cursor')

module _ (fs : Floats) {A : Type 0} (zero_value : A) where
  open fs use {Float, of_nat}

  pub record Fifo : Type 0 where
    pub queue : List A
    pub length : ℕ
    pub elems : ℕ
    pub r_cursor : ℕ
    pub w_cursor : ℕ
    pub wred : Option (Wred fs)
    pub closed : Bool

  unfoldable pub new_fifo : ℕ → Fifo
  new_fifo length = record {
    queue = replicate length zero_value;
    length = length;
    elems = 0;
    r_cursor = 0;
    w_cursor = 0;
    wred = none;
    closed = false;
  }

  -- `none` is the panic on a refused dropper.
  unfoldable pub with_wred : Fifo → Float → Float → Float → Float → Option Fifo
  with_wred f factor dp min_th max_th = elim (new_wred fs f.length factor dp min_th max_th) [
    | made r ↦ some (record f { wred = some r })
    | refused e ↦ none
  ]

  -- The dropper after `Update`, and its verdict for a draw; none never drops.
  abbrev pub early_drop : Option (Wred fs) → ℕ → Float → Option (Wred fs) × Bool
  early_drop none elems draw = (none, false)
  early_drop (some r) elems draw =
      let r' = update fs r (of_nat elems) in (some r', is_drop fs r' draw)

  -- The three guards of `push` in order, and what passes them.
  abbrev pub push_guarded : Bool → Bool → Option (Wred fs) × Bool → Fifo → A → Fifo × Status
  push_guarded true full early f item = (f, closed_err)
  push_guarded false true early f item = (f, dropped)
  push_guarded false false (wred, true) f item = (record f { wred = wred }, wred_dropped)
  push_guarded false false (wred, false) f item = (
    record f {
      wred = wred;
      queue = set f.queue f.w_cursor item;
      w_cursor = (f.w_cursor + 1) % f.length;
      elems = f.elems + 1;
    },
    ok,
  )

  unfoldable pub push : Fifo → A → Float → Fifo × Status
  push f item draw =
      push_guarded f.closed (f.elems == f.length) (early_drop f.wred f.elems draw) f item

  -- `pop` on a queue that is not empty.
  unfoldable pub take_one : Fifo → A × Fifo
  take_one f = (
    get_or f.queue f.r_cursor zero_value,
    record f {
      queue = set f.queue f.r_cursor zero_value;
      r_cursor = (f.r_cursor + 1) % f.length;
      elems = f.elems - 1;
    },
  )

  -- One evaluation of the loop of `pop` under the lock.
  unfoldable pub pop : Fifo → Outcome (A × Fifo)
  unfolding take_one
  pop f =
      if f.elems == 0
      then (if f.closed then returns (zero_value, f) else waits)
      else returns (take_one f)

  unfoldable pub take_all : Fifo → List A × Fifo
  unfolding copy_out
  take_all f =
      let (items, queue, cursor) = copy_out zero_value f.elems f.length f.queue f.r_cursor in
      (items, record f { queue = queue; r_cursor = cursor; elems = 0 })

  unfoldable pub pop_all : Fifo → Outcome (List A × Fifo)
  unfolding take_all
  pop_all f =
      if f.elems == 0 then (if f.closed then returns ([], f) else waits) else returns (take_all f)

  -- The value, `empty` and `closed`.
  unfoldable pub try_pop : Fifo → (A × Bool × Bool) × Fifo
  unfolding take_one
  try_pop f =
      if f.elems == 0
      then ((zero_value, true, f.closed), f)
      else let (val, f') = take_one f in ((val, f'.elems == 0, f.closed), f')

  unfoldable pub try_pop_all : Fifo → (List A × Bool × Bool) × Fifo
  unfolding take_all
  try_pop_all f =
      if f.elems == 0
      then (([], true, f.closed), f)
      else let (vals, f') = take_all f in ((vals, length vals == 0, f.closed), f')

  unfoldable pub close : Fifo → Fifo
  close f = record f { closed = true }
