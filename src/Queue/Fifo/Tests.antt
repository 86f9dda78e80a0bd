-- ===== src/Queue/Fifo/Tests.antt =====
-- Runs of pkg/queue at concrete inputs, with whole numbers for `float64`.
use pig.Base.{ℕ, ◌+◌, ◌-◌, ◌*◌, ◌/◌, ◌≡◌, refl, false, none, [], ◌∷◌, ◌==◌, ltb, leb, arith, length}
use pig.Queue.Wred.{Floats, Wred}
use pig.Queue.Fifo.{Fifo, push, pop, pop_all, try_pop, try_pop_all, early_drop}
use pig.Queue.Fifo.Refine.{IsValid, contents, push_spec, push_refines}
use pig.Queue.Fifo.Take.{
  pop_spec, pop_all_spec, Agrees, pop_refines, pop_all_refines, try_pop_spec, try_pop_all_spec,
  Polls, try_pop_refines, try_pop_all_refines,
}

abbrev whole : Floats
whole = record {
  Float = ℕ;
  of_nat = λ n. n;
  add = λ a b. a + b;
  sub = λ a b. a - b;
  mul = λ a b. a * b;
  div = λ a b. a / b;
  half = 1;
  round = λ a. a;
  pow2_neg = λ a. 1;
  flt = ltb;
  fle = leb;
  feq = λ a b. a == b;
}

abbrev empty_item : ℕ
empty_item = 0

-- Two items in a ring of three slots, the second one past its end.
abbrev wrapped : Fifo whole empty_item
wrapped = record {
  queue = 6 ∷ 0 ∷ 5 ∷ [];
  length = 3;
  elems = 2;
  r_cursor = 2;
  w_cursor = 1;
  wred = none;
  closed = false;
}

wrapped-IsValid : IsValid whole empty_item wrapped
wrapped-IsValid = record {
  storage = refl;
  room = omega arith;
  bounded = omega arith;
  r_in = omega arith;
  w_at = refl;
}

push_refines_example :
    let (f', status) = push whole empty_item wrapped 7 0 in
    IsValid whole empty_item f'
    × ((contents whole empty_item f', status)
        ≡ push_spec whole empty_item wrapped.closed
            (length (contents whole empty_item wrapped) == wrapped.length)
            (early_drop whole empty_item wrapped.wred wrapped.elems 0).1
            (contents whole empty_item wrapped)
            7)
    × (f'.length ≡ wrapped.length)
    × (f'.closed ≡ wrapped.closed)
push_refines_example = push_refines whole empty_item wrapped 7 0 wrapped-IsValid

pop_refines_example :
    Agrees whole empty_item wrapped
      (pop whole empty_item wrapped)
      (pop_spec whole empty_item false (contents whole empty_item wrapped))
pop_refines_example = pop_refines whole empty_item wrapped wrapped-IsValid

pop_all_refines_example :
    Agrees whole empty_item wrapped
      (pop_all whole empty_item wrapped)
      (pop_all_spec whole empty_item false (contents whole empty_item wrapped))
pop_all_refines_example = pop_all_refines whole empty_item wrapped wrapped-IsValid

abbrev dropper : Wred whole
dropper = record { avg_queue_len = 0; factor = 1; max_dp = 1; min_t = 10; max_t = 10; w = 1 }

abbrev capacity : ℕ
capacity = 10

try_pop_refines_example :
    Polls whole empty_item wrapped
      (try_pop whole empty_item wrapped)
      (try_pop_spec whole empty_item false (contents whole empty_item wrapped))
try_pop_refines_example = try_pop_refines whole empty_item wrapped wrapped-IsValid

try_pop_all_refines_example :
    Polls whole empty_item wrapped
      (try_pop_all whole empty_item wrapped)
      (try_pop_all_spec whole empty_item false (contents whole empty_item wrapped))
try_pop_all_refines_example = try_pop_all_refines whole empty_item wrapped wrapped-IsValid
