-- ===== src/Queue/Wred.antt =====
-- pkg/queue/wred/wred.go over an abstract `float64`: the operations of the language that it uses
-- are a parameter, and the random draw of `IsDrop` is an argument.
use pig.Base.{ℕ, ◌≡◌, ◌⊎◌, Bool, false, ◌&&◌, ◌||◌, ◌≢◌, ◌==◌, if◌then◌else◌, arith}

pub record Floats : Type 1 where
  pub Float : Type 0
  pub of_nat : ℕ → Float
  pub add : Float → Float → Float
  pub sub : Float → Float → Float
  pub mul : Float → Float → Float
  pub div : Float → Float → Float
  pub half : Float
  pub round : Float → Float
  pub pow2_neg : Float → Float
  pub flt : Float → Float → Bool
  pub fle : Float → Float → Bool
  pub feq : Float → Float → Bool

pub data WredError : Type 0 where
  bad_weight bad_probability bad_threshold bad_length : WredError

module _ (fs : Floats) where
  open fs use {Float, of_nat, add, sub, mul, div, half, round, pow2_neg, flt, fle, feq}

  pub record Wred : Type 0 where
    pub avg_queue_len : Float
    pub factor : Float
    pub max_dp : Float
    pub min_t : Float
    pub max_t : Float
    pub w : Float

  pub data NewWred : Type 0 where
    made : Wred → NewWred
    refused : WredError → NewWred

  zero_float : Float
  zero_float = of_nat 0

  one_float : Float
  one_float = of_nat 1

  -- `math.Round(maxT*0.5*100) / 0.5`, or a fraction of the length, capped at `maxT`.
  min_threshold : ℕ → Float → Float → Float → Float
  unfolding zero_float
  min_threshold qlen min_th max_th max_t =
      let rounded = div (round (mul (mul max_t half) (of_nat 100))) half in
      let min_t =
        if flt zero_float min_th && flt min_th max_th then mul min_th (of_nat qlen) else rounded in
      if fle max_t min_t then max_t else min_t

  unfoldable pub new_wred : ℕ → Float → Float → Float → Float → NewWred
  unfolding zero_float one_float min_threshold
  new_wred qlen weight drop_probability min_th max_th =
      if fle weight zero_float
      then refused bad_weight
      else if flt drop_probability zero_float || flt one_float drop_probability
      then refused bad_probability
      else if flt max_th zero_float || flt one_float max_th
      then refused bad_threshold
      else if qlen == 0
      then refused bad_length
      else made (record {
        avg_queue_len = zero_float;
        factor = weight;
        max_dp = drop_probability;
        min_t = min_threshold qlen min_th max_th (mul max_th (of_nat qlen));
        max_t = mul max_th (of_nat qlen);
        w = pow2_neg weight;
      })

  unfoldable pub update : Wred → Float → Wred
  unfolding one_float
  update r queue_len = record r {
    avg_queue_len = add (mul (sub one_float r.w) r.avg_queue_len) (mul r.w queue_len);
  }

  -- `draw` is what `rand.Float64()` returns.
  unfoldable pub is_drop : Wred → Float → Bool
  unfolding zero_float
  is_drop r draw =
      if feq r.max_dp zero_float
      then false
      else if flt r.avg_queue_len r.min_t
      then false
      else if fle r.max_t r.avg_queue_len
      then flt draw r.max_dp
      else flt draw (div (mul r.max_dp (sub r.avg_queue_len r.min_t)) (sub r.max_t r.min_t))

  -- A dropper that `NewWRED` makes has its lower threshold at most at the upper one, a positive
  -- weight, and a drop probability and an upper fraction between 0 and 1, as the tests of the code have it.
  pub new_wred_sound :
      (qlen : ℕ) (weight dp min_th max_th : Float) {r : Wred}
      → new_wred qlen weight dp min_th max_th ≡ made r
      → ((r.min_t ≡ r.max_t) ⊎ (fle r.max_t r.min_t ≡ false))
        × (fle r.factor (of_nat 0) ≡ false)
        × (flt r.max_dp (of_nat 0) ≡ false)
        × (flt (of_nat 1) r.max_dp ≡ false)
        × (qlen ≢ 0)
  unfolding new_wred
  new_wred_sound qlen weight dp min_th max_th h = ground arith
