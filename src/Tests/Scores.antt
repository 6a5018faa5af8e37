-- ===== src/Tests/Scores.antt =====
-- The reputation of two providers after three outcomes, in thousandths that are never negative.
use native.Mathlib.Nat.{mul-le-mul_left}
use inference_exchange.Prelude.{
  Floats, ℕ, ◌+◌, ◌-◌, ◌*◌, ◌/◌, ◌^◌, ◌≤◌, refl, pos, pos_part, List, [], ◌∷◌, All, ltb, leb, arith,
}
use inference_exchange.Inference.Responses.{ServiceOutcome, success, timeout, error}
use inference_exchange.Reputation.{OutcomeRecord, score}
use inference_exchange.Reputation.Bounds.{
  RoundsMonotonically, InUnit, IsBounded, replay, Activity, recorded, read, replay-InUnit,
}

abbrev grid : Floats
grid = record {
  Float = ℕ;
  of_int = λ n. pos_part n * 1000;
  lit = λ n k. n * 1000 / 10 ^ k;
  inf = 1_000_000_000;
  add = ◌+◌;
  sub = ◌-◌;
  mul = λ a b. a * b / 1000;
  div = λ a b. a * 1000 / b;
  neg = λ a. 0;
  lt = ltb;
  le = leb;
  trunc = λ a. pos (a / 1000);
}

grid-RoundsMonotonically : RoundsMonotonically grid
grid-RoundsMonotonically = record {
  le_trans = λ a b c h k. ground arith;
  lt_le = λ a b h. ground arith;
  mul_mono = λ c a b c0 c1 a0 k b1.
      let below : a ≤ b = ground (arith, k) in
      let scaled : c * a ≤ c * b = mul-le-mul_left c below in
      let rounded : c * a / 1000 ≤ c * b / 1000 = omega (arith, scaled) in ground (arith, rounded);
  add_mono = λ a b c d a0 c0 h k. ground (arith, h, k);
  blend_weights = (refl, refl, refl, refl, refl, refl, refl, refl);
  score_weights = (refl, refl, refl, refl, refl, refl, refl, refl);
  constants = (refl, refl, refl, refl, refl);
  latency_below = λ n. ground arith;
}

abbrev outcome : ServiceOutcome → OutcomeRecord grid
outcome o = record { outcome = o; tokens = pos 10; latency_ms = pos 700 }

abbrev events : List (Activity grid grid-RoundsMonotonically)
events =
    recorded "p1" (outcome success)
    ∷ read "p3"
    ∷ recorded "p2" (outcome error)
    ∷ recorded "p1" (outcome timeout)
    ∷ []

replay-InUnit_example :
    All
      (λ e.
        InUnit grid grid-RoundsMonotonically (score grid e.1)
        × IsBounded grid grid-RoundsMonotonically e.1)
      (replay grid grid-RoundsMonotonically events)
replay-InUnit_example =
    replay-InUnit grid grid-RoundsMonotonically events
      (omega arith, (tt, (omega arith, (omega arith, tt))))
