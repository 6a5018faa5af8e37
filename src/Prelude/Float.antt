-- ===== src/Prelude/Float.antt =====
-- Python's floating-point numbers. Their arithmetic is the interpreter's, so the type and its
-- operations are a parameter of the definitions that compute with them.
use Prim.Native.Nat.{ℕ}
use mathlib.Core.Path.{◌≡◌}
use mathlib.Core.Bool.{Bool, true, false}
use inference_exchange.Prelude.Int.{ℤ, pos}

pub record Floats : Type 1 where
  pub Float : Type 0
  pub of_int : ℤ → Float
  -- the literal `n / 10 ** k` as written in decimals: `lit 15 2` is 0.15
  pub lit : ℕ → ℕ → Float
  pub inf : Float
  pub add : Float → Float → Float
  pub sub : Float → Float → Float
  pub mul : Float → Float → Float
  pub div : Float → Float → Float
  pub neg : Float → Float
  -- `a < b` and `a <= b`
  pub lt : Float → Float → Bool
  pub le : Float → Float → Bool
  -- `int(a)`
  pub trunc : Float → ℤ

-- What IEEE comparison guarantees for all floats, NaN included: `<` is a strict order; and -1.0 < 0.
pub record IsOrdered (fl : Floats) : Type 0 where
  pub lt_irrefl : (a : fl.Float) → fl.lt a a ≡ false
  pub lt_trans : (a b c : fl.Float) → fl.lt a b ≡ true → fl.lt b c ≡ true → fl.lt a c ≡ true
  pub minus_one_neg : fl.lt (fl.neg (fl.lit 10 1)) (fl.of_int (pos 0)) ≡ true
