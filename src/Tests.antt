-- ===== src/Tests.antt =====
-- What the tests share: fixed-point numbers for the floats and a small interpreter.
pub mod Market
pub mod Routing
pub mod Flight
pub mod Slots
pub mod Money
pub mod Tokens
pub mod Standing
pub mod History
pub mod Auction
pub mod Codes
pub mod Session
pub mod Travel
pub mod Completions
pub mod Delivery
pub mod Scores
pub mod Trail
pub mod Feed
pub mod Speed
use inference_exchange.Prelude.{
  ◌+ℤ◌, ◌-ℤ◌, ◌*ℤ◌, ℤ, pos, pos_part, floor_div, ltb_ℤ, leb_ℤ, ◌/◌, ◌*◌, ◌^◌, refl, true, Host,
  Floats, IsOrdered, arith,
}

-- Thousandths.
abbrev scaled_mul : ℤ → ℤ → ℤ
scaled_mul a b = floor_div (a *ℤ b) 1000

abbrev scaled_div : ℤ → ℤ → ℤ
scaled_div a b = floor_div (a *ℤ pos 1000) (pos_part b)

abbrev pub thousandths : Floats
thousandths = record {
  Float = ℤ;
  of_int = λ n. n *ℤ pos 1000;
  lit = λ n k. pos (n * 1000 / 10 ^ k);
  inf = pos 1_000_000_000;
  add = ◌+ℤ◌;
  sub = ◌-ℤ◌;
  mul = scaled_mul;
  div = scaled_div;
  neg = λ a. pos 0 -ℤ a;
  lt = ltb_ℤ;
  le = leb_ℤ;
  trunc = λ a. floor_div a 1000;
}

pub thousandths-IsOrdered : IsOrdered thousandths
unfolding ◌+ℤ◌ ◌-ℤ◌ ◌*ℤ◌
thousandths-IsOrdered = record {
  lt_irrefl = λ a. ground arith;
  lt_trans = λ a b c h k. ground arith;
  minus_one_neg = refl;
}

abbrev pub host : Host
host = record {
  lower = λ s. s;
  strip = λ s. s;
  slice_to = λ n s. s;
  slice_from = λ n s. s;
  text_length = λ s. 10;
  sha256 = λ s. s;
  fullmatch = λ p s. true;
}
