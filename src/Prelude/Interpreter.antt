-- ===== src/Prelude/Interpreter.antt =====
-- What the interpreter and its standard library supply to the modelled code.
use Prim.Native.Nat.{ℕ}
use Prim.Native.String.{String}
use mathlib.Core.Bool.{Bool}

pub record Host : Type 0 where
  -- `s.lower()`, `s.strip()`
  pub lower : String → String
  pub strip : String → String
  -- `s[:n]`, `s[n:]`
  pub slice_to : ℕ → String → String
  pub slice_from : ℕ → String → String
  -- `len(s)`
  pub text_length : String → ℕ
  -- `hashlib.sha256(s.encode()).hexdigest()`
  pub sha256 : String → String
  -- `bool(re.fullmatch(pattern, s))`
  pub fullmatch : String → String → Bool
