-- ===== src/Prelude/Tests.antt =====
-- Boolean tests that compute to decisions and comparisons, and the conditional.
use Prim.Native.Nat.{ℕ, compare, Ordering}
use Prim.Native.String.{String}
use mathlib.Core.Path.{◌≡◌, refl}
use mathlib.Core.Logic.{◌≢◌, ◌⊎◌, inl, inr}
use mathlib.Core.Bool.{Bool, true, false}
use mathlib.Core.Option.{Option, none, some}
unfoldable use native.Mathlib.Decide.{ℕ_discrete}
use text.Mathlib.Text.{◌==◌ as str_eq}
use text.Mathlib.TextEquality.{eq_iff}
use native.Mathlib.Omega.{arith}

abbrev pub ltb : ℕ → ℕ → Bool
ltb a b = elim (compare a b) [ Ordering.lt ↦ true | _ ↦ false ]

abbrev pub leb : ℕ → ℕ → Bool
leb a b = elim (compare a b) [ Ordering.gt ↦ false | _ ↦ true ]

-- `a < b` on texts, by code points.
abbrev pub text_lt : String → String → Bool
text_lt a b = elim (Prim.Native.String.compare a b) [ Ordering.lt ↦ true | _ ↦ false ]

infix 1 if◌then◌else◌
abbrev pub if◌then◌else◌ {ℓ} : {A : Type ℓ} → Bool → A → A → A
if true then x else y = x
if false then x else y = y

str_decided : (s t : String) (b : Bool) → str_eq s t ≡ b → Dec (s ≡ t)
str_decided s t true e = yes ((eq_iff s t).0 e)
str_decided s t false e = no (λ p. cc (e, (eq_iff s t).1 p))

unfoldable pub String_discrete : Discrete String
unfolding str_decided
String_discrete s t = str_decided s t (str_eq s t) refl

-- Types whose values Python compares with `==`.
pub record Eq {ℓ} (A : Type ℓ) : Type ℓ where
  pub decide : Discrete A

-- A test on a decision: the tactics read the equation from the branch.
infix 50 ◌==◌
abbrev pub ◌==◌ {ℓ} : {A : Type ℓ} ⦃e : Eq A⦄ → A → A → Bool
◌==◌ ⦃e⦄ a b = elim (e.decide a b) [ yes _ ↦ true | no _ ↦ false ]

instance abbrev pub nat_eq : Eq ℕ
nat_eq = record { decide = ℕ_discrete }

instance abbrev pub text_eq : Eq String
text_eq = record { decide = String_discrete }

pub Bool-cases : (b : Bool) → (b ≡ true) ⊎ (b ≡ false)
Bool-cases true = inl refl
Bool-cases false = inr refl

pub Option-cases {ℓ} : {A : Type ℓ} (o : Option A) → (o ≡ none) ⊎ ((a : A) × (o ≡ some a))
Option-cases none = inl refl
Option-cases (some a) = inr (a, refl)

-- `x is None`
abbrev pub is_none {ℓ} : {A : Type ℓ} → Option A → Bool
is_none none = true
is_none (some _) = false

pub text_ne : (s t : String) → (s == t) ≡ false → s ≢ t
text_ne s t h = ground (arith, h)
