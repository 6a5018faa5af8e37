-- ===== src/Prelude/Sums.antt =====
-- Sums of a column over the rows that pass a test, as `SUM(f) … WHERE p`, and how the statements
-- that change a table move them.
use Prim.Native.Nat.{◌≤◌}
use mathlib.Core.Path.{◌≡◌, refl}
use mathlib.Core.Bool.{Bool, true, false}
use mathlib.Core.List.{List, [], ◌∷◌}
use native.Mathlib.Omega.{arith}
use inference_exchange.Prelude.Tests.{if◌then◌else◌}
use inference_exchange.Prelude.Lists.{count, update, delete, any}
use inference_exchange.Prelude.Int.{ℤ, pos, ◌+ℤ◌, int_laws}

module _ {ℓ} {A : Type ℓ} where
  abbrev pub sum : (A → Bool) → (A → ℤ) → List A → ℤ
  sum p f [] = pos 0
  sum p f (x ∷ xs) = if p x then f x +ℤ sum p f xs else sum p f xs

  -- The sum of the whole column.
  abbrev pub total : (A → ℤ) → List A → ℤ
  total f [] = pos 0
  total f (x ∷ xs) = f x +ℤ total f xs

  pub sum-update_none :
      (p : A → Bool) (f : A → ℤ) (q : A → Bool) (g : A → A) (xs : List A)
      → ((x : A) → p (g x) ≡ p x)
      → ((x : A) → q x ≡ true → p x ≡ true → f (g x) ≡ f x)
      → sum p f (update q g xs) ≡ sum p f xs
  sum-update_none p f q g [] hp hf = refl
  sum-update_none p f q g (x ∷ xs) hp hf =
      ground (arith, hp x, hf x, sum-update_none p f q g xs hp hf)

  sum-update_absent :
      (p : A → Bool) (f : A → ℤ) (g : A → A) (xs : List A)
      → count p xs ≡ 0
      → sum p f (update p g xs) ≡ sum p f xs
  sum-update_absent p f g [] h = refl
  sum-update_absent p f g (x ∷ xs) h = ground (arith, sum-update_absent p f g xs)

  -- An update of the one row that passes moves the sum by what it adds to that row.
  pub sum-update_one :
      (p : A → Bool) (f : A → ℤ) (g : A → A) (d : ℤ) (xs : List A)
      → ((x : A) → p (g x) ≡ p x)
      → ((x : A) → f (g x) ≡ f x +ℤ d)
      → count p xs ≡ 1
      → sum p f (update p g xs) ≡ sum p f xs +ℤ d
  sum-update_one p f g d [] hp hf h = absurd (omega arith)
  sum-update_one p f g d (x ∷ xs) hp hf h =
      grind (int_laws, hp x, hf x, sum-update_one p f g d xs hp hf, sum-update_absent p f g xs)

  pub total-update_absent :
      (p : A → Bool) (f : A → ℤ) (g : A → A) (xs : List A)
      → count p xs ≡ 0
      → total f (update p g xs) ≡ total f xs
  total-update_absent p f g [] h = refl
  total-update_absent p f g (x ∷ xs) h = ground (arith, total-update_absent p f g xs)

  pub total-update_one :
      (p : A → Bool) (f : A → ℤ) (g : A → A) (d : ℤ) (xs : List A)
      → ((x : A) → f (g x) ≡ f x +ℤ d)
      → count p xs ≡ 1
      → total f (update p g xs) ≡ total f xs +ℤ d
  total-update_one p f g d [] hf h = absurd (omega arith)
  total-update_one p f g d (x ∷ xs) hf h =
      grind (int_laws, hf x, total-update_one p f g d xs hf, total-update_absent p f g xs)

  pub count-update :
      (p : A → Bool) (q : A → Bool) (g : A → A) (xs : List A)
      → ((x : A) → p (g x) ≡ p x)
      → count p (update q g xs) ≡ count p xs
  count-update p q g [] hp = refl
  count-update p q g (x ∷ xs) hp = ground (arith, hp x, count-update p q g xs hp)

  pub any-count : (p : A → Bool) (xs : List A) → any p xs ≡ false → count p xs ≡ 0
  any-count p [] h = refl
  any-count p (x ∷ xs) h = ground (arith, any-count p xs)

  pub count-any : (p : A → Bool) (xs : List A) → any p xs ≡ true → 1 ≤ count p xs
  count-any p [] h = absurd (cc)
  count-any p (x ∷ xs) h = ground (arith, count-any p xs)

  pub sum-absent : (p : A → Bool) (f : A → ℤ) (xs : List A) → count p xs ≡ 0 → sum p f xs ≡ pos 0
  sum-absent p f [] h = refl
  sum-absent p f (x ∷ xs) h = ground (arith, sum-absent p f xs)

  pub sum-delete :
      (p : A → Bool) (f : A → ℤ) (q : A → Bool) (xs : List A)
      → ((x : A) → q x ≡ true → p x ≡ true → f x ≡ pos 0)
      → sum p f (delete q xs) ≡ sum p f xs
  sum-delete p f q [] h = refl
  sum-delete p f q (x ∷ xs) h = grind (int_laws, h x, sum-delete p f q xs h)
