-- ===== src/Prelude/Sort.antt =====
-- A stable sort by a Boolean order: what Python's `sorted` and SQL's ORDER BY promise.
use Prim.Native.Nat.{suc}
use mathlib.Core.Path.{◌≡◌, refl}
use mathlib.Core.Bool.{Bool}
use mathlib.Core.List.{List, [], ◌∷◌}
use native.Mathlib.Omega.{arith}
use inference_exchange.Prelude.Tests.{if◌then◌else◌}
use inference_exchange.Prelude.Lists.{length, count, All}

module _ {ℓ} {A : Type ℓ} where
  -- `before y x`: y must come before x.
  insert_by : (A → A → Bool) → A → List A → List A
  insert_by before x [] = x ∷ []
  insert_by before x (y ∷ ys) = if before y x then y ∷ insert_by before x ys else x ∷ y ∷ ys

  unfoldable pub sort_by : (A → A → Bool) → List A → List A
  unfolding insert_by
  sort_by before [] = []
  sort_by before (x ∷ xs) = insert_by before x (sort_by before xs)

  length-insert_by :
      (b : A → A → Bool) (x : A) (xs : List A) → length (insert_by b x xs) ≡ suc (length xs)
  unfolding insert_by
  length-insert_by b x [] = refl
  length-insert_by b x (y ∷ xs) = ground (arith, length-insert_by b x xs)

  pub length-sort_by : (b : A → A → Bool) (xs : List A) → length (sort_by b xs) ≡ length xs
  unfolding sort_by
  length-sort_by b [] = refl
  length-sort_by b (x ∷ xs) =
      ground (arith, length-insert_by b x (sort_by b xs), length-sort_by b xs)

  count-insert_by :
      (b : A → A → Bool) (p : A → Bool) (x : A) (xs : List A)
      → count p (insert_by b x xs) ≡ count p (x ∷ xs)
  unfolding insert_by
  count-insert_by b p x [] = refl
  count-insert_by b p x (y ∷ xs) = ground (arith, count-insert_by b p x xs)

  -- A sort keeps every element as often as it was there.
  pub count-sort_by :
      (b : A → A → Bool) (p : A → Bool) (xs : List A) → count p (sort_by b xs) ≡ count p xs
  unfolding sort_by
  count-sort_by b p [] = refl
  count-sort_by b p (x ∷ xs) =
      ground (arith, count-insert_by b p x (sort_by b xs), count-sort_by b p xs)

  All-insert_by {κ} :
      (P : A → Type κ) (b : A → A → Bool) (x : A) (xs : List A)
      → P x
      → All P xs
      → All P (insert_by b x xs)
  unfolding insert_by
  All-insert_by P b x [] h hs = (h, tt)
  All-insert_by P b x (y ∷ xs) h hs = ground (arith, All-insert_by P b x xs h hs.1)

  pub All-sort_by {κ} :
      (P : A → Type κ) (b : A → A → Bool) (xs : List A) → All P xs → All P (sort_by b xs)
  unfolding sort_by
  All-sort_by P b [] h = tt
  All-sort_by P b (x ∷ xs) h = All-insert_by P b x (sort_by b xs) h.0 (All-sort_by P b xs h.1)
