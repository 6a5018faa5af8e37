-- ===== src/Prelude/Lists.antt =====
-- Lists measured by native numbers, and the list tests that Python's comprehensions compute.
use Prim.Native.Nat.{ℕ, zero, suc, ◌+◌, ◌-◌, ◌≤◌, min}
use mathlib.Core.Path.{◌≡◌, refl, ap, subst, ◌∙◌}
use mathlib.Core.Logic.{◌⊎◌, inl, inr}
use mathlib.Core.Bool.{Bool, true, false, not, ◌||◌, ◌&&◌}
use mathlib.Core.List.{List, [], ◌∷◌, ◌++◌, map}
use mathlib.Core.Option.{Option, none, some}
use native.Mathlib.Omega.{arith}
use inference_exchange.Prelude.Tests.{Eq, ◌==◌, if◌then◌else◌, Bool-cases}

module _ {ℓ} {A : Type ℓ} where
  abbrev pub length : List A → ℕ
  length [] = 0
  length (x ∷ xs) = suc (length xs)

  abbrev pub take : ℕ → List A → List A
  take zero xs = []
  take (suc n) [] = []
  take (suc n) (x ∷ xs) = x ∷ take n xs

  abbrev pub drop : ℕ → List A → List A
  drop zero xs = xs
  drop (suc n) [] = []
  drop (suc n) (x ∷ xs) = drop n xs

  -- `[x for x in xs if p(x)]`
  abbrev pub select : (A → Bool) → List A → List A
  select p [] = []
  select p (x ∷ xs) = if p x then x ∷ select p xs else select p xs

  -- The first element that passes, as `fetchone` of a query gives it.
  abbrev pub first : (A → Bool) → List A → Option A
  first p [] = none
  first p (x ∷ xs) = if p x then some x else first p xs

  abbrev pub any : (A → Bool) → List A → Bool
  any p [] = false
  any p (x ∷ xs) = p x || any p xs

  abbrev pub count : (A → Bool) → List A → ℕ
  count p [] = 0
  count p (x ∷ xs) = if p x then suc (count p xs) else count p xs

  -- `UPDATE … SET f WHERE p`
  abbrev pub update : (A → Bool) → (A → A) → List A → List A
  update p f [] = []
  update p f (x ∷ xs) = (if p x then f x else x) ∷ update p f xs

  -- `DELETE … WHERE p`
  abbrev pub delete : (A → Bool) → List A → List A
  delete p [] = []
  delete p (x ∷ xs) = if p x then delete p xs else x ∷ delete p xs

  -- The last `n` elements, as `xs[-n:]` with `n` positive.
  abbrev pub last_n : ℕ → List A → List A
  last_n n xs = drop (length xs - n) xs

-- `x in xs`
module _ {ℓ} {A : Type ℓ} ⦃e : Eq A⦄ where
  abbrev pub elem : A → List A → Bool
  elem a [] = false
  elem a (x ∷ xs) = x == a || elem a xs

abbrev pub All {ℓ κ} : {A : Type ℓ} → (A → Type κ) → List A → Type κ
All P [] = Unit
All P (x ∷ xs) = P x × All P xs

module _ {ℓ} {A : Type ℓ} where
  pub length-append : (xs ys : List A) → length (xs ++ ys) ≡ length xs + length ys
  length-append [] ys = omega arith
  length-append (x ∷ xs) ys = omega (arith, length-append xs ys)

  pub length-drop : (n : ℕ) (xs : List A) → length (drop n xs) ≡ length xs - n
  length-drop zero xs = omega arith
  length-drop (suc n) [] = omega arith
  length-drop (suc n) (x ∷ xs) = omega (arith, length-drop n xs)

  pub length-take : (n : ℕ) (xs : List A) → length (take n xs) ≡ min n (length xs)
  length-take zero xs = omega arith
  length-take (suc n) [] = omega arith
  length-take (suc n) (x ∷ xs) = omega (arith, length-take n xs)

  pub length-update : (p : A → Bool) (f : A → A) (xs : List A) → length (update p f xs) ≡ length xs
  length-update p f [] = refl
  length-update p f (x ∷ xs) = ap suc (length-update p f xs)

  pub length-select-le : (p : A → Bool) (xs : List A) → length (select p xs) ≤ length xs
  length-select-le p [] = omega arith
  length-select-le p (x ∷ xs) = ground (arith, length-select-le p xs)

  pub count-append : (p : A → Bool) (xs ys : List A) → count p (xs ++ ys) ≡ count p xs + count p ys
  count-append p [] ys = omega arith
  count-append p (x ∷ xs) ys = ground (arith, count-append p xs ys)

  pub All-append {κ} : (P : A → Type κ) (xs ys : List A) → All P xs → All P ys → All P (xs ++ ys)
  All-append P [] ys hx hy = hy
  All-append P (x ∷ xs) ys hx hy = (hx.0, All-append P xs ys hx.1 hy)

  pub All-drop {κ} : (P : A → Type κ) (n : ℕ) (xs : List A) → All P xs → All P (drop n xs)
  All-drop P zero xs h = h
  All-drop P (suc n) [] h = h
  All-drop P (suc n) (x ∷ xs) h = All-drop P n xs h.1

-- Membership by recursion, which the tactics take apart.
abbrev pub In : {A : Type 0} → A → List A → Type 0
In a [] = ⊥
In a (x ∷ xs) = (x ≡ a) ⊎ In a xs

module _ {A : Type 0} where
  pub All-of_In {κ} : (P : A → Type κ) (xs : List A) → ((x : A) → In x xs → P x) → All P xs
  All-of_In P [] h = tt
  All-of_In P (x ∷ xs) h = (h x (inl refl), All-of_In P xs (λ y m. h y (inr m)))

  pub All-In {κ} : (P : A → Type κ) (xs : List A) (x : A) → All P xs → In x xs → P x
  All-In P [] x h m = absurd m
  All-In P (y ∷ xs) x h (inl e) = subst P e h.0
  All-In P (y ∷ xs) x h (inr m) = All-In P xs x h.1 m

  pub All-delete {κ} :
      (P : A → Type κ) (q : A → Bool) (xs : List A) → All P xs → All P (delete q xs)
  All-delete P q [] h = tt
  All-delete P q (x ∷ xs) h = ground (arith, All-delete P q xs h.1)

  pub All-update {κ ι} :
      (P : A → Type κ) (Q : A → Type ι) (q : A → Bool) (f : A → A) (xs : List A)
      → All P xs
      → ((x : A) → P x → q x ≡ true → Q (f x))
      → ((x : A) → P x → q x ≡ false → Q x)
      → All Q (update q f xs)
  All-update P Q q f [] h t e = tt
  All-update P Q q f (x ∷ xs) h t e = (pick (q x) refl, All-update P Q q f xs h.1 t e)
    where
      pick : (b : Bool) → q x ≡ b → Q (if b then f x else x)
      pick true p = t x h.0 p
      pick false p = e x h.0 p

  pub count-le-drop : (p : A → Bool) (n : ℕ) (xs : List A) → count p xs ≤ n + count p (drop n xs)
  count-le-drop p zero xs = omega arith
  count-le-drop p (suc n) [] = omega arith
  count-le-drop p (suc n) (x ∷ xs) = ground (arith, count-le-drop p n xs)

  pub length-delete :
      (p : A → Bool) (xs : List A) → length (delete p xs) ≡ count (λ x. not (p x)) xs
  length-delete p [] = refl
  length-delete p (x ∷ xs) = ground (arith, length-delete p xs)

  pub count-none : (p : A → Bool) (xs : List A) → ((x : A) → In x xs → p x ≡ false) → count p xs ≡ 0
  count-none p [] h = refl
  count-none p (x ∷ xs) h = ground (arith, h x (inl refl), count-none p xs (λ y m. h y (inr m)))

  pub All-delete_test : (p : A → Bool) (xs : List A) → All (λ x. p x ≡ false) (delete p xs)
  All-delete_test p [] = tt
  All-delete_test p (x ∷ xs) = ground (arith, All-delete_test p xs)

  pub In-count : (p : A → Bool) (xs : List A) (x : A) → In x xs → (p x ≡ true) → 1 ≤ count p xs
  In-count p [] x m h = absurd m
  In-count p (y ∷ xs) x (inl e) h = ground (arith, ap p e, h)
  In-count p (y ∷ xs) x (inr m) h = ground (arith, In-count p xs x m h)

  pub In-select : (p : A → Bool) (xs : List A) (x : A) → In x (select p xs) → In x xs × (p x ≡ true)
  In-select p [] x m = absurd m
  In-select p (y ∷ xs) x m = elim (Bool-cases (p y)) [
    | inl e ↦ elim (rw e at m) [
      | inl f ↦ (inl f, subst (λ z. p z ≡ true) f e)
      | inr n ↦ let h = In-select p xs x n in (inr h.0, h.1)
    ]
    | inr e ↦ let h = In-select p xs x (rw e at m) in (inr h.0, h.1)
  ]

  -- In a list with at most one element that passes, the first is the one.
  pub first-In :
      (p : A → Bool) (xs : List A) (x y : A)
      → In x xs
      → p x ≡ true
      → count p xs ≤ 1
      → first p xs ≡ some y
      → x ≡ y
  first-In p [] x y m hx one hy = absurd m
  first-In p (z ∷ xs) x y (inl e) hx one hy =
      let passes : p z ≡ true = ap p e ∙ hx in
      let k : some z ≡ some y = rw passes at hy in cc (e, k)
  first-In p (z ∷ xs) x y (inr m) hx one hy = elim (Bool-cases (p z)) [
    | inl e ↦ absurd (omega (arith, In-count p xs x m hx, rw e at one))
    | inr e ↦ first-In p xs x y m hx (rw e at one) (rw e at hy)
  ]

pub In-map :
    {A B : Type 0} (f : A → B) (xs : List A) (y : B)
    → In y (map f xs)
    → (x : A) × In x xs × (f x ≡ y)
In-map f [] y m = absurd m
In-map f (x ∷ xs) y (inl e) = (x, inl refl, e)
In-map f (x ∷ xs) y (inr m) = let (z, n, e) = In-map f xs y m in (z, inr n, e)

pub List-cases {ℓ} :
    {A : Type ℓ} (xs : List A) → (xs ≡ []) ⊎ ((x : A) × (ys : List A) × (xs ≡ x ∷ ys))
List-cases [] = inl refl
List-cases (x ∷ xs) = inr (x, xs, refl)

module _ {ℓ} {A : Type ℓ} where
  pub any-select : (p q : A → Bool) (xs : List A) → any q (select p xs) ≡ any (λ x. p x && q x) xs
  any-select p q [] = refl
  any-select p q (x ∷ xs) = ground (arith, any-select p q xs)
