-- ===== src/Attribution.antt =====
-- Which model served a request: inference_exchange/coordinator/model_attribution.py.
use inference_exchange.Prelude.{
  ◌≡◌, ◌≢◌, ◌⊎◌, subst, refl, sym, String, Bool, true, false, not, ◌&&◌, ◌||◌, Option, none, some,
  List, [], ◌∷◌, ◌==◌, text_eq, if◌then◌else◌, elem, delete, In, arith, Bool-cases, inl, inr,
  text_ne,
}

-- `list(dict.fromkeys(xs))`: the first of equal elements.
unfoldable pub unique : List String → List String
unique [] = []
unique (x ∷ xs) = x ∷ delete (λ y. y == x) (unique xs)

abbrev pub is_concrete : String → Bool
is_concrete m = not (m == "") && not (m == "default")

-- `[name for name in models if name and name != "default"]`, without repetition.
unfoldable pub advertised_models : List String → List String
unfolding unique
advertised_models models = unique (delete (λ m. not (is_concrete m)) models)

abbrev pub is_asked_for : String → String → Bool
is_asked_for requested m = (requested == "default") || (requested == m)

-- The end of `served_model_for_request`, for a provider that reports nothing.
abbrev pub unreported : String → List String → Option String
unreported requested [] = none
unreported requested (m ∷ []) = if is_asked_for requested m then some m else none
unreported requested (m ∷ _ ∷ _) = none

-- `served_model_for_request`; `confirmed` is what the provider reports, if it reports one.
unfoldable pub served_model_for_request : String → List String → Option String → Option String
unfolding advertised_models
served_model_for_request requested models (some confirmed) =
    if confirmed == ""
    then unreported requested (advertised_models models)
    else if elem confirmed (advertised_models models) && is_asked_for requested confirmed
    then some confirmed
    else none
served_model_for_request requested models none = unreported requested (advertised_models models)

-- A model that the provider advertises under that name.
abbrev pub Advertised : String → List String → Type 0
Advertised m models = In m models × (m ≢ "") × (m ≢ "default")

In-delete :
    (p : String → Bool) (m : String) (xs : List String)
    → In m (delete p xs)
    → In m xs × (p m ≡ false)
In-delete p m [] h = absurd h
In-delete p m (x ∷ xs) h = elim (Bool-cases (p x)) [
  | inl e ↦ let (n, f) = In-delete p m xs (rw e at h) in (inr n, f)
  | inr e ↦ elim (rw e at h) [
    | inl same ↦ (inl same, subst (λ y. p y ≡ false) same e)
    | inr n ↦ let (k, f) = In-delete p m xs n in (inr k, f)
  ]
]

In-unique : (m : String) (xs : List String) → In m (unique xs) → In m xs
unfolding unique
In-unique m [] h = h
In-unique m (x ∷ xs) (inl e) = inl e
In-unique m (x ∷ xs) (inr h) = inr (In-unique m xs (In-delete (λ y. y == x) m (unique xs) h).0)

In-advertised_models :
    (m : String) (models : List String) → In m (advertised_models models) → Advertised m models
unfolding advertised_models
In-advertised_models m models h =
    let (k, f) = In-delete (λ x. not (is_concrete x)) m models (In-unique m _ h) in
    (k, text_ne m "" (ground (arith, f)), text_ne m "default" (ground (arith, f)))

elem-In : (m : String) (xs : List String) → elem m xs ≡ true → In m xs
elem-In m [] h = absurd (cc h)
elem-In m (x ∷ xs) h = elim (Bool-cases (x == m)) [
  | inl e ↦ inl (ground (arith, e))
  | inr e ↦ inr (elem-In m xs (ground (arith, e, h)))
]

-- A model that may be attributed to a request.
abbrev pub Attributable : String → List String → Option String → Option String → Type 0
Attributable requested models confirmed none = Unit
Attributable requested models confirmed (some m) =
    Advertised m models
    × ((requested ≡ "default") ⊎ (requested ≡ m))
    × ((c : String) → confirmed ≡ some c → c ≢ "" → c ≡ m)

asked :
    (requested m : String)
    → is_asked_for requested m ≡ true
    → (requested ≡ "default") ⊎ (requested ≡ m)
asked requested m h = elim (Bool-cases (requested == "default")) [
  | inl e ↦ inl (ground (arith, e))
  | inr e ↦ inr (ground (arith, e, h))
]

unreported-Attributable :
    (requested : String) (models : List String) (confirmed : Option String) (ms : List String)
    → ((m : String) → In m ms → Advertised m models)
    → ((c : String) → confirmed ≡ some c → c ≡ "")
    → Attributable requested models confirmed (unreported requested ms)
unreported-Attributable requested models confirmed [] sub silent = tt
unreported-Attributable requested models confirmed (m ∷ _ ∷ _) sub silent = tt
unreported-Attributable requested models confirmed (m ∷ []) sub silent =
    elim (Bool-cases (is_asked_for requested m)) [
      | inl e ↦ rw e (sub m (inl refl), asked requested m e, λ c f ne. absurd (ne (silent c f)))
      | inr e ↦ rw e tt
    ]

-- A model that a request is attributed to is one that the provider advertises, is neither the
-- empty name nor default, is the requested one unless the request was for default, and is the
-- confirmed one if the provider confirmed one.
pub served_model_for_request-Attributable :
    (requested : String) (models : List String) (confirmed : Option String)
    → Attributable requested models confirmed (served_model_for_request requested models confirmed)
unfolding served_model_for_request
served_model_for_request-Attributable requested models none =
    unreported-Attributable requested models none (advertised_models models)
      (λ m h. In-advertised_models m models h) (λ c f. absurd (cc f))
served_model_for_request-Attributable requested models (some confirmed) =
    elim (Bool-cases (confirmed == "")) [
      | inl e ↦ rw e (
          unreported-Attributable requested models (some confirmed) (advertised_models models)
            (λ m h. In-advertised_models m models h)
            (λ c f. let same : confirmed ≡ "" = ground (arith, e) in cc (f, same)))
      | inr e ↦
          elim (Bool-cases
            (elem confirmed (advertised_models models) && is_asked_for requested confirmed)) [
              | inr f ↦ rw (e, f) tt
              | inl f ↦
                  rw (e, f)
                    (
                      In-advertised_models confirmed models
                          (elem-In confirmed (advertised_models models) (ground (arith, f))),
                      asked requested confirmed (ground (arith, f)),
                      λ c g ne. sym (cc g),
                    )
            ]
    ]
