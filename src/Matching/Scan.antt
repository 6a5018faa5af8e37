-- ===== src/Matching/Scan.antt =====
-- Proofs about the loop over the offers in inference_exchange/coordinator/matching/strategy.py.
use inference_exchange.Prelude.{
  Floats, IsOrdered, ◌≤◌, ◌<◌, ◌≡◌, refl, true, false, ◌||◌, Option, none, some, List, [], ◌∷◌,
  ◌==◌, text_eq, leb, elem, In, All, arith, Bool-cases, ◌⊎◌, inl, inr,
}
use inference_exchange.Matching.{
  InferenceOrder, ProviderOffer, level_value, is_available, available_slots, compute_score,
  zero_float, Slots, slots_left, Best, no_best, consider, scan,
}

-- The hard constraints of an order on an offer.
pub record Meets (fl : Floats) (order : InferenceOrder fl) (offer : ProviderOffer fl) : Type 0 where
  pub model_served : ((order.model == "default") || elem order.model offer.models) ≡ true
  pub price_accepted : fl.lt order.max_price_per_mtok offer.price_per_mtok_output ≡ false
  pub trust_met : level_value order.min_confidence ≤ level_value offer.confidence_level
  pub slot_free : 0 < available_slots fl offer

module _ (fl : Floats) (ord : IsOrdered fl) where
  open fl use {Float, lt}
  open ord use {lt_irrefl, lt_trans, minus_one_neg}

  -- A score that is not negative is given only where the hard constraints hold.
  pub compute_score-Meets :
      (order : InferenceOrder fl) (offer : ProviderOffer fl)
      → lt (compute_score fl order offer) (zero_float fl) ≡ false
      → Meets fl order offer
  unfolding compute_score is_available
  compute_score-Meets order offer h = ground (arith, h, minus_one_neg)

  -- What the loop's variables say of the offers seen so far.
  abbrev pub Found :
      InferenceOrder fl
      → Slots fl
      → List (ProviderOffer fl)
      → Option (ProviderOffer fl)
      → Float
      → Type 0
  Found order left offers none s = Unit
  Found order left offers (some o) s =
      In o offers
      × (s ≡ compute_score fl order o)
      × (lt s (zero_float fl) ≡ false)
      × (1 ≤ slots_left fl o.provider_id left)

  -- An offer is out of slots, ineligible, or no better than the score.
  abbrev pub Beats : InferenceOrder fl → Slots fl → Float → ProviderOffer fl → Type 0
  Beats order left s o =
      (leb (slots_left fl o.provider_id left) 0 ≡ true)
      ⊎ (lt (compute_score fl order o) (zero_float fl) ≡ true)
      ⊎ (lt s (compute_score fl order o) ≡ false)

  consider-Found :
      (order : InferenceOrder fl) (left : Slots fl) (offers : List (ProviderOffer fl))
      (o : ProviderOffer fl) (b : Best fl)
      → In o offers
      → Found order left offers b.offer b.score
      → Found order left offers
          (consider fl order left o b).offer
          (consider fl order left o b).score
  unfolding consider
  consider-Found order left offers o b m h =
      elim (Bool-cases (leb (slots_left fl o.provider_id left) 0)) [
        | inl full ↦ rw full h
        | inr free ↦ elim (Bool-cases (lt (compute_score fl order o) (zero_float fl))) [
          | inl negative ↦ rw (free, negative) h
          | inr fit ↦ elim (Bool-cases (lt b.score (compute_score fl order o))) [
            | inl better ↦ rw (free, fit, better) (m, refl, fit, ground (arith, free))
            | inr worse ↦ rw (free, fit, worse) h
          ]
        ]
      ]

  -- The score never falls, so what was beaten stays beaten.
  consider-Beats :
      (order : InferenceOrder fl) (left : Slots fl) (o p : ProviderOffer fl) (b : Best fl)
      → Beats order left b.score p
      → Beats order left (consider fl order left o b).score p
  unfolding consider
  consider-Beats order left o p b (inl h) = inl h
  consider-Beats order left o p b (inr (inl h)) = inr (inl h)
  consider-Beats order left o p b (inr (inr h)) = inr (
      inr
        (ground (arith, h, lt_trans b.score (compute_score fl order o) (compute_score fl order p))))

  consider-Beats_self :
      (order : InferenceOrder fl) (left : Slots fl) (o : ProviderOffer fl) (b : Best fl)
      → Beats order left (consider fl order left o b).score o
  unfolding consider
  consider-Beats_self order left o b =
      elim (Bool-cases (leb (slots_left fl o.provider_id left) 0)) [
        | inl full ↦ inl full
        | inr free ↦ elim (Bool-cases (lt (compute_score fl order o) (zero_float fl))) [
          | inl negative ↦ inr (inl negative)
          | inr fit ↦ inr (inr (ground (arith, free, fit, lt_irrefl (compute_score fl order o))))
        ]
      ]

  scan-Found :
      (order : InferenceOrder fl) (left : Slots fl) (all offers : List (ProviderOffer fl))
      (b : Best fl)
      → ((o : ProviderOffer fl) → In o offers → In o all)
      → Found order left all b.offer b.score
      → Found order left all (scan fl order left offers b).offer (scan fl order left offers b).score
  unfolding scan
  scan-Found order left all [] b sub h = h
  scan-Found order left all (o ∷ offers) b sub h =
      scan-Found order left all offers (consider fl order left o b) (λ p m. sub p (inr m))
        (consider-Found order left all o b (sub o (inl refl)) h)

  scan-Beats_old :
      (order : InferenceOrder fl) (left : Slots fl) (offers : List (ProviderOffer fl))
      (p : ProviderOffer fl) (b : Best fl)
      → Beats order left b.score p
      → Beats order left (scan fl order left offers b).score p
  unfolding scan
  scan-Beats_old order left [] p b h = h
  scan-Beats_old order left (o ∷ offers) p b h =
      scan-Beats_old order left offers p (consider fl order left o b)
        (consider-Beats order left o p b h)

  scan-Beats :
      (order : InferenceOrder fl) (left : Slots fl) (offers : List (ProviderOffer fl)) (b : Best fl)
      → All (Beats order left (scan fl order left offers b).score) offers
  unfolding scan
  scan-Beats order left [] b = tt
  scan-Beats order left (o ∷ offers) b = (
    scan-Beats_old order left offers o (consider fl order left o b)
        (consider-Beats_self order left o b),
    scan-Beats order left offers (consider fl order left o b),
  )

  -- Where `<` on floats is a strict order and -1.0 < 0, the best offer that the loop over the
  -- offers finds is one of them, carries its own score, which is not negative, and has a slot
  -- left; every offer is out of slots, ineligible, or does not score higher.
  pub scan_lem :
      (order : InferenceOrder fl) (left : Slots fl) (offers : List (ProviderOffer fl))
      → let b = scan fl order left offers (no_best fl) in
        Found order left offers b.offer b.score × All (Beats order left b.score) offers
  scan_lem order left offers = (
    scan-Found order left offers offers (no_best fl) (λ o m. m) tt,
    scan-Beats order left offers (no_best fl),
  )
