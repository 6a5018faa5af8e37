-- ===== src/Matching/Outcomes.antt =====
-- Proofs about the matches and failures that `GreedyStrategy.match` of
-- inference_exchange/coordinator/matching/strategy.py returns.
use inference_exchange.Prelude.{
  Floats, IsOrdered, ℕ, ◌+◌, ◌≡◌, refl, String, true, false, List, [], ◌∷◌, ◌==◌, if◌then◌else◌,
  text_eq, In, All, All-of_In, All-sort_by, count, count-sort_by, sort_by, arith, Bool-cases,
  Option-cases, inl, inr,
}
use inference_exchange.Matching.{
  InferenceOrder, ProviderOffer, MatchReason, MatchResult, MatchFailure, compute_score, zero_float,
  Slots, initial_slots, Best, no_best, scan, Outcome, matched, failed, settle, serve, is_expired,
  record_outcome, match_loop, greedy_match,
}
use inference_exchange.Matching.Scan.{Meets, compute_score-Meets, Found, scan_lem}
use inference_exchange.Matching.Greedy.{outcome_cases}

module _ (fl : Floats) where
  abbrev outcome_id : Outcome fl → String
  outcome_id (matched m) = m.order_id
  outcome_id (failed f) = f.order_id

  -- How many results and failures name an order.
  unfoldable pub outcomes_for : String → List (MatchResult fl) × List (MatchFailure fl) → ℕ
  outcomes_for id (ms, fs) = count (λ m. m.order_id == id) ms + count (λ f. f.order_id == id) fs

  serve-outcome_id :
      (now : fl.Float) (offers : List (ProviderOffer fl)) (order : InferenceOrder fl)
      (left : Slots fl)
      → outcome_id (serve fl now offers order left).0 ≡ order.order_id
  unfolding serve settle
  serve-outcome_id now offers order left = elim (Bool-cases (is_expired fl now order)) [
    | inl late ↦ rw (late, outcome_id) refl
    | inr open_order ↦
        let b = scan fl order left offers (no_best fl) in
        elim (Option-cases b.offer) [
          | inl e ↦ rw (open_order, e, outcome_id) refl
          | inr (o, e) ↦ elim (Bool-cases (fl.lt (zero_float fl) b.score)) [
            | inl good ↦ rw (open_order, e, good, outcome_id) refl
            | inr bad ↦ rw (open_order, e, bad, outcome_id) refl
          ]
        ]
  ]

  outcomes_for-record_outcome :
      (id : String) (r : Outcome fl) (p : List (MatchResult fl) × List (MatchFailure fl))
      → outcomes_for id (record_outcome fl r p)
        ≡ (if outcome_id r == id then 1 else 0) + outcomes_for id p
  unfolding outcomes_for
  outcomes_for-record_outcome id (matched m) p = ground arith
  outcomes_for-record_outcome id (failed f) p = ground arith

  match_loop-outcomes_for :
      (now : fl.Float) (offers : List (ProviderOffer fl)) (orders : List (InferenceOrder fl))
      (left : Slots fl) (id : String)
      → outcomes_for id (match_loop fl now offers orders left)
        ≡ count (λ o. o.order_id == id) orders
  unfolding match_loop outcomes_for
  match_loop-outcomes_for now offers [] left id = refl
  match_loop-outcomes_for now offers (order ∷ orders) left id =
      let s = serve fl now offers order left in
      rw (outcomes_for-record_outcome id s.0 (match_loop fl now offers orders s.1)) (
        rw (serve-outcome_id now offers order left) ground
          (arith, match_loop-outcomes_for now offers orders s.1 id))

  -- The greedy strategy returns, for each order id, exactly as many results and failures together
  -- as orders were submitted under that id.
  pub greedy_match-outcomes_for :
      (now : fl.Float) (orders : List (InferenceOrder fl)) (offers : List (ProviderOffer fl))
      (id : String)
      → outcomes_for id (greedy_match fl now orders offers) ≡ count (λ o. o.order_id == id) orders
  unfolding greedy_match
  greedy_match-outcomes_for now orders offers id =
      rw
        (← count-sort_by (λ a b. fl.lt a.submitted_at b.submitted_at) (λ o. o.order_id == id)
          orders)
        (match_loop-outcomes_for now offers
          (sort_by (λ a b. fl.lt a.submitted_at b.submitted_at) orders) (initial_slots fl [] offers)
          id)

-- What a match promises: an order of the call, not expired, and an offer of the call that meets its
-- hard constraints, at the offer's price and with its score.
pub data IsAllowed (fl : Floats) (now : fl.Float) (orders : List (InferenceOrder fl))
    (offers : List (ProviderOffer fl)) : MatchResult fl → Type 0 where
  allowed :
      (order : InferenceOrder fl) (offer : ProviderOffer fl) (queue_time : fl.Float)
      (reason : MatchReason)
      → In order orders
      → In offer offers
      → is_expired fl now order ≡ false
      → Meets fl order offer
      → fl.lt (zero_float fl) (compute_score fl order offer) ≡ true
      → IsAllowed fl now orders offers (record {
        order_id = order.order_id;
        provider_id = offer.provider_id;
        score = compute_score fl order offer;
        price_per_mtok_output = offer.price_per_mtok_output;
        queue_time_ms = queue_time;
        match_reason = reason;
      })

module _ (fl : Floats) (ord : IsOrdered fl) where
  abbrev AllowedOutcome :
      fl.Float → List (InferenceOrder fl) → List (ProviderOffer fl) → Outcome fl → Type 0
  AllowedOutcome now orders offers (matched m) = IsAllowed fl now orders offers m
  AllowedOutcome now orders offers (failed f) = Unit

  settle-IsAllowed :
      (now : fl.Float) (orders : List (InferenceOrder fl)) (offers : List (ProviderOffer fl))
      (order : InferenceOrder fl) (left : Slots fl) (b : Best fl)
      → In order orders
      → is_expired fl now order ≡ false
      → Found fl ord order left offers b.offer b.score
      → AllowedOutcome now orders offers (settle fl now order left b).0
  unfolding settle
  settle-IsAllowed now orders offers order left b m in_time h = elim (Option-cases b.offer) [
    | inl e ↦ rw (e, settle) tt
    | inr (o, e) ↦
        let (member, scored, fit, free) = rw e at h in
        elim (Bool-cases (fl.lt (zero_float fl) b.score)) [
          | inl good ↦
              rw (e, settle, good, scored)
                (allowed order o _ _ m member in_time
                  (compute_score-Meets fl ord order o (rw scored at fit)) (rw scored at good))
          | inr bad ↦ rw (e, settle, bad) tt
        ]
  ]

  serve-IsAllowed :
      (now : fl.Float) (orders : List (InferenceOrder fl)) (offers : List (ProviderOffer fl))
      (order : InferenceOrder fl) (left : Slots fl)
      → In order orders
      → AllowedOutcome now orders offers (serve fl now offers order left).0
  unfolding serve
  serve-IsAllowed now orders offers order left m = elim (Bool-cases (is_expired fl now order)) [
    | inl late ↦ rw late tt
    | inr in_time ↦ rw in_time (
        settle-IsAllowed now orders offers order left (scan fl order left offers (no_best fl)) m
          in_time (scan_lem fl ord order left offers).0)
  ]

  match_loop-IsAllowed :
      (now : fl.Float) (all : List (InferenceOrder fl)) (offers : List (ProviderOffer fl))
      (orders : List (InferenceOrder fl)) (left : Slots fl)
      → All (λ o. In o all) orders
      → All (IsAllowed fl now all offers) (match_loop fl now offers orders left).0
  unfolding match_loop
  match_loop-IsAllowed now all offers [] left h = tt
  match_loop-IsAllowed now all offers (order ∷ orders) left h =
      let s = serve fl now offers order left in
      let rest = match_loop-IsAllowed now all offers orders s.1 h.1 in
      let here = serve-IsAllowed now all offers order left h.0 in
      elim (outcome_cases fl s.0) [
        | inl (m, e) ↦ rw e (rw e at here, rest)
        | inr (f, e) ↦ rw e rest
      ]

  -- Where `<` on floats is a strict order and -1.0 < 0, every match of the greedy strategy pairs
  -- an order of the call that is not expired with an offer of the call that serves its model at an
  -- accepted price with the trust it asks for and a free slot, at the offer's price and with its
  -- score, which is positive.
  pub greedy_match-IsAllowed :
      (now : fl.Float) (orders : List (InferenceOrder fl)) (offers : List (ProviderOffer fl))
      → All (IsAllowed fl now orders offers) (greedy_match fl now orders offers).0
  unfolding greedy_match
  greedy_match-IsAllowed now orders offers =
      match_loop-IsAllowed now orders offers
        (sort_by (λ a b. fl.lt a.submitted_at b.submitted_at) orders) (initial_slots fl [] offers)
        (All-sort_by (λ o. In o orders) (λ a b. fl.lt a.submitted_at b.submitted_at) orders
          (All-of_In (λ o. In o orders) orders (λ o m. m)))
