-- ===== src/Matching/Batch/Matches.antt =====
-- Proofs about the matches and failures that `BatchAuctionStrategy.match` of
-- inference_exchange/coordinator/matching/strategy.py returns.
use inference_exchange.Prelude.{
  Floats, IsOrdered, ℕ, zero, suc, ◌≤◌, ◌≡◌, refl, sym, ap, ◌∙◌, String, Bool, true, false, ◌||◌,
  List, [], ◌∷◌, ◌++◌, map, ◌==◌, if◌then◌else◌, text_eq, nat_eq, any, In, All, count,
  count-sort_by, length, ◌⊎◌, inl, inr, arith, Bool-cases, ltb_ℤ, pos,
}
use inference_exchange.Matching.{
  InferenceOrder, ProviderOffer, MatchReason, MatchResult, FailureReason, compute_score, zero_float,
  Slots, slots_left, set_slots, available_slots, no_provider, no_capacity,
}
use inference_exchange.Matching.Scan.{Meets, compute_score-Meets}
use inference_exchange.Matching.Outcomes.{outcomes_for}
use inference_exchange.Matching.Batch.{
  expand, replicate, candidates, more_constrained, Assigned, solve_assignment, result_of, emit,
  unserved_order, unmatched, auction, is_empty, batch_match,
}
use inference_exchange.Matching.Batch.Assignment.{
  IsAssignment, assign-IsAssignment, sorted-Stands, assign-count, sorted-Scored,
}
use inference_exchange.Matching.Batch.Capacity.{emit-count}

-- A match that the hard constraints allow, with the offer's price and its score.
pub data IsFair (fl : Floats) (orders : List (InferenceOrder fl)) (offers : List (ProviderOffer fl))
    : MatchResult fl → Type 0 where
  fair :
      (order : InferenceOrder fl) (offer : ProviderOffer fl) (queue_time : fl.Float)
      (reason : MatchReason)
      → In order orders
      → In offer offers
      → Meets fl order offer
      → fl.lt (zero_float fl) (compute_score fl order offer) ≡ true
      → IsFair fl orders offers (record {
        order_id = order.order_id;
        provider_id = offer.provider_id;
        score = compute_score fl order offer;
        price_per_mtok_output = offer.price_per_mtok_output;
        queue_time_ms = queue_time;
        match_reason = reason;
      })

module _ (fl : Floats) (ord : IsOrdered fl) where
  open ord use {lt_irrefl, lt_trans}

  positive-Meets :
      (order : InferenceOrder fl) (offer : ProviderOffer fl)
      → fl.lt (zero_float fl) (compute_score fl order offer) ≡ true
      → Meets fl order offer
  positive-Meets order offer h =
      elim (Bool-cases (fl.lt (compute_score fl order offer) (zero_float fl))) [
        | inl negative ↦ absurd (
            let k : true ≡ false = sym (lt_trans _ _ _ h negative) ∙ lt_irrefl (zero_float fl) in
            cc k)
        | inr fit ↦ compute_score-Meets fl ord order offer fit
      ]

  result_of-IsFair :
      (now : fl.Float) (n k : ℕ) (orders : List (InferenceOrder fl))
      (slots : List (ProviderOffer fl)) (a : Assigned fl)
      → IsAssignment fl orders slots a
      → IsFair fl orders slots (result_of fl now n k a)
  result_of-IsFair now n k orders slots a h =
      let good = rw h.own_score at h.positive_score in
      rw h.own_score (
        fair a.order a.offer _ _ h.from_order h.from_offer (positive-Meets a.order a.offer good)
          good)

  emit-IsFair :
      (now : fl.Float) (n k : ℕ) (orders : List (InferenceOrder fl))
      (slots : List (ProviderOffer fl)) (d : Slots fl) (xs : List (Assigned fl))
      → All (IsAssignment fl orders slots) xs
      → All (IsFair fl orders slots) (emit fl now n k d xs)
  unfolding emit
  emit-IsFair now n k orders slots d [] h = tt
  emit-IsFair now n k orders slots d (a ∷ xs) h =
      let rest =
        emit-IsFair now n k orders slots
          (set_slots fl a.offer.provider_id (suc (slots_left fl a.offer.provider_id d)) d) xs h.1 in
      elim (Bool-cases
        (ltb_ℤ a.offer.total_slots (pos (suc (slots_left fl a.offer.provider_id d))))) [
          | inl full ↦ rw (full, emit) rest
          | inr room ↦ rw (room, emit) (result_of-IsFair now n k orders slots a h.0, rest)
        ]

  -- A slot's offer is one of the offers.
  In-replicate : (n : ℕ) (o p : ProviderOffer fl) → In p (replicate fl n o) → o ≡ p
  In-replicate zero o p m = absurd m
  In-replicate (suc n) o p (inl e) = e
  In-replicate (suc n) o p (inr m) = In-replicate n o p m

  In-append :
      (xs ys : List (ProviderOffer fl)) (p : ProviderOffer fl) → In p (xs ++ ys) → In p xs ⊎ In p ys
  In-append [] ys p m = inr m
  In-append (x ∷ xs) ys p (inl e) = inl (inl e)
  In-append (x ∷ xs) ys p (inr m) = elim (In-append xs ys p m) [
    | inl l ↦ inl (inr l)
    | inr r ↦ inr r
  ]

  In-expand :
      (offers : List (ProviderOffer fl)) (p : ProviderOffer fl)
      → In p (expand fl offers)
      → In p offers
  unfolding expand
  In-expand [] p m = m
  In-expand (o ∷ offers) p m =
      elim (In-append (replicate fl (available_slots fl o) o) (expand fl offers) p m) [
        | inl l ↦ inl (In-replicate (available_slots fl o) o p l)
        | inr r ↦ inr (In-expand offers p r)
      ]

  All-mono :
      {P Q : MatchResult fl → Type 0}
      → ((m : MatchResult fl) → P m → Q m)
      → (ms : List (MatchResult fl)) → All P ms
      → All Q ms
  All-mono f [] h = tt
  All-mono f (m ∷ ms) h = (f m h.0, All-mono f ms h.1)

  IsFair-In :
      (orders : List (InferenceOrder fl)) (slots offers : List (ProviderOffer fl))
      → ((p : ProviderOffer fl) → In p slots → In p offers)
      → (m : MatchResult fl) → IsFair fl orders slots m
      → IsFair fl orders offers m
  IsFair-In orders slots offers sub _ (fair order offer q r m n h s) =
      fair order offer q r m (sub offer n) h s

  auction-IsFair :
      (now : fl.Float) (orders : List (InferenceOrder fl)) (n : ℕ) (slots : List (ProviderOffer fl))
      → All (IsFair fl orders slots) (auction fl now orders n slots).0
  unfolding auction solve_assignment
  auction-IsFair now orders n slots =
      emit-IsFair now (length slots) n orders slots [] (solve_assignment fl orders slots)
        (assign-IsAssignment fl orders slots [] _ (sorted-Stands fl orders slots))

  -- Where `<` on floats is a strict order and -1.0 < 0, every match of the batch auction pairs an
  -- order of the call with an offer of the call that serves its model at an accepted price with
  -- the trust it asks for and a free slot, at the offer's price and with its score, which is
  -- positive.
  pub batch_match-IsFair :
      (now : fl.Float) (orders : List (InferenceOrder fl)) (offers : List (ProviderOffer fl))
      → All (IsFair fl orders offers) (batch_match fl now orders offers).0
  unfolding batch_match
  batch_match-IsFair now orders offers =
      let fair_matches =
        All-mono (IsFair-In orders (expand fl offers) offers (In-expand offers)) _
          (auction-IsFair now orders (length offers) (expand fl offers)) in
      elim (Bool-cases (is_empty fl orders || is_empty fl offers)) [
        | inl nobody ↦ rw (nobody, batch_match) tt
        | inr somebody ↦ elim (Bool-cases (is_empty fl (expand fl offers))) [
          | inl full ↦ rw (somebody, full, batch_match) tt
          | inr room ↦ rw (somebody, room, batch_match) fair_matches
        ]
      ]

module _ (fl : Floats) where
  -- The failures under an id are the orders under it, or none where one was matched.
  unmatched-count :
      (now : fl.Float) (ms : List (MatchResult fl)) (id : String)
      (orders : List (InferenceOrder fl))
      → count (λ f. f.order_id == id) (unmatched fl now ms orders)
        ≡ (if any (λ m. m.order_id == id) ms then 0 else count (λ o. o.order_id == id) orders)
  unfolding unmatched
  unmatched-count now ms id [] = ground arith
  unmatched-count now ms id (o ∷ orders) = elim (Bool-cases (o.order_id == id)) [
    | inl e ↦
        let same : o.order_id ≡ id = ground (arith, e) in
        let matched_too = ap (λ t. any (λ m. m.order_id == t) ms) same in
        ground (arith, e, matched_too, unmatched-count now ms id orders)
    | inr e ↦ ground (arith, e, unmatched-count now ms id orders)
  ]

  any-count :
      (p : MatchResult fl → Bool) (ms : List (MatchResult fl)) → any p ms ≡ false → count p ms ≡ 0
  any-count p [] h = refl
  any-count p (m ∷ ms) h = ground (arith, any-count p ms)

  any-count_one :
      (p : MatchResult fl → Bool) (ms : List (MatchResult fl)) → any p ms ≡ true → 1 ≤ count p ms
  any-count_one p [] h = absurd (cc h)
  any-count_one p (m ∷ ms) h = ground (arith, any-count_one p ms)

  candidates-count :
      (id : String) (i : ℕ) (orders : List (InferenceOrder fl)) (slots : List (ProviderOffer fl))
      → count (λ c. c.order.order_id == id) (candidates fl i orders slots)
        ≡ count (λ o. o.order_id == id) orders
  unfolding candidates
  candidates-count id i [] slots = refl
  candidates-count id i (o ∷ orders) slots =
      ground (arith, candidates-count id (suc i) orders slots)

  auction-count :
      (now : fl.Float) (orders : List (InferenceOrder fl)) (n : ℕ) (slots : List (ProviderOffer fl))
      (id : String)
      → count (λ m. m.order_id == id) (auction fl now orders n slots).0
        ≤ count (λ o. o.order_id == id) orders
  unfolding auction solve_assignment
  auction-count now orders n slots id = omega (
    arith,
    emit-count fl (λ m. m.order_id == id) now (length slots) n []
        (solve_assignment fl orders slots),
    assign-count fl id [] slots _ (sorted-Scored fl orders slots),
    count-sort_by (more_constrained fl) (λ c. c.order.order_id == id)
        (candidates fl 0 orders slots),
    candidates-count id 0 orders slots,
  )

  auction-outcomes_for :
      (now : fl.Float) (orders : List (InferenceOrder fl)) (n : ℕ) (slots : List (ProviderOffer fl))
      (id : String)
      → count (λ o. o.order_id == id) orders ≤ 1
      → outcomes_for fl id (auction fl now orders n slots) ≡ count (λ o. o.order_id == id) orders
  unfolding outcomes_for auction
  auction-outcomes_for now orders n slots id one =
      let ms = (auction fl now orders n slots).0 in
      elim (Bool-cases (any (λ m. m.order_id == id) ms)) [
        | inl e ↦ omega (
          arith,
          auction-count now orders n slots id,
          any-count_one (λ m. m.order_id == id) ms e,
          rw e at (unmatched-count now ms id orders),
        )
        | inr e ↦ omega (
          arith,
          any-count (λ m. m.order_id == id) ms e,
          rw e at (unmatched-count now ms id orders),
        )
      ]

  failures-count :
      (r : FailureReason fl) (id : String) (orders : List (InferenceOrder fl))
      → count (λ f. f.order_id == id) (map (unserved_order fl r) orders)
        ≡ count (λ o. o.order_id == id) orders
  failures-count r id [] = refl
  failures-count r id (o ∷ orders) = ground (arith, failures-count r id orders)

  -- Where at most one order of the call has an id, the batch auction returns exactly one match or
  -- failure for that id if it has one, and none otherwise.
  pub batch_match-outcomes_for :
      (now : fl.Float) (orders : List (InferenceOrder fl)) (offers : List (ProviderOffer fl))
      (id : String)
      → count (λ o. o.order_id == id) orders ≤ 1
      → outcomes_for fl id (batch_match fl now orders offers) ≡ count (λ o. o.order_id == id) orders
  unfolding batch_match outcomes_for
  batch_match-outcomes_for now orders offers id one = ground (
    arith,
    one,
    failures-count no_provider id orders,
    failures-count no_capacity id orders,
    auction-outcomes_for now orders (length offers) (expand fl offers) id one,
  )
