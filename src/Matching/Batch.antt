-- ===== src/Matching/Batch.antt =====
-- `BatchAuctionStrategy` of inference_exchange/coordinator/matching/strategy.py.
pub mod Assignment
pub mod Capacity
pub mod Matches
use inference_exchange.Prelude.{
  Floats, ℕ, zero, suc, ℤ, pos, ◌+◌, String, Bool, true, false, not, ◌&&◌, ◌||◌, Option, none, some,
  List, [], ◌∷◌, ◌++◌, map, ◌==◌, if◌then◌else◌, text_eq, nat_eq, ltb, elem, any, count, length,
  sort_by, ltb_ℤ,
}
use inference_exchange.Matching.{
  InferenceOrder, ProviderOffer, MatchResult, MatchFailure, FailureReason, timeout, no_provider,
  no_capacity, best_of_slots, is_expired, available_slots, compute_score, minus_one, zero_float,
  Slots, slots_left, set_slots,
}

module _ (fl : Floats) where
  open fl use {Float, of_int, sub, mul, lt}

  abbrev replicate : ℕ → ProviderOffer fl → List (ProviderOffer fl)
  replicate zero o = []
  replicate (suc n) o = o ∷ replicate n o

  -- `expanded_offers`: an offer once for each of its free slots.
  unfoldable pub expand : List (ProviderOffer fl) → List (ProviderOffer fl)
  expand [] = []
  expand (o ∷ offers) = replicate (available_slots fl o) o ++ expand offers

  -- A row of `scores`, each score with the offer of its slot.
  abbrev pub Row : Type 0
  Row = List (ProviderOffer fl × Float)

  abbrev pub row_of : InferenceOrder fl → List (ProviderOffer fl) → Row
  row_of order = map (λ o. (o, compute_score fl order o))

  -- `(count, i)` of `eligibility_count`, with the order and the row that `i` stands for.
  pub record Candidate : Type 0 where
    pub eligible : ℕ
    pub index : ℕ
    pub order : InferenceOrder fl
    pub row : Row

  abbrev pub candidate : ℕ → InferenceOrder fl → List (ProviderOffer fl) → Candidate
  candidate i order slots = record {
    eligible = count (λ e. lt (zero_float fl) e.1) (row_of order slots);
    index = i;
    order = order;
    row = row_of order slots;
  }

  -- `eligibility_count` for the orders from index `i` on.
  unfoldable pub candidates :
      ℕ → List (InferenceOrder fl) → List (ProviderOffer fl) → List Candidate
  candidates i [] slots = []
  candidates i (order ∷ orders) slots = candidate i order slots ∷ candidates (suc i) orders slots

  -- The order of the tuples `(count, i)`.
  abbrev pub more_constrained : Candidate → Candidate → Bool
  more_constrained a b =
      ltb a.eligible b.eligible || ((a.eligible == b.eligible) && ltb a.index b.index)

  -- `best_slot` and `best_score`; no slot is the index -1.
  pub record Pick : Type 0 where
    pub slot : Option (ℕ × ProviderOffer fl)
    pub score : Float

  abbrev pub no_pick : Pick
  no_pick = record { slot = none; score = minus_one fl }

  -- One round of the loop over the slots.
  unfoldable pub try_slot : List ℕ → ℕ → ProviderOffer fl → Float → Pick → Pick
  try_slot used j o s b =
      if elem j used
      then b
      else if lt b.score s
      then record { slot = some (j, o); score = s }
      else b

  -- The loop over the slots from index `j` on.
  unfoldable pub pick_slot : List ℕ → ℕ → Row → Pick → Pick
  unfolding try_slot
  pick_slot used j [] b = b
  pick_slot used j ((o, s) ∷ row) b = pick_slot used (suc j) row (try_slot used j o s b)

  -- An entry of `assignment`, with the order, the offer and the score its indices stand for.
  pub record Assigned : Type 0 where
    pub order : InferenceOrder fl
    pub slot : ℕ
    pub offer : ProviderOffer fl
    pub score : Float

  -- The end of a round of `_solve_assignment`: the entry it appends, if any.
  unfoldable pub chosen : InferenceOrder fl → Pick → Option Assigned
  chosen order b = elim b.slot [
    | none ↦ none
    | some (j, o) ↦
        if lt (zero_float fl) b.score
        then some (record { order = order; slot = j; offer = o; score = b.score })
        else none
  ]

  unfoldable pub assign : List ℕ → List Candidate → List Assigned
  unfolding pick_slot chosen
  assign used [] = []
  assign used (c ∷ cs) = elim (chosen c.order (pick_slot used 0 c.row no_pick)) [
    | none ↦ assign used cs
    | some a ↦ a ∷ assign (a.slot ∷ used) cs
  ]

  unfoldable pub solve_assignment :
      List (InferenceOrder fl) → List (ProviderOffer fl) → List Assigned
  unfolding assign candidates
  solve_assignment orders slots = assign [] (sort_by more_constrained (candidates 0 orders slots))

  abbrev pub result_of : Float → ℕ → ℕ → Assigned → MatchResult fl
  result_of now n_slots n_offers a = record {
    order_id = a.order.order_id;
    provider_id = a.offer.provider_id;
    score = a.score;
    price_per_mtok_output = a.offer.price_per_mtok_output;
    queue_time_ms = mul (sub now a.order.submitted_at) (of_int (pos 1000));
    match_reason = best_of_slots n_slots n_offers;
  }

  -- The loop over `assignment`, with `consumed_slots`.
  unfoldable pub emit : Float → ℕ → ℕ → Slots fl → List Assigned → List (MatchResult fl)
  unfolding slots_left set_slots
  emit now n_slots n_offers consumed [] = []
  emit now n_slots n_offers consumed (a ∷ rest) =
      let n = suc (slots_left fl a.offer.provider_id consumed) in
      let later = emit now n_slots n_offers (set_slots fl a.offer.provider_id n consumed) rest in
      if ltb_ℤ a.offer.total_slots (pos n) then later else result_of now n_slots n_offers a ∷ later

  abbrev pub unserved_order : FailureReason fl → InferenceOrder fl → MatchFailure fl
  unserved_order reason order = record {
    order_id = order.order_id;
    reason = reason;
    eligible_providers = 0;
    available_providers = 0;
  }

  abbrev pub is_matched : List (MatchResult fl) → InferenceOrder fl → Bool
  is_matched matches order = any (λ m. m.order_id == order.order_id) matches

  -- The loop over the orders that were not matched.
  unfoldable pub unmatched :
      Float → List (MatchResult fl) → List (InferenceOrder fl) → List (MatchFailure fl)
  unmatched now matches [] = []
  unmatched now matches (order ∷ orders) =
      let rest = unmatched now matches orders in
      if is_matched matches order
      then rest
      else unserved_order (if is_expired fl now order then timeout else no_capacity) order ∷ rest

  -- `BatchAuctionStrategy.match` with at least one slot; `now` is the clock during the call.
  unfoldable pub auction :
      Float
      → List (InferenceOrder fl)
      → ℕ
      → List (ProviderOffer fl)
      → List (MatchResult fl) × List (MatchFailure fl)
  unfolding emit unmatched solve_assignment
  auction now orders n_offers slots =
      let matches = emit now (length slots) n_offers [] (solve_assignment orders slots) in
      (matches, unmatched now matches orders)

  abbrev is_empty {ℓ} : {A : Type ℓ} → List A → Bool
  is_empty [] = true
  is_empty (x ∷ xs) = false

  -- `BatchAuctionStrategy.match`
  unfoldable pub batch_match :
      Float
      → List (InferenceOrder fl)
      → List (ProviderOffer fl)
      → List (MatchResult fl) × List (MatchFailure fl)
  unfolding auction expand
  batch_match now orders offers =
      if is_empty orders || is_empty offers
      then ([], map (unserved_order no_provider) orders)
      else if is_empty (expand offers)
      then ([], map (unserved_order no_capacity) orders)
      else auction now orders (length offers) (expand offers)
