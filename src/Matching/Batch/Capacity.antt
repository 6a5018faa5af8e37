-- ===== src/Matching/Batch/Capacity.antt =====
-- Proofs about the slots in `BatchAuctionStrategy.match` of
-- inference_exchange/coordinator/matching/strategy.py.
use inference_exchange.Prelude.{
  Floats, ℕ, zero, suc, ◌+◌, ◌≤◌, ◌≡◌, refl, ap, String, Bool, false, not, ◌&&◌, List, [], ◌∷◌,
  ◌==◌, if◌then◌else◌, text_eq, nat_eq, elem, All, count, count-append, length, inl, inr, arith,
  Option-cases,
}
use inference_exchange.Matching.{
  InferenceOrder, ProviderOffer, MatchResult, available_slots, Slots, slots_left, set_slots,
}
use inference_exchange.Matching.Greedy.{matches_of}
use inference_exchange.Matching.Batch.{
  expand, replicate, Candidate, no_pick, pick_slot, Assigned, chosen, assign, solve_assignment,
  result_of, emit, auction, batch_match,
}
use inference_exchange.Matching.Batch.Assignment.{At, Scored, round-IsEntry, sorted-Scored}

module _ (fl : Floats) where
  -- The slots of a provider that are not in `used`, in a list whose first index is `i`.
  abbrev free_slots : String → List ℕ → ℕ → List (ProviderOffer fl) → ℕ
  free_slots id used i [] = 0
  free_slots id used i (o ∷ os) =
      (if (o.provider_id == id) && not (elem i used) then 1 else 0) + free_slots id used (suc i) os

  free_slots-more :
      (id : String) (j : ℕ) (used : List ℕ) (i : ℕ) (os : List (ProviderOffer fl))
      → free_slots id (j ∷ used) i os ≤ free_slots id used i os
  free_slots-more id j used i [] = omega arith
  free_slots-more id j used i (o ∷ os) = ground (arith, free_slots-more id j used (suc i) os)

  -- Taking a slot that was free leaves one less.
  free_slots-taken :
      (id : String) (j : ℕ) (o : ProviderOffer fl) (used : List ℕ) (i : ℕ)
      (os : List (ProviderOffer fl))
      → At fl i j o os
      → elem j used ≡ false
      → (if o.provider_id == id then 1 else 0) + free_slots id (j ∷ used) i os
        ≤ free_slots id used i os
  free_slots-taken id j o used i [] m free = absurd m
  free_slots-taken id j o used i (p ∷ os) (inl (e, f)) free =
      ground (arith, free, e, ap (λ q. q.provider_id) f, free_slots-more id j used (suc i) os)
  free_slots-taken id j o used i (p ∷ os) (inr m) free =
      ground (arith, free_slots-taken id j o used (suc i) os m free)

  free_slots-all :
      (id : String) (i : ℕ) (os : List (ProviderOffer fl))
      → free_slots id [] i os ≤ count (λ o. o.provider_id == id) os
  free_slots-all id i [] = omega arith
  free_slots-all id i (o ∷ os) = ground (arith, free_slots-all id (suc i) os)

  -- A provider is assigned no more orders than it has free slots.
  assign-free_slots :
      (id : String) (used : List ℕ) (slots : List (ProviderOffer fl)) (cs : List (Candidate fl))
      → All (Scored fl slots) cs
      → count (λ a. a.offer.provider_id == id) (assign fl used cs) ≤ free_slots id used 0 slots
  unfolding assign
  assign-free_slots id used slots [] h = omega arith
  assign-free_slots id used slots (c ∷ cs) h =
      elim (Option-cases (chosen fl c.order (pick_slot fl used 0 c.row (no_pick fl)))) [
        | inl e ↦ rw (e, assign) (assign-free_slots id used slots cs h.1)
        | inr (a, e) ↦
            let entry = round-IsEntry fl c used slots a h.0 e in
            rw (e, assign) ground
              (
                arith,
                free_slots-taken id a.slot a.offer used 0 slots entry.stands entry.unused,
                assign-free_slots id (a.slot ∷ used) slots cs h.1,
              )
      ]

  pub emit-count :
      (p : MatchResult fl → Bool) (now : fl.Float) (n k : ℕ) (d : Slots fl)
      (xs : List (Assigned fl))
      → count p (emit fl now n k d xs) ≤ count (λ a. p (result_of fl now n k a)) xs
  unfolding emit
  emit-count p now n k d [] = omega arith
  emit-count p now n k d (a ∷ xs) = ground (
    arith,
    emit-count p now n k
        (set_slots fl a.offer.provider_id (suc (slots_left fl a.offer.provider_id d)) d) xs,
  )

  -- The free slots of all offers of a provider.
  unfoldable pub free_of : String → List (ProviderOffer fl) → ℕ
  free_of id [] = 0
  free_of id (o ∷ offers) =
      (if o.provider_id == id then available_slots fl o else 0) + free_of id offers

  count-replicate :
      (id : String) (n : ℕ) (o : ProviderOffer fl)
      → count (λ p. p.provider_id == id) (replicate fl n o) ≡ (if o.provider_id == id then n else 0)
  count-replicate id zero o = ground arith
  count-replicate id (suc n) o = ground (arith, count-replicate id n o)

  count-expand :
      (id : String) (offers : List (ProviderOffer fl))
      → count (λ p. p.provider_id == id) (expand fl offers) ≡ free_of id offers
  unfolding expand free_of
  count-expand id [] = refl
  count-expand id (o ∷ offers) = ground (
    arith,
    count-append (λ p. p.provider_id == id) (replicate fl (available_slots fl o) o)
        (expand fl offers),
    count-replicate id (available_slots fl o) o,
    count-expand id offers,
  )

  auction-slots :
      (now : fl.Float) (orders : List (InferenceOrder fl)) (n : ℕ) (slots : List (ProviderOffer fl))
      (id : String)
      → matches_of fl id (auction fl now orders n slots).0 ≤ count (λ o. o.provider_id == id) slots
  unfolding auction solve_assignment matches_of
  auction-slots now orders n slots id = omega (
    arith,
    emit-count (λ m. m.provider_id == id) now (length slots) n []
        (solve_assignment fl orders slots),
    assign-free_slots id [] slots _ (sorted-Scored fl orders slots),
    free_slots-all id 0 slots,
  )

  -- The batch auction gives a provider no more orders than the offers under its id have free slots
  -- together.
  pub batch_match-slots :
      (now : fl.Float) (orders : List (InferenceOrder fl)) (offers : List (ProviderOffer fl))
      (id : String)
      → matches_of fl id (batch_match fl now orders offers).0 ≤ free_of id offers
  unfolding batch_match matches_of
  batch_match-slots now orders offers id = ground (
    arith,
    auction-slots now orders (length offers) (expand fl offers) id,
    count-expand id offers,
  )
