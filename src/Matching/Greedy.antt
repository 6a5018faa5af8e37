-- ===== src/Matching/Greedy.antt =====
-- Proofs about the slots in `GreedyStrategy.match` of
-- inference_exchange/coordinator/matching/strategy.py.
use inference_exchange.Prelude.{
  Floats, IsOrdered, ℕ, ◌+◌, ◌-◌, ◌≤◌, ◌≡◌, refl, ap, String, List, [], ◌∷◌, ◌==◌, if◌then◌else◌,
  text_eq, nat_eq, In, In-count, count, sort_by, arith, Bool-cases, Option-cases, ◌⊎◌, inl, inr,
}
use inference_exchange.Matching.{
  InferenceOrder, ProviderOffer, MatchResult, MatchFailure, available_slots, zero_float, Slots,
  slots_left, set_slots, initial_slots, Best, no_best, scan, Outcome, matched, failed, settle,
  serve, is_expired, match_loop, greedy_match,
}
use inference_exchange.Matching.Scan.{Found, scan_lem}

module _ (fl : Floats) where
  slots_left-set_slots :
      (id j : String) (n : ℕ) (d : Slots fl)
      → slots_left fl j (set_slots fl id n d) ≡ (if id == j then n else slots_left fl j d)
  unfolding slots_left set_slots
  slots_left-set_slots id j n [] = refl
  slots_left-set_slots id j n ((k, m) ∷ d) = ground (arith, slots_left-set_slots id j n d)

  unfoldable pub matches_of : String → List (MatchResult fl) → ℕ
  matches_of id = count (λ m. m.provider_id == id)

  -- What one round takes from the slots of a provider, and whether it gave it the order.
  abbrev granted : String → Outcome fl → ℕ
  granted id (matched m) = if m.provider_id == id then 1 else 0
  granted id (failed f) = 0

  pub outcome_cases :
      (r : Outcome fl)
      → ((m : MatchResult fl) × (r ≡ matched m)) ⊎ ((f : MatchFailure fl) × (r ≡ failed f))
  outcome_cases (matched m) = inl (m, refl)
  outcome_cases (failed f) = inr (f, refl)

  module _ (ord : IsOrdered fl) where
    settle-slots :
        (now : fl.Float) (order : InferenceOrder fl) (left : Slots fl)
        (offers : List (ProviderOffer fl)) (b : Best fl) (id : String)
        → Found fl ord order left offers b.offer b.score
        → granted id (settle fl now order left b).0
            + slots_left fl id (settle fl now order left b).1
          ≡ slots_left fl id left
    unfolding settle
    settle-slots now order left offers b id h = elim (Option-cases b.offer) [
      | inl e ↦ rw (e, settle) (omega arith)
      | inr (o, e) ↦
          let free : 1 ≤ slots_left fl o.provider_id left = (rw e at h).3 in
          elim (Bool-cases (fl.lt (zero_float fl) b.score)) [
            | inl good ↦
                rw (e, settle, good) ground
                  (
                    arith,
                    free,
                    slots_left-set_slots o.provider_id id (slots_left fl o.provider_id left - 1)
                        left,
                  )
            | inr bad ↦ rw (e, settle, bad) (omega arith)
          ]
    ]

    serve-slots :
        (now : fl.Float) (order : InferenceOrder fl) (left : Slots fl)
        (offers : List (ProviderOffer fl)) (id : String)
        → granted id (serve fl now offers order left).0
            + slots_left fl id (serve fl now offers order left).1
          ≡ slots_left fl id left
    unfolding serve
    serve-slots now order left offers id = elim (Bool-cases (is_expired fl now order)) [
      | inl late ↦ rw late (omega arith)
      | inr open_order ↦ rw open_order (
          settle-slots now order left offers (scan fl order left offers (no_best fl)) id
            (scan_lem fl ord order left offers).0)
    ]

    -- A provider is given no more orders than it has slots.
    match_loop-slots :
        (now : fl.Float) (offers : List (ProviderOffer fl)) (orders : List (InferenceOrder fl))
        (left : Slots fl) (id : String)
        → matches_of id (match_loop fl now offers orders left).0 ≤ slots_left fl id left
    unfolding match_loop matches_of
    match_loop-slots now offers [] left id = omega arith
    match_loop-slots now offers (order ∷ orders) left id =
        let s = serve fl now offers order left in
        elim (outcome_cases s.0) [
          | inl (m, e) ↦ rw e ground (
            arith,
            rw e at (serve-slots now order left offers id),
            match_loop-slots now offers orders s.1 id,
          )
          | inr (f, e) ↦ rw e ground (
            arith,
            rw e at (serve-slots now order left offers id),
            match_loop-slots now offers orders s.1 id,
          )
        ]

  initial_slots-absent :
      (d : Slots fl) (offers : List (ProviderOffer fl)) (id : String)
      → count (λ o. o.provider_id == id) offers ≡ 0
      → slots_left fl id (initial_slots fl d offers) ≡ slots_left fl id d
  unfolding initial_slots
  initial_slots-absent d [] id h = refl
  initial_slots-absent d (o ∷ offers) id h = ground (
    arith,
    slots_left-set_slots o.provider_id id (available_slots fl o) d,
    initial_slots-absent (set_slots fl o.provider_id (available_slots fl o) d) offers id,
  )

  initial_slots-only :
      (d : Slots fl) (offers : List (ProviderOffer fl)) (o : ProviderOffer fl)
      → In o offers
      → count (λ p. p.provider_id == o.provider_id) offers ≡ 1
      → slots_left fl o.provider_id (initial_slots fl d offers) ≡ available_slots fl o
  unfolding initial_slots
  initial_slots-only d [] o m h = absurd m
  initial_slots-only d (p ∷ offers) o (inl e) h = ground (
    arith,
    h,
    ap (λ q. q.provider_id) e,
    ap (λ q. available_slots fl q) e,
    slots_left-set_slots p.provider_id o.provider_id (available_slots fl p) d,
    initial_slots-absent (set_slots fl p.provider_id (available_slots fl p) d) offers o.provider_id,
  )
  initial_slots-only d (p ∷ offers) o (inr m) h = ground (
    arith,
    h,
    initial_slots-only (set_slots fl p.provider_id (available_slots fl p) d) offers o m,
    In-count (λ q. q.provider_id == o.provider_id) offers o m (ground arith),
  )

  -- Where `<` on floats is a strict order and -1.0 < 0, a provider with exactly one offer in a
  -- call of the greedy strategy gets no more orders than that offer has slots available.
  pub greedy_match-slots :
      (ord : IsOrdered fl) (now : fl.Float) (orders : List (InferenceOrder fl))
      (offers : List (ProviderOffer fl)) (o : ProviderOffer fl)
      → In o offers
      → count (λ p. p.provider_id == o.provider_id) offers ≡ 1
      → matches_of o.provider_id (greedy_match fl now orders offers).0 ≤ available_slots fl o
  unfolding greedy_match
  greedy_match-slots ord now orders offers o m h = rw (← initial_slots-only [] offers o m h) (
      match_loop-slots ord now offers (sort_by (λ a b. fl.lt a.submitted_at b.submitted_at) orders)
        (initial_slots fl [] offers) o.provider_id)
