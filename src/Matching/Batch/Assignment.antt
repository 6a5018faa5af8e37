-- ===== src/Matching/Batch/Assignment.antt =====
-- Proofs about `_solve_assignment` and the matches and failures of `BatchAuctionStrategy.match` in
-- inference_exchange/coordinator/matching/strategy.py.
use inference_exchange.Prelude.{
  Floats, ℕ, suc, ◌≤◌, ◌≡◌, refl, sym, ap, subst, String, true, false, Option, none, some, List, [],
  ◌∷◌, ◌==◌, text_eq, nat_eq, elem, In, All, All-sort_by, count, sort_by, ◌⊎◌, inl, inr, arith,
  Bool-cases, Option-cases,
}
use inference_exchange.Matching.{InferenceOrder, ProviderOffer, compute_score, zero_float}
use inference_exchange.Matching.Batch.{
  row_of, Candidate, candidates, more_constrained, Pick, no_pick, try_slot, pick_slot, Assigned,
  chosen, assign,
}

module _ (fl : Floats) where
  -- The offer `o` has the index `j` in the list, whose first index is `i`.
  abbrev pub At : ℕ → ℕ → ProviderOffer fl → List (ProviderOffer fl) → Type 0
  At i j o [] = ⊥
  At i j o (x ∷ xs) = ((i ≡ j) × (x ≡ o)) ⊎ At (suc i) j o xs

  pub At-In :
      (i j : ℕ) (o : ProviderOffer fl) (xs : List (ProviderOffer fl)) → At i j o xs → In o xs
  At-In i j o [] m = m
  At-In i j o (x ∷ xs) (inl e) = inl e.1
  At-In i j o (x ∷ xs) (inr m) = inr (At-In (suc i) j o xs m)

  -- What the loop over the slots has found.
  abbrev pub Picked :
      InferenceOrder fl
      → List ℕ
      → List (ProviderOffer fl)
      → Option (ℕ × ProviderOffer fl)
      → fl.Float
      → Type 0
  Picked order used slots none s = Unit
  Picked order used slots (some (j, o)) s =
      At 0 j o slots × (elem j used ≡ false) × (s ≡ compute_score fl order o)

  try_slot-Picked :
      (order : InferenceOrder fl) (used : List ℕ) (slots : List (ProviderOffer fl)) (j : ℕ)
      (o : ProviderOffer fl) (b : Pick fl)
      → At 0 j o slots
      → Picked order used slots b.slot b.score
      → let b' = try_slot fl used j o (compute_score fl order o) b in
        Picked order used slots b'.slot b'.score
  unfolding try_slot
  try_slot-Picked order used slots j o b m h = elim (Bool-cases (elem j used)) [
    | inl taken ↦ rw taken h
    | inr free ↦ elim (Bool-cases (fl.lt b.score (compute_score fl order o))) [
      | inl better ↦ rw (free, better) (m, free, refl)
      | inr worse ↦ rw (free, worse) h
    ]
  ]

  pick_slot-Picked :
      (order : InferenceOrder fl) (used : List ℕ) (all : List (ProviderOffer fl)) (i : ℕ)
      (slots : List (ProviderOffer fl)) (b : Pick fl)
      → ((j : ℕ) (o : ProviderOffer fl) → At i j o slots → At 0 j o all)
      → Picked order used all b.slot b.score
      → Picked order used all
          (pick_slot fl used i (row_of fl order slots) b).slot
          (pick_slot fl used i (row_of fl order slots) b).score
  unfolding pick_slot
  pick_slot-Picked order used all i [] b sub h = h
  pick_slot-Picked order used all i (o ∷ slots) b sub h =
      pick_slot-Picked order used all (suc i) slots
        (try_slot fl used i o (compute_score fl order o) b) (λ j p m. sub j p (inr m))
        (try_slot-Picked order used all i o b (sub i o (inl (refl, refl))) h)

  -- An entry of the assignment while the slots in `used` are taken.
  pub record IsEntry (slots : List (ProviderOffer fl)) (used : List ℕ) (order : InferenceOrder fl)
      (a : Assigned fl) : Type 0 where
    pub same_order : a.order ≡ order
    pub stands : At 0 a.slot a.offer slots
    pub unused : elem a.slot used ≡ false
    pub scored : a.score ≡ compute_score fl order a.offer
    pub positive : fl.lt (zero_float fl) a.score ≡ true

  chosen-IsEntry :
      (order : InferenceOrder fl) (used : List ℕ) (slots : List (ProviderOffer fl)) (b : Pick fl)
      (a : Assigned fl)
      → Picked order used slots b.slot b.score
      → chosen fl order b ≡ some a
      → IsEntry slots used order a
  unfolding chosen
  chosen-IsEntry order used slots b a h k = elim (Option-cases b.slot) [
    | inl e ↦ absurd (let q : none ≡ some a = rw (e, chosen) at k in cc)
    | inr ((j, o), e) ↦ elim (Bool-cases (fl.lt (zero_float fl) b.score)) [
      | inl good ↦
          let same : some (record { order = order; slot = j; offer = o; score = b.score })
              ≡ some a =
            rw (e, good, chosen) at k in
          let (stands, unused, scored) = rw e at h in
          subst (IsEntry slots used order) (cc same) (record {
            same_order = refl;
            stands = stands;
            unused = unused;
            scored = scored;
            positive = good;
          })
      | inr bad ↦ absurd (let q : none ≡ some a = rw (e, bad, chosen) at k in cc)
    ]
  ]

  -- The row of a candidate is that of its order.
  abbrev pub Scored : List (ProviderOffer fl) → Candidate fl → Type 0
  Scored slots c = c.row ≡ row_of fl c.order slots

  candidates-Scored :
      (i : ℕ) (orders : List (InferenceOrder fl)) (slots : List (ProviderOffer fl))
      → All (Scored slots) (candidates fl i orders slots)
  unfolding candidates
  candidates-Scored i [] slots = tt
  candidates-Scored i (o ∷ orders) slots = (refl, candidates-Scored (suc i) orders slots)

  -- What one round of the loop over the candidates gives.
  pub round-IsEntry :
      (c : Candidate fl) (used : List ℕ) (slots : List (ProviderOffer fl)) (a : Assigned fl)
      → Scored slots c
      → chosen fl c.order (pick_slot fl used 0 c.row (no_pick fl)) ≡ some a
      → IsEntry slots used c.order a
  round-IsEntry c used slots a e h =
      chosen-IsEntry c.order used slots (pick_slot fl used 0 (row_of fl c.order slots) (no_pick fl))
        a (pick_slot-Picked c.order used slots 0 slots (no_pick fl) (λ j o m. m) tt) (rw e at h)

  -- An assignment of orders of the call to offers of the call, by their scores.
  pub record IsAssignment (orders : List (InferenceOrder fl)) (slots : List (ProviderOffer fl))
      (a : Assigned fl) : Type 0 where
    pub from_order : In a.order orders
    pub from_offer : In a.offer slots
    pub own_score : a.score ≡ compute_score fl a.order a.offer
    pub positive_score : fl.lt (zero_float fl) a.score ≡ true

  entry-IsAssignment :
      (orders : List (InferenceOrder fl)) (slots : List (ProviderOffer fl)) (used : List ℕ)
      (order : InferenceOrder fl) (a : Assigned fl)
      → In order orders
      → IsEntry slots used order a
      → IsAssignment orders slots a
  entry-IsAssignment orders slots used order a m h = record {
    from_order = subst (λ o. In o orders) (sym h.same_order) m;
    from_offer = At-In 0 a.slot a.offer slots h.stands;
    own_score = cc (h.scored, h.same_order);
    positive_score = h.positive;
  }

  -- A candidate that stands for an order of the call.
  abbrev pub Stands : List (InferenceOrder fl) → List (ProviderOffer fl) → Candidate fl → Type 0
  Stands orders slots c = In c.order orders × Scored slots c

  candidates-Stands :
      (all : List (InferenceOrder fl)) (i : ℕ) (orders : List (InferenceOrder fl))
      (slots : List (ProviderOffer fl))
      → ((o : InferenceOrder fl) → In o orders → In o all)
      → All (Stands all slots) (candidates fl i orders slots)
  unfolding candidates
  candidates-Stands all i [] slots sub = tt
  candidates-Stands all i (o ∷ orders) slots sub =
      ((sub o (inl refl), refl), candidates-Stands all (suc i) orders slots (λ p m. sub p (inr m)))

  pub sorted-Stands :
      (orders : List (InferenceOrder fl)) (slots : List (ProviderOffer fl))
      → All (Stands orders slots) (sort_by (more_constrained fl) (candidates fl 0 orders slots))
  sorted-Stands orders slots =
      All-sort_by (Stands orders slots) (more_constrained fl) (candidates fl 0 orders slots)
        (candidates-Stands orders 0 orders slots (λ o m. m))

  pub sorted-Scored :
      (orders : List (InferenceOrder fl)) (slots : List (ProviderOffer fl))
      → All (Scored slots) (sort_by (more_constrained fl) (candidates fl 0 orders slots))
  sorted-Scored orders slots =
      All-sort_by (Scored slots) (more_constrained fl) (candidates fl 0 orders slots)
        (candidates-Scored 0 orders slots)

  pub assign-IsAssignment :
      (orders : List (InferenceOrder fl)) (slots : List (ProviderOffer fl)) (used : List ℕ)
      (cs : List (Candidate fl))
      → All (Stands orders slots) cs
      → All (IsAssignment orders slots) (assign fl used cs)
  unfolding assign
  assign-IsAssignment orders slots used [] h = tt
  assign-IsAssignment orders slots used (c ∷ cs) h =
      elim (Option-cases (chosen fl c.order (pick_slot fl used 0 c.row (no_pick fl)))) [
        | inl e ↦ rw (e, assign) (assign-IsAssignment orders slots used cs h.1)
        | inr (a, e) ↦
            rw (e, assign)
              (
                entry-IsAssignment orders slots used c.order a h.0.0
                    (round-IsEntry c used slots a h.0.1 e),
                assign-IsAssignment orders slots (a.slot ∷ used) cs h.1,
              )
      ]

  -- Every order is assigned at most once for each time it stands among the candidates.
  pub assign-count :
      (id : String) (used : List ℕ) (slots : List (ProviderOffer fl)) (cs : List (Candidate fl))
      → All (Scored slots) cs
      → count (λ a. a.order.order_id == id) (assign fl used cs)
        ≤ count (λ c. c.order.order_id == id) cs
  unfolding assign
  assign-count id used slots [] h = omega arith
  assign-count id used slots (c ∷ cs) h =
      elim (Option-cases (chosen fl c.order (pick_slot fl used 0 c.row (no_pick fl)))) [
        | inl e ↦ rw (e, assign) ground (arith, assign-count id used slots cs h.1)
        | inr (a, e) ↦
            let same = (round-IsEntry c used slots a h.0 e).same_order in
            rw (e, assign) ground
              (arith, ap (λ o. o.order_id) same, assign-count id (a.slot ∷ used) slots cs h.1)
      ]
