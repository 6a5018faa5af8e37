-- ===== src/Store/Outcomes/Retention.antt =====
-- Proofs about the interruption and the pruning of request outcomes in
-- inference_exchange/coordinator/store.py.
use inference_exchange.Prelude.{
  ◌-◌, ◌≤◌, ◌≡◌, refl, true, false, not, List, [], ◌∷◌, map, update, delete, length, drop, text_eq,
  ltb, elem, sort_by, count-sort_by, In, All, All-of_In, All-update, All-delete, ◌⊎◌, inl, inr,
  arith, ap, length-delete, count-le-drop, count-none, All-delete_test, String_discrete,
}
use inference_exchange.Store.Schema.{Time, RequestOutcome, Db}
use inference_exchange.Store.Outcomes.{
  newer, overflow_ids, prune_rows, prune_outcomes, is_in_flight, interrupted,
  interrupt_request_outcomes, max_rows, retention,
}

pub prune-All :
    (P : RequestOutcome → Type 0) (now : Time) (rows : List RequestOutcome)
    → All P rows
    → All P (prune_rows now rows)
unfolding prune_rows
prune-All P now rows h = All-delete P _ _ (All-delete P _ rows h)

-- A row after the interruption at start-up.
abbrev pub Interrupts : List RequestOutcome → RequestOutcome → Type 0
Interrupts old o' =
    In o' old ⊎ ((o : RequestOutcome) × In o old × (is_in_flight o ≡ true) × (o' ≡ interrupted o))

interrupted-Interrupts :
    (rows : List RequestOutcome) → All (Interrupts rows) (update is_in_flight interrupted rows)
interrupted-Interrupts rows =
    All-update (λ o. In o rows) (Interrupts rows) is_in_flight interrupted rows
      (All-of_In _ rows (λ o m. m)) (λ o m e. inr (o, m, e, refl)) (λ o m e. inl m)

settled-interrupted : (o : RequestOutcome) → is_in_flight (interrupted o) ≡ false
unfolding String_discrete
settled-interrupted o = refl

-- After the interruption at start-up each outcome is an old row unchanged or an old row in flight
-- that is now interrupted, and no outcome is in flight.
pub interrupt_lem :
    (now : Time) (db : Db)
    → let rows = (interrupt_request_outcomes now db).request_outcomes in
      All (Interrupts db.request_outcomes) rows × All (λ o. is_in_flight o ≡ false) rows
unfolding interrupt_request_outcomes prune_outcomes
interrupt_lem now db = (
  prune-All (Interrupts db.request_outcomes) now _ (interrupted-Interrupts db.request_outcomes),
  prune-All (λ o. is_in_flight o ≡ false) now (update is_in_flight interrupted db.request_outcomes)
      (All-update (λ o. Unit {0}) (λ o. is_in_flight o ≡ false) is_in_flight interrupted
        db.request_outcomes (All-of_In _ db.request_outcomes (λ o m. tt))
        (λ o m e. settled-interrupted o) (λ o m e. e)),
)

-- Pruning bounds the table and keeps nothing older than the retention time.
elem_of_In :
    (o : RequestOutcome) (rows : List RequestOutcome)
    → In o rows
    → elem o.request_id (map (λ r. r.request_id) rows) ≡ true
elem_of_In o [] m = absurd m
elem_of_In o (x ∷ rows) (inl e) = ground (arith, e)
elem_of_In o (x ∷ rows) (inr m) = ground (arith, elem_of_In o rows m)

prune-length : (now : Time) (rows : List RequestOutcome) → length (prune_rows now rows) ≤ max_rows
unfolding prune_rows
prune-length now rows =
    let recent = delete (λ o. ltb o.timestamp (now - retention)) rows in
    let over = λ (o : RequestOutcome). elem o.request_id (overflow_ids recent) in
    let sorted = sort_by newer recent in
    omega (
      arith,
      length-delete over recent,
      count-sort_by newer (λ o. not (over o)) recent,
      count-le-drop (λ o. not (over o)) max_rows sorted,
      count-none (λ o. not (over o)) (drop max_rows sorted)
          (λ o m. ap not (elem_of_In o (drop max_rows sorted) m)),
    )

-- After pruning the history has at most 10,000 outcomes and none older than seven days.
prune_outcomes_bounds :
    (now : Time) (db : Db)
    → let rows = (prune_outcomes now db).request_outcomes in
      (length rows ≤ max_rows) × All (λ o. ltb o.timestamp (now - retention) ≡ false) rows
unfolding prune_outcomes
prune_outcomes_bounds now db = (
  prune-length now db.request_outcomes,
  unfold prune_rows in
      All-delete (λ o. ltb o.timestamp (now - retention) ≡ false) _ _
        (All-delete_test (λ o. ltb o.timestamp (now - retention)) db.request_outcomes),
)
