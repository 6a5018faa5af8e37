-- ===== src/Tests/Auction.antt =====
-- A batch of two orders for the slots of two offers.
use inference_exchange.Prelude.{
  ◌+ℤ◌, ◌-ℤ◌, ◌*ℤ◌, ◌≤◌, ◌≡◌, pos, refl, List, [], ◌∷◌, String_discrete, sort_by, All, map, arith,
}
use inference_exchange.Matching.{InferenceOrder, compute_score, soft_score}
use native.Mathlib.Decide.{ℕ_discrete}
use inference_exchange.Matching.Greedy.{matches_of}
use inference_exchange.Matching.Outcomes.{outcomes_for}
use inference_exchange.Matching.Batch.{batch_match}
use inference_exchange.Matching.Batch.Capacity.{free_of, batch_match-slots}
use inference_exchange.Matching.Batch.Matches.{IsFair, batch_match-IsFair, batch_match-outcomes_for}
use inference_exchange.Tests.{thousandths, thousandths-IsOrdered}
use inference_exchange.Tests.Market.{order, offers}

abbrev orders : List (InferenceOrder thousandths)
orders = order "first" (pos 1000) ∷ order "second" (pos 2000) ∷ []

-- One order is assigned, although both are long expired at this time.
batch_match-run :
    map (λ m. m.order_id) (batch_match thousandths (pos 900_000) orders offers).0 ≡ "first" ∷ []
unfolding batch_match sort_by ◌-ℤ◌ String_discrete compute_score ◌*ℤ◌ soft_score ◌+ℤ◌ ℕ_discrete
batch_match-run = refl

batch_match-IsFair_example :
    All (IsFair thousandths orders offers) (batch_match thousandths (pos 5000) orders offers).0
batch_match-IsFair_example =
    batch_match-IsFair thousandths thousandths-IsOrdered (pos 5000) orders offers

batch_match-slots_example :
    matches_of thousandths "cheap" (batch_match thousandths (pos 5000) orders offers).0
    ≤ free_of thousandths "cheap" offers
batch_match-slots_example = batch_match-slots thousandths (pos 5000) orders offers "cheap"

batch_match-outcomes_for_example :
    outcomes_for thousandths "second" (batch_match thousandths (pos 5000) orders offers) ≡ 1
unfolding String_discrete
batch_match-outcomes_for_example =
    batch_match-outcomes_for thousandths (pos 5000) orders offers "second" (omega arith)
