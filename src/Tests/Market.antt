-- ===== src/Tests/Market.antt =====
-- A market of two orders and three offers.
use inference_exchange.Prelude.{
  ◌+ℤ◌, ◌-ℤ◌, ◌*ℤ◌, ◌≤◌, ◌≡◌, ℤ, pos, refl, String, List, [], ◌∷◌, String_discrete, sort_by, All,
  inl, length,
}
use inference_exchange.Matching.{
  InferenceOrder, ProviderOffer, ConfidenceLevel, cheapest, open_level, contained, hardened,
  available_slots, greedy_match, compute_score, soft_score,
}
use inference_exchange.Matching.Greedy.{matches_of, greedy_match-slots}
use inference_exchange.Matching.Outcomes.{IsAllowed, greedy_match-IsAllowed}
use inference_exchange.Tests.{thousandths, thousandths-IsOrdered}

abbrev pub order : String → ℤ → InferenceOrder thousandths
order id at = record {
  order_id = id;
  consumer_id = "alice";
  model = "llama";
  max_price_per_mtok = pos 900;
  min_confidence = contained;
  preference = cheapest;
  submitted_at = at;
  timeout_seconds = pos 30_000;
  session_affinity_provider_id = "";
}

abbrev offer : String → ℤ → ConfidenceLevel → ProviderOffer thousandths
offer id price level = record {
  provider_id = id;
  models = "llama" ∷ [];
  price_per_mtok_output = price;
  confidence_level = level;
  measured_throughput_tps = pos 50_000;
  total_slots = pos 1;
  used_slots = pos 0;
  reputation_score = pos 1000;
}

abbrev orders : List (InferenceOrder thousandths)
orders = order "second" (pos 2000) ∷ order "first" (pos 1000) ∷ []

abbrev pub offers : List (ProviderOffer thousandths)
offers =
    offer "cheap" (pos 300) hardened
    ∷ offer "untrusted" (pos 100) open_level
    ∷ offer "dear" (pos 950) hardened
    ∷ []

-- Only one offer is allowed: it goes to the order that came first.
greedy_match-run : length (greedy_match thousandths (pos 5000) orders offers).0 ≡ 1
unfolding greedy_match sort_by ◌-ℤ◌ String_discrete compute_score ◌*ℤ◌ soft_score ◌+ℤ◌
greedy_match-run = refl

greedy_match-IsAllowed_example :
    All
      (IsAllowed thousandths (pos 5000) orders offers)
      (greedy_match thousandths (pos 5000) orders offers).0
greedy_match-IsAllowed_example =
    greedy_match-IsAllowed thousandths thousandths-IsOrdered (pos 5000) orders offers

greedy_match-slots_example :
    matches_of thousandths "cheap" (greedy_match thousandths (pos 5000) orders offers).0
    ≤ available_slots thousandths (offer "cheap" (pos 300) hardened)
unfolding String_discrete
greedy_match-slots_example =
    greedy_match-slots thousandths thousandths-IsOrdered (pos 5000) orders offers
      (offer "cheap" (pos 300) hardened) (inl refl) refl
