-- ===== src/Tests/History.antt =====
-- A history of two requests, one completed and one in flight.
use inference_exchange.Prelude.{
  In, sort_by, ◌≡◌, ◌≢◌, refl, List, [], ◌∷◌, String, String_discrete, none, some, arith, text_ne,
}
use inference_exchange.Store.Schema.{RequestOutcome, Db}
use inference_exchange.Store.Outcomes.{
  request_outcome, handed_out, prune_rows, Amendment, amend_request_outcome, prune_outcomes,
}
use inference_exchange.Store.Outcomes.Privacy.{request_outcome-owned}
use inference_exchange.Store.Outcomes.Lifecycle.{Follows, OutcomesDistinct, amend-Follows}

abbrev outcome : String → String → RequestOutcome
outcome id status = record {
  request_id = id;
  consumer_id = some "alice";
  timestamp = 5;
  status = status;
  payload = record {
    status = status;
    reason = none;
    served_model = none;
    latency_ms = none;
    private_consumer = some "alice";
    other = "";
  };
  provider_country = none;
  caller_country = none;
}

abbrev rows : List RequestOutcome
rows = outcome "r1" "completed" ∷ outcome "r2" "matched" ∷ []

abbrev db : Db
db = record {
  accounts = [];
  api_keys = [];
  transactions = [];
  request_outcomes = rows;
  provider_history = [];
  provider_tokens = [];
  users = [];
  provider_nodes = [];
  ownership_actions = [];
  reference_prices = [];
  account_actions = [];
}

abbrev completion : Amendment
completion = record {
  status = "completed";
  served_model = some "llama";
  latency_ms = none;
  provider_country = some "CH";
  caller_country = some "DE";
}

ids_differ : ◌≢◌ {A = String} "r1" "r2"
unfolding String_discrete
ids_differ = text_ne "r1" "r2" refl

rows-OutcomesDistinct : OutcomesDistinct rows
rows-OutcomesDistinct id = ground (arith, ids_differ)

amend-Follows_example :
    Follows "r2"
      (some "alice")
      completion
      rows
      (amend_request_outcome "r2" (some "alice") completion 9 db).request_outcomes
amend-Follows_example = amend-Follows "r2" (some "alice") completion 9 db rows-OutcomesDistinct

request_outcome-owned_example :
    (o : RequestOutcome) × In o rows
    × (o.request_id ≡ "r1")
    × (o.consumer_id ≡ some "alice")
    × (handed_out o.payload ≡ handed_out (outcome "r1" "completed").payload)
unfolding request_outcome prune_outcomes prune_rows String_discrete sort_by
    native.Mathlib.Decide.ℕ_discrete
request_outcome-owned_example =
    request_outcome-owned "r1" "alice" 9 db (handed_out (outcome "r1" "completed").payload) refl
