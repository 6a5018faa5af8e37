-- ===== src/Tests/Flight.antt =====
-- A provider that serves one request, and goes.
use inference_exchange.Prelude.{
  ◌≡◌, refl, true, false, [], ◌∷◌, ◌==◌, text_eq, All, ◌≢◌, String, text_ne, String_discrete,
}
use inference_exchange.Matching.{hardened}
use inference_exchange.Hub.Requests.{
  HubState, inference_done, handle_provider_message, disconnect_provider, served_by,
  register_billing_callback, done-billed_once, disconnect_provider_lem, remove_response_queue,
  remove_response_queue-unbilled,
}
use inference_exchange.Tests.{thousandths}
use inference_exchange.Tests.Routing.{connected}

abbrev hub : HubState thousandths
hub = record {
  providers = connected "p1" hardened ∷ [];
  response_queues = ("r1", []) ∷ [];
  request_to_provider = ("r1", "p1") ∷ [];
  billing_callbacks = "r1" ∷ [];
  failed_outcomes = [];
  billed = [];
}

done-billed_once_example :
    (handle_provider_message thousandths "p1" inference_done "r1" true
      (handle_provider_message thousandths "p1" inference_done "r1" false hub)).billed
    ≡ (handle_provider_message thousandths "p1" inference_done "r1" false hub).billed
done-billed_once_example = done-billed_once thousandths "p1" "p1" "r1" false true hub

disconnect_provider_lem_example :
    let (orphans, h') = disconnect_provider thousandths "p1" hub in
    All (λ p. (p.provider_id == "p1") ≡ false) h'.providers
    × All (λ r. (r.1 == "p1") ≡ false) h'.request_to_provider
    × (orphans ≡ served_by thousandths "p1" hub)
unfolding String_discrete
disconnect_provider_lem_example = disconnect_provider_lem thousandths "p1" hub refl

named : ◌≢◌ {A = String} "r1" ""
unfolding String_discrete
named = text_ne "r1" "" refl

remove_response_queue-unbilled_example :
    let registered = register_billing_callback thousandths "r1" hub in
    ((handle_provider_message thousandths "p1" inference_done "r1" false registered).billed
      ≡ "r1" ∷ hub.billed)
    × ((handle_provider_message thousandths "p1" inference_done "r1" false
          (remove_response_queue thousandths "r1" registered)).billed
        ≡ hub.billed)
remove_response_queue-unbilled_example =
    remove_response_queue-unbilled thousandths "p1" "r1" false hub named
