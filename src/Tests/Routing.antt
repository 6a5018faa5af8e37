-- ===== src/Tests/Routing.antt =====
-- Two connected providers, one of them confidential and not admitted, and requests for them.
use inference_exchange.Prelude.{
  ◌+ℤ◌, ◌-ℤ◌, ◌*ℤ◌, ◌≡◌, ◌≢◌, ◌&&◌, pos, refl, String, true, false, not, none, some, [], ◌∷◌, ◌⊎◌,
  String_discrete, sort_by, text_ne, is_none, any, In, All, arith, ◌==◌, text_eq,
}
use inference_exchange.Matching.{
  ConfidenceLevel, contained, hardened, confidential, greedy_match, compute_score, soft_score,
}
use inference_exchange.Hub.{
  ConnectedProvider, Providers, select_at, explain_at, requires_app_attest, admitted,
}
use inference_exchange.Hub.Selection.{ProvidersDistinct, Suits, select_at-Suits}
use inference_exchange.Hub.Explanation.{IsTotal, servable, explain_at_lem, explain_at-select_at}
use inference_exchange.Hub.Attestation.{
  Report, respond, handle_attestation_response, handle_attestation_response_lem, respond-passed,
}
use inference_exchange.Hub.Pending.{
  PendingRequest, Queue, Explains, try_dispatch, try_dispatch-Explains,
}
use inference_exchange.Tests.{thousandths, thousandths-IsOrdered}

abbrev pub connected : String → ConfidenceLevel → ConnectedProvider thousandths
connected id level = record {
  provider_id = id;
  models = "llama" ∷ [];
  price_per_mtok_output = pos 300;
  trust_level = level;
  measured_tps = pos 50_000;
  max_concurrent = pos 1;
  active_requests = pos 0;
  attestation_status = "pending";
  app_attest_verified = false;
  admission_expires_at = pos 0;
  last_attestation = pos 0;
  pending_challenge_nonce = some "n1";
  challenge_sent_at = pos 0;
  token_id = "";
  quarantined = false;
  quarantine_reason = "";
}

abbrev pub providers : Providers thousandths
providers = connected "p1" hardened ∷ connected "p2" confidential ∷ []

ids_differ : ◌≢◌ {A = String} "p1" "p2"
unfolding String_discrete
ids_differ = text_ne "p1" "p2" refl

pub providers-ProvidersDistinct : ProvidersDistinct thousandths providers
providers-ProvidersDistinct id = ground (arith, ids_differ)

thousandths_total : IsTotal thousandths
thousandths_total a b ha hb h = ground arith

select-run :
    (select_at thousandths "llama" "cheapest" contained
      (some (pos 900))
      ""
      none
      (pos 5000)
      providers
      []).0
    ≡ some (connected "p1" hardened)
unfolding select_at greedy_match sort_by ◌-ℤ◌ String_discrete compute_score soft_score ◌*ℤ◌ ◌+ℤ◌
select-run = refl

select_at-Suits_example :
    In (connected "p1" hardened) providers
    × Suits thousandths "llama" contained (some (pos 900)) (pos 5000) (connected "p1" hardened)
select_at-Suits_example =
    select_at-Suits thousandths thousandths-IsOrdered "llama" "cheapest" contained (some (pos 900))
      "" none (pos 5000) providers [] (connected "p1" hardened) providers-ProvidersDistinct
      select-run

explain_at_lem_example :
    is_none (explain_at thousandths "llama" confidential none (pos 5000) providers)
    ≡ any (servable thousandths "llama" confidential none (pos 5000)) providers
explain_at_lem_example = explain_at_lem thousandths "llama" confidential none (pos 5000) providers

explain-run :
    is_none (explain_at thousandths "llama" confidential none (pos 5000) providers) ≡ false
unfolding explain_at String_discrete
explain-run = refl

-- Nobody is admitted at the confidential level.
explain_at-select_at_example :
    (select_at thousandths "llama" "cheapest" confidential none "" none (pos 5000) providers []).0
    ≡ none
explain_at-select_at_example =
    explain_at-select_at thousandths thousandths-IsOrdered "llama" "cheapest" confidential none ""
      none (pos 5000) providers [] thousandths_total tt (refl, (refl, tt))
      providers-ProvidersDistinct explain-run

abbrev report : Report
report = record {
  nonce = "n1";
  sip_enabled = true;
  hardened_runtime = true;
  agent_binary_hash = "ab";
  attestation_object = "cbor";
}

handle_attestation_response_lem_example :
    All
      (λ p.
        In p providers
        ⊎ ((requires_app_attest thousandths p && admitted thousandths (pos 9) p) ≡ false))
      (handle_attestation_response thousandths "p2" (pos 5) report providers)
handle_attestation_response_lem_example =
    handle_attestation_response_lem thousandths "p2" (pos 5) (pos 9) report providers

respond-passed_example :
    (some "n1" ≡ some report.nonce)
    × (false ≡ false)
    × (true ≡ true
        → (report.sip_enabled && (report.hardened_runtime && not (report.agent_binary_hash == "")))
          ≡ true)
unfolding respond String_discrete
respond-passed_example = respond-passed thousandths (pos 5) report (connected "p1" hardened) refl

abbrev request : String → String → PendingRequest thousandths
request id level = record {
  request_id = id;
  model = "llama";
  preference = "cheapest";
  min_confidence = level;
  max_price = none;
  session_id = "";
}

abbrev queue : Queue thousandths
queue = request "r1" "confidential" ∷ request "r2" "contained" ∷ []

try_dispatch-Explains_example :
    Explains thousandths
      (pos 5000)
      providers
      []
      queue
      (try_dispatch thousandths (pos 5000) providers [] queue)
try_dispatch-Explains_example = try_dispatch-Explains thousandths (pos 5000) providers [] queue
