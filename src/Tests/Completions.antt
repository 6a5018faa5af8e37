-- ===== src/Tests/Completions.antt =====
-- An anonymous chat completion that a provider serves, and one that waits too long.
use native.Mathlib.Decide.{ℕ_discrete}
use inference_exchange.Prelude.{
  ◌+ℤ◌, ◌-ℤ◌, ◌*ℤ◌, ◌≡◌, pos, refl, String_discrete, true, false, if◌then◌else◌, some, none, [],
  ◌∷◌, ◌==◌, text_eq, sort_by, count,
}
use inference_exchange.Matching.{hardened, greedy_match, compute_score, soft_score}
use inference_exchange.Store.Accounts.{get_account}
use inference_exchange.SignIn.{
  Headers, Jwt, resolve_user, resolve_caller, Known, resolve_caller-Known,
}
use inference_exchange.Limiter.{allow}
use inference_exchange.Controls.{active_for, try_acquire}
use inference_exchange.Hub.{select_at, select_provider}
use inference_exchange.Hub.Pending.{PendingRequest, try_dispatch, dispatched}
use inference_exchange.Inference.{ChatCompletionRequest, validate_inputs, validate_model}
use inference_exchange.Inference.Endpoint.{
  Exchange, Surroundings, serving, rejected, queue_timed_out, timed_out, chat_completions, admit,
  run_guarded, route_and_dispatch, pending_of, dispatch, attempt_send, resume,
}
use inference_exchange.Inference.Gates.{Served, chat_completions-Served}
use inference_exchange.Inference.Slots.{idle, started, in_progress, slot_owner, Running-slots}
use inference_exchange.Tests.{thousandths, thousandths-IsOrdered, host}
use inference_exchange.Tests.Routing.{connected, providers, providers-ProvidersDistinct}
use inference_exchange.Tests.Money.{db}

abbrev jwt : Jwt
jwt = record { split_dots = λ token. []; signature = λ text. text; decode_payload = λ body. none }

abbrev headers : Headers
headers = record { session_cookie = ""; authorization = "" }

abbrev request : ChatCompletionRequest thousandths
request = record {
  model = some "llama";
  messages = record { role = "user"; content_length = 12 } ∷ [];
  max_tokens = pos 256;
  temperature = pos 700;
  ocip_preference = "cheapest";
  ocip_min_confidence = "contained";
  ocip_max_price = some (pos 900);
  ocip_session_id = "";
}

abbrev surroundings : Surroundings thousandths
surroundings = record {
  now = pos 5000;
  time = 7;
  request_id = "r1";
  accepts = true;
  accepts_retry = true;
  is_production = false;
  max_queue = 10;
  reputation = λ id. pos 500;
}

abbrev exchange : Exchange thousandths
exchange = record {
  controls = record {
    inference_paused = false;
    signup_disabled = false;
    max_concurrent_per_account = pos 2;
    active = [];
  };
  limiter = record { buckets = []; max_rpm = pos 30_000; burst = 10 };
  hub = record {
    providers = providers;
    response_queues = [];
    request_to_provider = [];
    billing_callbacks = [];
    failed_outcomes = [];
    billed = [];
  };
  affinity = [];
  queue = [];
  db = db;
  traces = [];
}

chat_completions-run :
    (chat_completions thousandths host jwt surroundings headers request exchange).0
    ≡ serving (connected "p1" hardened)
unfolding chat_completions resolve_caller resolve_user validate_inputs validate_model admit allow
    run_guarded try_acquire route_and_dispatch get_account dispatch attempt_send select_at
    greedy_match sort_by ◌-ℤ◌ String_discrete ℕ_discrete compute_score soft_score ◌*ℤ◌ ◌+ℤ◌
chat_completions-run = refl

chat_completions-Served_example :
    Served thousandths thousandths-IsOrdered host jwt surroundings headers request exchange
      (serving (connected "p1" hardened))
chat_completions-Served_example =
    chat_completions-Served thousandths thousandths-IsOrdered host jwt surroundings headers request
      exchange (serving (connected "p1" hardened)) providers-ProvidersDistinct refl
      chat_completions-run

Running-slots_example :
    let after = chat_completions thousandths host jwt surroundings headers request exchange in
    active_for "default-consumer" after.1.controls
    ≡ count
        (λ c. c == "default-consumer")
        (if in_progress thousandths after.0
          then slot_owner thousandths (resolve_caller host jwt headers 7 db).0 ∷ []
          else [])
Running-slots_example =
    Running-slots thousandths _ _
      (started host jwt surroundings headers request (idle exchange refl)) "default-consumer"

resolve_caller-Known_example : Known host jwt headers 7 db (resolve_caller host jwt headers 7 db).0
resolve_caller-Known_example = resolve_caller-Known host jwt headers 7 db

-- A request whose wait timed out stays in the queue, and is given the provider all the same.
abbrev stale : PendingRequest thousandths
stale = pending_of thousandths surroundings request "llama"

abbrev full : Exchange thousandths
full = record exchange { queue = stale ∷ [] }

timed_out-run :
    let (response, x) = resume thousandths surroundings timed_out full in
    (response ≡ rejected queue_timed_out)
    × (try_dispatch thousandths (pos 6000) providers [] x.queue
        ≡ dispatched stale (connected "p1" hardened) [] [])
unfolding resume try_dispatch select_provider select_at greedy_match sort_by ◌-ℤ◌ String_discrete
    ℕ_discrete compute_score soft_score ◌*ℤ◌ ◌+ℤ◌
timed_out-run = (refl, refl)
