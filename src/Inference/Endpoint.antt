-- ===== src/Inference/Endpoint.antt =====
-- The chat completion endpoint of inference_exchange/coordinator/routes_inference.py, under
-- `run_guarded` of operator_controls.py: a request up to its first wait, and after its wait in the
-- queue.
use inference_exchange.Prelude.{
  Floats, Host, ℕ, pos, leb_ℤ, String, Bool, true, false, ◌&&◌, Option, none, some, List, ◌∷◌, ◌==◌,
  text_eq, if◌then◌else◌,
}
use inference_exchange.Store.Schema.{Db, Time}
use inference_exchange.Store.Accounts.{get_account, default_consumer_id}
use inference_exchange.Store.Users.{Suspension}
use inference_exchange.SignIn.{
  Headers, Jwt, caller_is, invalid_credentials, account_suspended, resolve_caller,
}
use inference_exchange.Limiter.{RateLimiter, allow}
use inference_exchange.Controls.{OperatorControls, try_acquire, release}
use inference_exchange.Matching.{ConfidenceLevel}
use inference_exchange.Hub.{
  ConnectedProvider, Affinity, parse_level, select_at, explain_at, Refusal,
}
use inference_exchange.Hub.Pending.{PendingRequest, Queue, enqueue_request}
use inference_exchange.Hub.Requests.{
  HubState, create_response_queue, remove_response_queue, register_billing_callback,
  send_to_provider, refused, sent, failed,
}
use inference_exchange.Inference.{
  ChatCompletionRequest, InvalidInput, InvalidModel, validate_inputs, validate_model,
}

-- The statuses that are handed to `_add_trace`.
pub data TraceStatus : Type 0 where
  no_match_traced queue_full_traced queue_timeout_traced matched_traced matched_from_queue_traced :
      TraceStatus

abbrev pub model_text : Option String → String
model_text none = ""
model_text (some m) = m

module _ (fl : Floats) where
  -- The errors that end a request; `key_error` is the unhandled one of an unknown level.
  pub data Rejection : Type 0 where
    bad_inputs : InvalidInput → Rejection
    bad_credentials sign_in_required : Rejection
    suspended : Suspension → Rejection
    bad_model : InvalidModel → Rejection
    inference_is_paused rate_limit_exceeded concurrency_limit insufficient_balance : Rejection
    no_compatible_provider : Refusal fl → Rejection
    key_error queue_is_full queue_timed_out queue_cleared no_provider_assigned provider_error :
        Rejection

  -- Where a request is when the code waits: ended, in the queue, or relayed to a provider.
  pub data Response : Type 0 where
    rejected : Rejection → Response
    waiting : PendingRequest fl → Response
    serving : ConnectedProvider fl → Response

  -- The state that the endpoint reads and changes.
  pub record Exchange : Type 0 where
    pub controls : OperatorControls
    pub limiter : RateLimiter fl
    pub hub : HubState fl
    pub affinity : Affinity fl
    pub queue : Queue fl
    pub db : Db
    pub traces : List (String × TraceStatus)

  -- What the request meets: the clock, a fresh id, whether the first and the second provider's
  -- socket take the request, and the settings.
  pub record Surroundings : Type 0 where
    pub now : fl.Float
    pub time : Time
    pub request_id : String
    pub accepts : Bool
    pub accepts_retry : Bool
    pub is_production : Bool
    pub max_queue : ℕ
    pub reputation : String → fl.Float

  abbrev pub trace : String → TraceStatus → Exchange → Exchange
  trace id status x = record x { traces = (id, status) ∷ x.traces }

  -- A response queue, the sending of the request, and the queue's removal when the sending raises.
  unfoldable pub attempt_send :
      fl.Float → Bool → String → ConnectedProvider fl → HubState fl → Bool × HubState fl
  unfolding create_response_queue send_to_provider remove_response_queue
  attempt_send now accepts id p h =
      let h' = create_response_queue fl id h in
      elim (send_to_provider fl now accepts id p h') [
        | refused ↦ (false, remove_response_queue fl id h')
        | failed h'' ↦ (false, remove_response_queue fl id h'')
        | sent h'' ↦ (true, h'')
      ]

  -- After a successful sending.
  abbrev pub matched :
      String → TraceStatus → ConnectedProvider fl → HubState fl → Exchange → Response × Exchange
  matched id status p h x =
      (serving p, trace id status (record x { hub = register_billing_callback fl id h }))

  abbrev pub pending_of : Surroundings → ChatCompletionRequest fl → String → PendingRequest fl
  pending_of s r model = record {
    request_id = s.request_id;
    model = model;
    preference = r.ocip_preference;
    min_confidence = r.ocip_min_confidence;
    max_price = r.ocip_max_price;
    session_id = r.ocip_session_id;
  }

  -- The retry on another provider, which reads neither the session nor the reputation.
  unfoldable pub retry :
      Surroundings
      → ChatCompletionRequest fl
      → String
      → ConfidenceLevel
      → ConnectedProvider fl
      → Exchange
      → Response × Exchange
  retry s r model need p x =
      let (next, d) =
        select_at fl model r.ocip_preference need r.ocip_max_price "" none s.now x.hub.providers
          x.affinity in
      let x' = record x { affinity = d } in
      elim next [
        | none ↦ (rejected provider_error, x')
        | some q ↦
            if q.provider_id == p.provider_id
            then (rejected provider_error, x')
            else (let (took, h) = attempt_send s.now s.accepts_retry s.request_id q x.hub in
                if took
                then matched s.request_id matched_traced q h x'
                else (rejected provider_error, record x' { hub = h }))
      ]

  -- A provider is selected: the request is sent to it, or to another one.
  unfoldable pub dispatch :
      Surroundings
      → ChatCompletionRequest fl
      → String
      → ConfidenceLevel
      → ConnectedProvider fl
      → Exchange
      → Response × Exchange
  dispatch s r model need p x =
      let (took, h) = attempt_send s.now s.accepts s.request_id p x.hub in
      if took
      then matched s.request_id matched_traced p h x
      else retry s r model need p (record x { hub = h })

  -- Nobody is selected: an explanation, or a place in the queue.
  unfoldable pub wait_in_queue :
      Surroundings
      → ChatCompletionRequest fl
      → String
      → ConfidenceLevel
      → Exchange
      → Response × Exchange
  wait_in_queue s r model need x =
      elim (explain_at fl model need r.ocip_max_price s.now x.hub.providers) [
        | some why ↦ (rejected (no_compatible_provider why), trace s.request_id no_match_traced x)
        | none ↦ elim (enqueue_request fl s.max_queue (pending_of s r model) x.queue) [
          | none ↦ (rejected queue_is_full, trace s.request_id queue_full_traced x)
          | some q ↦ (waiting (pending_of s r model), record x { queue = q })
        ]
      ]

  -- `account and account["balance_micro"] <= 0`
  abbrev pub is_broke : String → Db → Bool
  is_broke consumer db = elim (get_account consumer db) [
    | none ↦ false
    | some a ↦ leb_ℤ a.balance_micro (pos 0)
  ]

  -- `_route_and_dispatch`, for a model that is named.
  unfoldable pub route_and_dispatch :
      Surroundings → ChatCompletionRequest fl → String → String → Exchange → Response × Exchange
  route_and_dispatch s r model consumer x =
      if is_broke consumer x.db
      then (rejected insufficient_balance, x)
      else elim (parse_level r.ocip_min_confidence) [
        | none ↦ (rejected key_error, x)
        | some need ↦
            let (found, d) =
              select_at fl model r.ocip_preference need r.ocip_max_price r.ocip_session_id
                (some s.reputation) s.now x.hub.providers x.affinity in
            elim found [
              | none ↦ wait_in_queue s r model need (record x { affinity = d })
              | some p ↦ dispatch s r model need p (record x { affinity = d })
            ]
      ]

  abbrev pub is_rejected : Response → Bool
  is_rejected (rejected e) = true
  is_rejected (waiting r) = false
  is_rejected (serving p) = false

  -- The slot is given back where the handler raises or answers at once.
  abbrev pub give_back : String → Response × Exchange → Response × Exchange
  give_back consumer (response, x) = (
    response,
    if is_rejected response then record x { controls = release consumer x.controls } else x,
  )

  -- `run_guarded`
  unfoldable pub run_guarded :
      Surroundings → ChatCompletionRequest fl → String → String → Exchange → Response × Exchange
  run_guarded s r model consumer x =
      if x.controls.inference_paused
      then (rejected inference_is_paused, x)
      else (let (granted, c) = try_acquire consumer x.controls in
          if granted
          then give_back consumer
              (route_and_dispatch s r model consumer (record x { controls = c }))
          else (rejected concurrency_limit, x))

  -- The checks between sign-in and `run_guarded`.
  unfoldable pub admit :
      Host → Surroundings → ChatCompletionRequest fl → String → Exchange → Response × Exchange
  admit host s r consumer x =
      if s.is_production && (consumer == default_consumer_id)
      then (rejected sign_in_required, x)
      else elim (validate_model fl host r) [
        | some e ↦ (rejected (bad_model e), x)
        | none ↦
            if x.controls.inference_paused
            then (rejected inference_is_paused, x)
            else (let (allowed, l) = allow fl consumer s.now x.limiter in
                let x' = record x { limiter = l } in
                if allowed
                then run_guarded s r (model_text r.model) consumer x'
                else (rejected rate_limit_exceeded, x'))
      ]

  -- `chat_completions`, up to its first wait.
  unfoldable pub chat_completions :
      Host
      → Jwt
      → Surroundings
      → Headers
      → ChatCompletionRequest fl
      → Exchange
      → Response × Exchange
  chat_completions host jwt s headers r x = elim (validate_inputs fl r) [
    | some e ↦ (rejected (bad_inputs e), x)
    | none ↦
        let (caller, db) = resolve_caller host jwt headers s.time x.db in
        let x' = record x { db = db } in
        elim caller [
          | invalid_credentials ↦ (rejected bad_credentials, x')
          | account_suspended e ↦ (rejected (suspended e), x')
          | caller_is consumer ↦ admit host s r consumer x'
        ]
  ]

  -- How the wait in the queue ends; a provider is there once the queue's pass assigned one.
  pub data Wakeup : Type 0 where
    timed_out cleared : Wakeup
    assigned : Option (ConnectedProvider fl) → Wakeup

  -- The part of `_route_and_dispatch` after the wait.
  unfoldable pub resume : Surroundings → Wakeup → Exchange → Response × Exchange
  resume s timed_out x = (rejected queue_timed_out, trace s.request_id queue_timeout_traced x)
  resume s cleared x = (rejected queue_cleared, x)
  resume s (assigned none) x = (rejected no_provider_assigned, x)
  resume s (assigned (some p)) x =
      let (took, h) = attempt_send s.now s.accepts s.request_id p x.hub in
      if took
      then matched s.request_id matched_from_queue_traced p h x
      else (rejected provider_error, record x { hub = h })

  -- The same under `run_guarded`.
  unfoldable pub resume_guarded : String → Surroundings → Wakeup → Exchange → Response × Exchange
  resume_guarded consumer s w x = give_back consumer (resume s w x)

  -- The response is complete, or the client is gone.
  unfoldable pub finish : String → Exchange → Exchange
  finish consumer x = record x { controls = release consumer x.controls }
