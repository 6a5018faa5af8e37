-- ===== src/Inference/Slots.antt =====
-- Proofs about the slots that requests hold while they run, in
-- inference_exchange/coordinator/routes_inference.py and operator_controls.py.
use inference_exchange.Prelude.{
  Floats, Host, suc, ◌+◌, ◌-◌, ◌≡◌, refl, ap, ◌∙◌, String, Bool, true, false, not, ◌&&◌, Option,
  none, some, List, [], ◌∷◌, ◌++◌, ◌==◌, text_eq, if◌then◌else◌, count, count-append, arith,
  Option-cases, Bool-cases, inl, inr,
}
use inference_exchange.Matching.{ConfidenceLevel}
use inference_exchange.SignIn.{
  Headers, Jwt, Caller, caller_is, invalid_credentials, account_suspended, resolve_caller,
}
use inference_exchange.Store.Accounts.{default_consumer_id}
use inference_exchange.Limiter.{allow}
use inference_exchange.Controls.{
  OperatorControls, active_for, lookup_active, try_acquire, try_acquire_lem, release_lem,
}
use inference_exchange.Hub.{ConnectedProvider, parse_level, select_at}
use inference_exchange.Inference.{
  ChatCompletionRequest, InvalidInput, InvalidModel, validate_inputs, validate_model,
}
use inference_exchange.Inference.Endpoint.{
  Exchange, Response, rejected, waiting, serving, Surroundings, Wakeup, timed_out, cleared,
  assigned, attempt_send, retry, dispatch, wait_in_queue, is_broke, route_and_dispatch, is_rejected,
  give_back, run_guarded, admit, chat_completions, resume, resume_guarded, finish,
  concurrency_limit, bad_model, bad_inputs, bad_credentials, suspended, sign_in_required,
  rate_limit_exceeded, inference_is_paused,
}

module _ (fl : Floats) where
  abbrev pub in_progress : Response fl → Bool
  in_progress (rejected e) = false
  in_progress (waiting r) = true
  in_progress (serving p) = true

  in_progress-is_rejected : (r : Response fl) → in_progress r ≡ not (is_rejected fl r)
  in_progress-is_rejected (rejected e) = refl
  in_progress-is_rejected (waiting r) = refl
  in_progress-is_rejected (serving p) = refl

  retry-controls :
      (s : Surroundings fl) (r : ChatCompletionRequest fl) (model : String) (need : ConfidenceLevel)
      (p : ConnectedProvider fl) (x : Exchange fl)
      → (retry fl s r model need p x).1.controls ≡ x.controls
  unfolding retry
  retry-controls s r model need p x = ground arith

  dispatch-controls :
      (s : Surroundings fl) (r : ChatCompletionRequest fl) (model : String) (need : ConfidenceLevel)
      (p : ConnectedProvider fl) (x : Exchange fl)
      → (dispatch fl s r model need p x).1.controls ≡ x.controls
  unfolding dispatch
  dispatch-controls s r model need p x = ground (
    arith,
    retry-controls s r model need p
        (record x { hub = (attempt_send fl s.now s.accepts s.request_id p x.hub).1 }),
  )

  wait_in_queue-controls :
      (s : Surroundings fl) (r : ChatCompletionRequest fl) (model : String) (need : ConfidenceLevel)
      (x : Exchange fl)
      → (wait_in_queue fl s r model need x).1.controls ≡ x.controls
  unfolding wait_in_queue
  wait_in_queue-controls s r model need x = ground arith

  route_and_dispatch-controls :
      (s : Surroundings fl) (r : ChatCompletionRequest fl) (model consumer : String)
      (x : Exchange fl)
      → (route_and_dispatch fl s r model consumer x).1.controls ≡ x.controls
  unfolding route_and_dispatch
  route_and_dispatch-controls s r model consumer x = elim (Bool-cases (is_broke fl consumer x.db)) [
    | inl broke ↦ rw (broke, route_and_dispatch) refl
    | inr pays ↦ elim (Option-cases (parse_level r.ocip_min_confidence)) [
      | inl e ↦ rw (pays, e, route_and_dispatch) refl
      | inr (need, e) ↦
          let found =
            select_at fl model r.ocip_preference need r.ocip_max_price r.ocip_session_id
              (some s.reputation) s.now x.hub.providers x.affinity in
          let x' = record x { affinity = found.1 } in
          elim (Option-cases found.0) [
            | inl f ↦ rw (pays, e, f, route_and_dispatch) (wait_in_queue-controls s r model need x')
            | inr (p, f) ↦
                rw (pays, e, f, route_and_dispatch) (dispatch-controls s r model need p x')
          ]
    ]
  ]

  resume-controls :
      (s : Surroundings fl) (w : Wakeup fl) (x : Exchange fl)
      → (resume fl s w x).1.controls ≡ x.controls
  unfolding resume
  resume-controls s timed_out x = refl
  resume-controls s cleared x = refl
  resume-controls s (assigned none) x = refl
  resume-controls s (assigned (some p)) x = ground arith

  -- The slots after a step that asked for one for the consumer.
  abbrev pub Accounted : String → Exchange fl → Response fl × Exchange fl → Type 0
  Accounted consumer x (response, x') =
      (j : String)
      → active_for j x'.controls ≡ (
          if in_progress response && (consumer == j)
          then suc (active_for j x.controls)
          else active_for j x.controls)

  if-Accounted :
      (consumer : String) (x : Exchange fl) (b : Bool) (u v : Response fl × Exchange fl)
      → Accounted consumer x u
      → Accounted consumer x v
      → Accounted consumer x (if b then u else v)
  if-Accounted consumer x true u v hu hv = hu
  if-Accounted consumer x false u v hu hv = hv

  give_back-Accounted :
      (consumer : String) (x y : Exchange fl) (response : Response fl)
      → ((j : String)
          → active_for j y.controls
            ≡ (if consumer == j then suc (active_for j x.controls) else active_for j x.controls))
      → Accounted consumer x (give_back fl consumer (response, y))
  give_back-Accounted consumer x y (rejected e) h j =
      ground (arith, h j, release_lem consumer j y.controls)
  give_back-Accounted consumer x y (waiting r) h j = h j
  give_back-Accounted consumer x y (serving p) h j = h j

  -- `run_guarded` once the slot was asked for.
  acquired-Accounted :
      (s : Surroundings fl) (r : ChatCompletionRequest fl) (model consumer : String)
      (x : Exchange fl) (granted : Bool) (c : OperatorControls)
      → ((j : String)
          → active_for j c ≡ (
              if granted && (consumer == j)
              then suc (active_for j x.controls)
              else active_for j x.controls))
      → Accounted consumer x (
          if granted
          then give_back fl consumer
              (route_and_dispatch fl s r model consumer (record x { controls = c }))
          else (rejected concurrency_limit, x))
  acquired-Accounted s r model consumer x false c h = λ j. refl
  acquired-Accounted s r model consumer x true c h =
      let routed = route_and_dispatch fl s r model consumer (record x { controls = c }) in
      give_back-Accounted consumer x routed.1 routed.0 (λ j.
        ap (active_for j)
          (route_and_dispatch-controls s r model consumer (record x { controls = c }))
        ∙ h j)

  run_guarded-Accounted :
      (s : Surroundings fl) (r : ChatCompletionRequest fl) (model consumer : String)
      (x : Exchange fl)
      → Accounted consumer x (run_guarded fl s r model consumer x)
  unfolding run_guarded
  run_guarded-Accounted s r model consumer x =
      if-Accounted consumer x x.controls.inference_paused (rejected inference_is_paused, x) _
        (λ j. refl)
        (acquired-Accounted s r model consumer x (try_acquire consumer x.controls).0
          (try_acquire consumer x.controls).1 (λ j. try_acquire_lem consumer j x.controls))

  checked-Accounted :
      (consumer : String) (x : Exchange fl) (o : Option InvalidModel)
      (v : Response fl × Exchange fl)
      → Accounted consumer x v
      → Accounted consumer x (elim o [ some e ↦ (rejected (bad_model e), x) | none ↦ v ])
  checked-Accounted consumer x none v h = h
  checked-Accounted consumer x (some e) v h = λ j. refl

  admit-Accounted :
      (host : Host) (s : Surroundings fl) (r : ChatCompletionRequest fl) (consumer : String)
      (x : Exchange fl)
      → Accounted consumer x (admit fl host s r consumer x)
  unfolding admit
  admit-Accounted host s r consumer x =
      let allowed = allow fl consumer s.now x.limiter in
      let x' = record x { limiter = allowed.1 } in
      if-Accounted consumer x (s.is_production && (consumer == default_consumer_id))
        (rejected sign_in_required, x) _ (λ j. refl)
        (checked-Accounted consumer x (validate_model fl host r) _ (
          if-Accounted consumer x x.controls.inference_paused (rejected inference_is_paused, x) _
            (λ j. refl)
            (if-Accounted consumer x allowed.0 _ (rejected rate_limit_exceeded, x')
              (run_guarded-Accounted s r _ consumer x') (λ j. refl))))

  -- The consumer that a caller is, for its slots.
  abbrev pub slot_owner : Caller → String
  slot_owner (caller_is consumer) = consumer
  slot_owner invalid_credentials = ""
  slot_owner (account_suspended e) = ""

  signed_in-Accounted :
      (host : Host) (s : Surroundings fl) (r : ChatCompletionRequest fl) (x : Exchange fl)
      (caller : Caller)
      → Accounted (slot_owner caller) x (elim caller [
        | invalid_credentials ↦ (rejected bad_credentials, x)
        | account_suspended e ↦ (rejected (suspended e), x)
        | caller_is consumer ↦ admit fl host s r consumer x
      ])
  signed_in-Accounted host s r x invalid_credentials = λ j. refl
  signed_in-Accounted host s r x (account_suspended e) = λ j. refl
  signed_in-Accounted host s r x (caller_is consumer) = admit-Accounted host s r consumer x

  inputs-Accounted :
      (consumer : String) (x : Exchange fl) (o : Option InvalidInput)
      (v : Response fl × Exchange fl)
      → Accounted consumer x v
      → Accounted consumer x (elim o [ some e ↦ (rejected (bad_inputs e), x) | none ↦ v ])
  inputs-Accounted consumer x none v h = h
  inputs-Accounted consumer x (some e) v h = λ j. refl

  chat_completions-Accounted :
      (host : Host) (jwt : Jwt) (s : Surroundings fl) (headers : Headers)
      (r : ChatCompletionRequest fl) (x : Exchange fl)
      → Accounted
          (slot_owner (resolve_caller host jwt headers s.time x.db).0)
          x
          (chat_completions fl host jwt s headers r x)
  unfolding chat_completions
  chat_completions-Accounted host jwt s headers r x =
      let resolved = resolve_caller host jwt headers s.time x.db in
      inputs-Accounted (slot_owner resolved.0) x (validate_inputs fl r) _
        (signed_in-Accounted host s r (record x { db = resolved.1 }) resolved.0)

  -- The requests in progress, by their consumers, in a state that is reached by requests that
  -- start, wake up and end, and by anything else that leaves the slots as they are.
  pub data Running : List String → Exchange fl → Type 0 where
    idle : (x : Exchange fl) → x.controls.active ≡ [] → Running [] x
    started :
        {ids : List String} {x : Exchange fl} (host : Host) (jwt : Jwt) (s : Surroundings fl)
        (headers : Headers) (r : ChatCompletionRequest fl)
        → Running ids x
        → Running
            (if in_progress (chat_completions fl host jwt s headers r x).0
              then slot_owner (resolve_caller host jwt headers s.time x.db).0 ∷ ids
              else ids)
            (chat_completions fl host jwt s headers r x).1
    woken :
        {x : Exchange fl} (front back : List String) (consumer : String) (s : Surroundings fl)
        (w : Wakeup fl)
        → Running (front ++ (consumer ∷ back)) x
        → Running
            (if in_progress (resume_guarded fl consumer s w x).0
              then front ++ (consumer ∷ back)
              else front ++ back)
            (resume_guarded fl consumer s w x).1
    ended :
        {x : Exchange fl} (front back : List String) (consumer : String)
        → Running (front ++ (consumer ∷ back)) x
        → Running (front ++ back) (finish fl consumer x)
    elsewhere :
        {ids : List String} {x : Exchange fl} (y : Exchange fl)
        → y.controls.active ≡ x.controls.active
        → Running ids x
        → Running ids y

  count-remove :
      (p : String → Bool) (front back : List String) (c : String)
      → count p (front ++ (c ∷ back)) ≡ (if p c then 1 else 0) + count p (front ++ back)
  count-remove p front back c =
      ground (arith, count-append p front (c ∷ back), count-append p front back)

  give_back-active :
      (consumer : String) (y : Exchange fl) (response : Response fl) (j : String)
      → active_for j (give_back fl consumer (response, y)).1.controls ≡ (
          if not (in_progress response) && (consumer == j)
          then active_for j y.controls - 1
          else active_for j y.controls)
  give_back-active consumer y (rejected e) j = release_lem consumer j y.controls
  give_back-active consumer y (waiting r) j = refl
  give_back-active consumer y (serving p) j = refl

  resume_guarded-active :
      (consumer : String) (s : Surroundings fl) (w : Wakeup fl) (x : Exchange fl) (j : String)
      → let (response, x') = resume_guarded fl consumer s w x in
        active_for j x'.controls ≡ (
          if not (in_progress response) && (consumer == j)
          then active_for j x.controls - 1
          else active_for j x.controls)
  unfolding resume_guarded
  resume_guarded-active consumer s w x j =
      let resumed = resume fl s w x in
      ground (
        arith,
        give_back-active consumer resumed.1 resumed.0 j,
        ap (active_for j) (resume-controls s w x),
      )

  -- In every state reached from one without active requests by chat completions that start, wake
  -- up from the queue and end, and by anything that leaves the slots alone, each account holds as
  -- many slots as it has requests in progress.
  pub Running-slots :
      (ids : List String) (x : Exchange fl)
      → Running ids x
      → (id : String) → active_for id x.controls ≡ count (λ c. c == id) ids
  unfolding lookup_active finish
  Running-slots _ _ (idle x e) id = ap (lookup_active id) e
  Running-slots _ _ (started {ids = ids} {x = x} host jwt s headers r run) id =
      ground
        (arith, chat_completions-Accounted host jwt s headers r x id, Running-slots ids x run id)
  Running-slots _ _ (woken {x = x} front back consumer s w run) id = ground (
    arith,
    resume_guarded-active consumer s w x id,
    Running-slots (front ++ (consumer ∷ back)) x run id,
    count-remove (λ c. c == id) front back consumer,
  )
  Running-slots _ _ (ended {x = x} front back consumer run) id = ground (
    arith,
    release_lem consumer id x.controls,
    Running-slots (front ++ (consumer ∷ back)) x run id,
    count-remove (λ c. c == id) front back consumer,
  )
  Running-slots _ _ (elsewhere {ids = ids} {x = x} y e run) id =
      ap (lookup_active id) e ∙ Running-slots ids x run id
