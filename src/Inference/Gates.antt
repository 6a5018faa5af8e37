-- ===== src/Inference/Gates.antt =====
-- Proofs about the requests that the endpoint does not refuse, in
-- inference_exchange/coordinator/routes_inference.py.
pub mod Inputs
pub mod Routed
use inference_exchange.Prelude.{
  Floats, IsOrdered, Host, ◌≤◌, ◌≡◌, ◌≢◌, refl, subst, ap, pos, ◌+ℤ◌, ◌-ℤ◌, max_ℤ, leb_ℤ, ltb_ℤ,
  String, Bool, true, false, ◌&&◌, Option, none, some, List, [], ◌∷◌, ◌==◌, text_eq, nat_eq,
  if◌then◌else◌, count, length, update, arith, Option-cases, Bool-cases, inl, inr, text_ne,
}
use inference_exchange.Matching.{ConfidenceLevel}
use inference_exchange.Store.Accounts.{get_account, default_consumer_id}
use inference_exchange.Store.Schema.{Db, Account}
use inference_exchange.SignIn.{
  Headers, Jwt, Caller, caller_is, invalid_credentials, account_suspended, resolve_caller, Known,
  resolve_caller-Known,
}
use inference_exchange.Limiter.{allow, RateLimiter, current_bucket, refilled, consume}
use inference_exchange.Controls.{OperatorControls, active_for, try_acquire}
use inference_exchange.Hub.{ConnectedProvider, parse_level, select_at, explain_at}
use inference_exchange.Hub.Selection.{ProvidersDistinct, Suits, select_at-Suits}
use inference_exchange.Hub.Pending.{PendingRequest, enqueue_request}
use inference_exchange.Hub.Requests.{
  HubState, send_to_provider, create_response_queue, remove_response_queue,
}
use inference_exchange.Inference.{
  ChatCompletionRequest, InvalidInput, InvalidModel, validate_inputs, validate_model,
  model_required, model_name, total_chars,
}
use inference_exchange.Inference.Endpoint.{
  Exchange, Response, Rejection, rejected, waiting, serving, Surroundings, attempt_send, pending_of,
  retry, dispatch, wait_in_queue, is_broke, route_and_dispatch, run_guarded, admit,
  chat_completions, model_text, bad_model, bad_inputs, provider_error, insufficient_balance,
  key_error, inference_is_paused, sign_in_required, bad_credentials, suspended, is_rejected,
  rate_limit_exceeded,
}
use inference_exchange.Inference.Gates.Inputs.{
  never, past, past_inputs, past_model, InputsAreValid, validate_inputs-InputsAreValid,
  validate_model-named,
}
use inference_exchange.Inference.Gates.Routed.{Placed, run_guarded-Routed}

module _ (fl : Floats) (ord : IsOrdered fl) where
  -- A request that is not refused, and what held of it before.
  pub record Served (host : Host) (jwt : Jwt) (s : Surroundings fl) (headers : Headers)
      (r : ChatCompletionRequest fl) (x : Exchange fl) (t : Response fl) : Type 0 where
    pub consumer : String
    pub need : ConfidenceLevel
    pub inputs : InputsAreValid fl r
    pub model_given : r.model ≡ some (model_text r.model)
    pub model_concrete : model_text r.model ≢ "default"
    pub model_exact : model_text r.model ≡ host.strip (model_text r.model)
    pub known : Known host jwt headers s.time x.db (caller_is consumer)
    pub resolved : (resolve_caller host jwt headers s.time x.db).0 ≡ caller_is consumer
    pub not_anonymous : s.is_production ≡ true → consumer ≢ default_consumer_id
    pub not_paused : x.controls.inference_paused ≡ false
    pub within_rate :
        fl.le (fl.of_int (pos 1)) (refilled fl s.now (current_bucket fl consumer s.now x.limiter))
        ≡ true
    pub below_limit :
        ltb_ℤ (pos 0) x.controls.max_concurrent_per_account ≡ true
        → ltb_ℤ (pos (active_for consumer x.controls)) x.controls.max_concurrent_per_account ≡ true
    pub can_pay :
        (a : Account)
        → get_account consumer (resolve_caller host jwt headers s.time x.db).1 ≡ some a
        → ltb_ℤ (pos 0) a.balance_micro ≡ true
    pub level_known : parse_level r.ocip_min_confidence ≡ some need
    pub placed : Placed fl ord s r (model_text r.model) need t

  solvent :
      (consumer : String) (db : Db) (a : Account)
      → is_broke fl consumer db ≡ false
      → get_account consumer db ≡ some a
      → ltb_ℤ (pos 0) a.balance_micro ≡ true
  solvent consumer db a h e =
      let k : leb_ℤ a.balance_micro (pos 0) ≡ false = rw (e, is_broke) at h in ground (arith, k)

  try_acquire-below :
      (consumer : String) (c : OperatorControls)
      → (try_acquire consumer c).0 ≡ true
      → ltb_ℤ (pos 0) c.max_concurrent_per_account ≡ true
      → ltb_ℤ (pos (active_for consumer c)) c.max_concurrent_per_account ≡ true
  unfolding try_acquire
  try_acquire-below consumer c h k = ground (arith, h, k)

  allow-rate :
      (consumer : String) (now : fl.Float) (l : RateLimiter fl)
      → (allow fl consumer now l).0 ≡ true
      → fl.le (fl.of_int (pos 1)) (refilled fl now (current_bucket fl consumer now l)) ≡ true
  unfolding allow consume
  allow-rate consumer now l h = ground (arith, h)

  admit-Served :
      (host : Host) (jwt : Jwt) (s : Surroundings fl) (headers : Headers)
      (r : ChatCompletionRequest fl) (x : Exchange fl) (t : Response fl) (consumer : String)
      → ProvidersDistinct fl x.hub.providers
      → is_rejected fl t ≡ false
      → InputsAreValid fl r
      → (resolve_caller host jwt headers s.time x.db).0 ≡ caller_is consumer
      → (admit fl host s r consumer
          (record x { db = (resolve_caller host jwt headers s.time x.db).1 })).0
        ≡ t
      → Served host jwt s headers r x t
  unfolding admit
  admit-Served host jwt s headers r x t consumer u live inputs e h =
      let db = (resolve_caller host jwt headers s.time x.db).1 in
      let x' = record x { db = db } in
      let (known, h1) =
        past fl t (s.is_production && (consumer == default_consumer_id)) sign_in_required x' _ live
          h in
      let (model_ok, h2) = past_model fl t (validate_model fl host r) x' _ live h1 in
      let (_, h3) = past fl t x.controls.inference_paused inference_is_paused x' _ live h2 in
      let allowed = allow fl consumer s.now x.limiter in
      elim (Bool-cases allowed.0) [
        | inr limited ↦ absurd (never fl t rate_limit_exceeded live (rw limited at h3))
        | inl within ↦
            let (paused, granted, (pays, (need, level, placed))) =
              run_guarded-Routed fl ord s r (model_text r.model) consumer t
                (record x' { limiter = allowed.1 }) u live (rw within at h3) in
            let (given, concrete, exact) = validate_model-named fl host r model_ok in
            record {
              consumer = consumer;
              need = need;
              inputs = inputs;
              model_given = given;
              model_concrete = concrete;
              model_exact = exact;
              known =
                  subst (Known host jwt headers s.time x.db) e
                    (resolve_caller-Known host jwt headers s.time x.db);
              resolved = e;
              not_anonymous = λ production.
                  text_ne consumer default_consumer_id (ground (arith, known, production));
              not_paused = paused;
              within_rate = allow-rate consumer s.now x.limiter within;
              below_limit = try_acquire-below consumer x.controls granted;
              can_pay = λ a f. solvent consumer db a pays f;
              level_known = level;
              placed = placed;
            }
      ]

  -- Where `<` on floats is a strict order, -1.0 < 0 and provider ids are distinct, a chat
  -- completion that is not refused has between 1 and 100 messages of at most 200,000 characters
  -- and asks for 1 to 32,768 tokens; names a model other than default without space around it;
  -- comes from an account that is not suspended and shows a session or a key of it, or from the
  -- anonymous account without a credential, which is not let in in production; finds inference not
  -- paused, a token in its consumer's bucket, a free slot under its account's limit and a positive
  -- balance if it has an account. It is relayed at once, on the first attempt or the retry, to a
  -- provider that is not quarantined, is attested if it is confidential, serves the model within
  -- the price with the trust asked for, and has a slot free; or it waits in the queue under its
  -- own terms, a pass over the queue gives it only such a provider, and when it wakes up it is
  -- relayed to no other than the one it was given.
  pub chat_completions-Served :
      (host : Host) (jwt : Jwt) (s : Surroundings fl) (headers : Headers)
      (r : ChatCompletionRequest fl) (x : Exchange fl) (t : Response fl)
      → ProvidersDistinct fl x.hub.providers
      → is_rejected fl t ≡ false
      → (chat_completions fl host jwt s headers r x).0 ≡ t
      → Served host jwt s headers r x t
  unfolding chat_completions
  chat_completions-Served host jwt s headers r x t u live h =
      let resolved = resolve_caller host jwt headers s.time x.db in
      let (inputs, k) = past_inputs fl t (validate_inputs fl r) x _ live h in
      admitted resolved.0 refl (validate_inputs-InputsAreValid fl r inputs) k
    where
      admitted :
          (caller : Caller)
          → (resolve_caller host jwt headers s.time x.db).0 ≡ caller
          → InputsAreValid fl r
          → (elim caller as (λ _. Response fl × Exchange fl) [
            | invalid_credentials ↦ (
              rejected bad_credentials,
              record x { db = (resolve_caller host jwt headers s.time x.db).1 },
            )
            | account_suspended e ↦ (
              rejected (suspended e),
              record x { db = (resolve_caller host jwt headers s.time x.db).1 },
            )
            | caller_is consumer ↦
                admit fl host s r consumer
                  (record x { db = (resolve_caller host jwt headers s.time x.db).1 })
          ]).0
            ≡ t
          → Served host jwt s headers r x t
      admitted invalid_credentials e inputs k = absurd (never fl t bad_credentials live k)
      admitted (account_suspended z) e inputs k = absurd (never fl t (suspended z) live k)
      admitted (caller_is consumer) e inputs k =
          admit-Served host jwt s headers r x t consumer u live inputs e k
