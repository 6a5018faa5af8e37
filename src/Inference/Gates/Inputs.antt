-- ===== src/Inference/Gates/Inputs.antt =====
-- Proofs about the inputs of a chat completion and what relaying it does to the providers, in
-- inference_exchange/coordinator/routes_inference.py.
use inference_exchange.Prelude.{
  Floats, Host, ◌≤◌, ◌≡◌, ◌≢◌, refl, ap, pos, ◌+ℤ◌, ◌-ℤ◌, max_ℤ, leb_ℤ, String, Bool, true, false,
  Option, none, some, List, [], ◌∷◌, ◌==◌, text_eq, nat_eq, if◌then◌else◌, count, length, update,
  arith, text_ne,
}
use inference_exchange.Hub.{ConnectedProvider}
use inference_exchange.Hub.Selection.{ProvidersDistinct}
use inference_exchange.Hub.Requests.{
  HubState, send_to_provider, create_response_queue, remove_response_queue,
}
use inference_exchange.Inference.{
  ChatCompletionRequest, InvalidInput, InvalidModel, validate_inputs, validate_model,
  model_required, model_name, total_chars,
}
use inference_exchange.Inference.Endpoint.{
  Exchange, Response, Rejection, rejected, is_rejected, attempt_send, model_text, bad_model,
  bad_inputs,
}

module _ (fl : Floats) where
  pub never : (t : Response fl) (e : Rejection fl) → is_rejected fl t ≡ false → rejected e ≡ t → ⊥
  never t e live h = absurd (ground (arith, live, ap (is_rejected fl) h))

  -- A request that is not refused in the end has passed each check.
  pub past :
      (t : Response fl) (b : Bool) (e : Rejection fl) (x : Exchange fl)
      (v : Response fl × Exchange fl)
      → is_rejected fl t ≡ false
      → (if b then (rejected e, x) else v).0 ≡ t
      → (b ≡ false) × (v.0 ≡ t)
  past t true e x v live h = absurd (never t e live h)
  past t false e x v live h = (refl, h)

  pub past_inputs :
      (t : Response fl) (o : Option InvalidInput) (x : Exchange fl) (v : Response fl × Exchange fl)
      → is_rejected fl t ≡ false
      → (elim o as (λ _. Response fl × Exchange fl) [
        | some e ↦ (rejected (bad_inputs e), x)
        | none ↦ v
      ]).0
        ≡ t
      → (o ≡ none) × (v.0 ≡ t)
  past_inputs t none x v live h = (refl, h)
  past_inputs t (some e) x v live h = absurd (never t (bad_inputs e) live h)

  pub past_model :
      (t : Response fl) (o : Option InvalidModel) (x : Exchange fl) (v : Response fl × Exchange fl)
      → is_rejected fl t ≡ false
      → (elim o as (λ _. Response fl × Exchange fl) [
        | some e ↦ (rejected (bad_model e), x)
        | none ↦ v
      ]).0
        ≡ t
      → (o ≡ none) × (v.0 ≡ t)
  past_model t none x v live h = (refl, h)
  past_model t (some e) x v live h = absurd (never t (bad_model e) live h)

  -- The ids of the providers stay what they are.
  count-update :
      (t : ConnectedProvider fl → Bool) (f : ConnectedProvider fl → ConnectedProvider fl)
      (id : String) (ps : List (ConnectedProvider fl))
      → ((p : ConnectedProvider fl) → (f p).provider_id ≡ p.provider_id)
      → count (λ p. p.provider_id == id) (update t f ps) ≡ count (λ p. p.provider_id == id) ps
  count-update t f id [] h = refl
  count-update t f id (p ∷ ps) h = ground (arith, h p, count-update t f id ps h)

  create_response_queue-providers :
      (id : String) (h : HubState fl) → (create_response_queue fl id h).providers ≡ h.providers
  unfolding create_response_queue
  create_response_queue-providers id h = ground arith

  pub attempt_send-Distinct :
      (now : fl.Float) (accepts : Bool) (id : String) (p : ConnectedProvider fl) (h : HubState fl)
      → ProvidersDistinct fl h.providers
      → ProvidersDistinct fl (attempt_send fl now accepts id p h).1.providers
  unfolding attempt_send send_to_provider remove_response_queue
  attempt_send-Distinct now accepts id p h u j =
      let same : ConnectedProvider fl → Bool = λ q. q.provider_id == p.provider_id in
      let more : ConnectedProvider fl → ConnectedProvider fl =
        λ q. record q { active_requests = q.active_requests +ℤ pos 1 } in
      let less : ConnectedProvider fl → ConnectedProvider fl =
        λ q. record q { active_requests = max_ℤ (pos 0) (q.active_requests -ℤ pos 1) } in
      let ps = (create_response_queue fl id h).providers in
      ground (
        arith,
        u j,
        ap (count (λ q. q.provider_id == j)) (create_response_queue-providers id h),
        count-update same more j ps (λ q. refl),
        count-update same less j (update same more ps) (λ q. refl),
      )

  pub record InputsAreValid (r : ChatCompletionRequest fl) : Type 0 where
    pub some_messages : 1 ≤ length r.messages
    pub few_messages : length r.messages ≤ 100
    pub content_bounded : total_chars r.messages ≤ 200_000
    pub tokens_positive : leb_ℤ (pos 1) r.max_tokens ≡ true
    pub tokens_bounded : leb_ℤ r.max_tokens (pos 32_768) ≡ true

  pub validate_inputs-InputsAreValid :
      (r : ChatCompletionRequest fl) → validate_inputs fl r ≡ none → InputsAreValid r
  unfolding validate_inputs
  validate_inputs-InputsAreValid r h = record {
    some_messages = ground (arith, h);
    few_messages = ground (arith, h);
    content_bounded = ground (arith, h);
    tokens_positive = ground (arith, h);
    tokens_bounded = ground (arith, h);
  }

  pub validate_model-named :
      (host : Host) (r : ChatCompletionRequest fl)
      → validate_model fl host r ≡ none
      → (r.model ≡ some (model_text r.model))
        × (model_text r.model ≢ "default")
        × (model_text r.model ≡ host.strip (model_text r.model))
  unfolding validate_model
  validate_model-named host r h = named r.model h
    where
      named :
          (o : Option String)
          → (elim o as (λ _. Option InvalidModel) [
            | none ↦ some model_required
            | some m ↦ model_name fl host m
          ])
            ≡ none
          → (o ≡ some (model_text o))
            × (model_text o ≢ "default")
            × (model_text o ≡ host.strip (model_text o))
      named none k = absurd (cc k)
      named (some m) k = (refl, text_ne m "default" (ground (arith, k)), ground (arith, k))
