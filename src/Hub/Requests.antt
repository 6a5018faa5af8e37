-- ===== src/Hub/Requests.antt =====
-- Requests in flight in inference_exchange/coordinator/provider_hub.py: which provider serves which
-- request, the queues of responses, and the callbacks that bill.
use inference_exchange.Prelude.{
  Floats, pos, ◌+ℤ◌, ◌-ℤ◌, max_ℤ, ◌≡◌, refl, String, Bool, true, false, not, ◌&&◌, List, [], ◌∷◌,
  ◌++◌, map, ◌==◌, text_eq, if◌then◌else◌, any, elem, select, update, delete, All, ◌||◌,
  All-delete_test, All-delete, All-of_In, In, Bool-cases, ◌≢◌, inl, inr, ap, arith,
}
use inference_exchange.Hub.{ConnectedProvider, Providers, requires_app_attest, admitted}

-- What a response queue is given.
pub data Message : Type 0 where
  chunk done_message error_message provider_disconnected : Message

All-and :
    (id : String) (ids : List String) (routes : List (String × String))
    → All (λ r. (r.0 == id) ≡ false) routes
    → All (λ r. elem r.0 ids ≡ false) routes
    → All (λ r. elem r.0 (id ∷ ids) ≡ false) routes
All-and id ids [] a b = tt
All-and id ids (r ∷ routes) (a, a_rest) (b, b_rest) =
    (ground (arith, a, b), All-and id ids routes a_rest b_rest)

-- `_response_queues`, `_request_to_provider` and `_billing_callbacks` beside the providers; the two
-- last lists say what leaves the hub: the outcomes recorded as failed and the callbacks invoked.
module _ (fl : Floats) where
  pub record HubState : Type 0 where
    pub providers : Providers fl
    pub response_queues : List (String × List Message)
    pub request_to_provider : List (String × String)
    pub billing_callbacks : List String
    pub failed_outcomes : List String
    pub billed : List String

  -- `put_nowait` on the queue of a request, if it has one.
  abbrev pub deliver : String → Message → HubState → HubState
  deliver id m h = record h {
    response_queues = update (λ q. q.0 == id) (λ q. (q.0, q.1 ++ (m ∷ []))) h.response_queues;
  }

  abbrev pub forget_route : String → HubState → HubState
  forget_route id h = record h {
    request_to_provider = delete (λ r. r.0 == id) h.request_to_provider;
  }

  -- `max(0, active_requests - 1)` on a provider that is connected.
  abbrev pub free_slot : String → HubState → HubState
  free_slot id h = record h {
    providers =
        update (λ p. p.provider_id == id)
          (λ p. record p { active_requests = max_ℤ (pos 0) (p.active_requests -ℤ pos 1) })
          h.providers;
  }

  abbrev orphan : String → HubState → HubState
  orphan id h =
      forget_route id
        (deliver id provider_disconnected (record h { failed_outcomes = id ∷ h.failed_outcomes }))

  abbrev orphan_all : List String → HubState → HubState
  orphan_all [] h = h
  orphan_all (id ∷ ids) h = orphan_all ids (orphan id h)

  -- The requests that a provider serves.
  abbrev pub served_by : String → HubState → List String
  served_by provider h = map (λ r. r.0) (select (λ r. r.1 == provider) h.request_to_provider)

  unfoldable pub disconnect_provider : String → HubState → List String × HubState
  disconnect_provider provider h =
      if any (λ p. p.provider_id == provider) h.providers
      then (let h' = orphan_all (served_by provider h) h in
          (
            served_by provider h,
            record h' { providers = delete (λ p. p.provider_id == provider) h'.providers },
          ))
      else ([], h)

  unfoldable pub create_response_queue : String → HubState → HubState
  create_response_queue id h =
      if any (λ q. q.0 == id) h.response_queues
      then record h { response_queues = update (λ q. q.0 == id) (λ q. (q.0, [])) h.response_queues }
      else record h { response_queues = h.response_queues ++ ((id, []) ∷ []) }

  unfoldable pub remove_response_queue : String → HubState → HubState
  remove_response_queue id h = record h {
    response_queues = delete (λ q. q.0 == id) h.response_queues;
    request_to_provider = delete (λ r. r.0 == id) h.request_to_provider;
    billing_callbacks = delete (λ c. c == id) h.billing_callbacks;
  }

  unfoldable pub register_billing_callback : String → HubState → HubState
  register_billing_callback id h =
      if elem id h.billing_callbacks
      then h
      else record h { billing_callbacks = id ∷ h.billing_callbacks }

  -- `_billing_callbacks.pop(request_id, None)` and the call of what it gives. A callback that raises
  -- has the outcome recorded as failed.
  abbrev pub settle_bill : String → Bool → HubState → HubState
  settle_bill id raises h =
      if elem id h.billing_callbacks
      then record h {
        billing_callbacks = delete (λ c. c == id) h.billing_callbacks;
        billed = id ∷ h.billed;
        failed_outcomes = if raises then id ∷ h.failed_outcomes else h.failed_outcomes;
      }
      else h

  -- The message types that `handle_provider_message` tells apart.
  pub data MessageType : Type 0 where
    inference_response inference_done inference_error other : MessageType

  -- `raises`: whether the billing callback raises. The pass over the pending queue that the code
  -- schedules after it is `try_dispatch`.
  unfoldable pub handle_provider_message :
      String → MessageType → String → Bool → HubState → HubState
  handle_provider_message provider inference_done id raises h =
      if id == "" then h else free_slot provider (settle_bill id raises (deliver id done_message h))
  handle_provider_message provider inference_response id raises h =
      if (id == "") then h else deliver id chunk h
  handle_provider_message provider inference_error id raises h =
      if (id == "") || not (any (λ q. q.0 == id) h.response_queues)
      then h
      else free_slot provider (
          let h' =
            deliver id error_message (record h { failed_outcomes = id ∷ h.failed_outcomes }) in
          record h' { billing_callbacks = delete (λ c. c == id) h'.billing_callbacks })
  handle_provider_message provider other id raises h = h

  -- The PermissionError, a socket that took the request, or one whose exception is raised again.
  pub data Sending : Type 0 where
    refused : Sending
    sent failed : HubState → Sending

  -- `_request_to_provider[request_id] = provider_id`: a key that is there keeps its place.
  abbrev set_route : String → String → List (String × String) → List (String × String)
  set_route id provider routes =
      if any (λ r. r.0 == id) routes
      then update (λ r. r.0 == id) (λ r. (r.0, provider)) routes
      else routes ++ ((id, provider) ∷ [])

  unfoldable pub send_to_provider :
      (now : fl.Float) → (accepts : Bool) → String → ConnectedProvider fl → HubState → Sending
  send_to_provider now accepts id p h =
      if not (admitted fl now p) && requires_app_attest fl p
      then refused
      else (let h' = record h {
        request_to_provider = set_route id p.provider_id h.request_to_provider;
        providers =
            update (λ q. q.provider_id == p.provider_id)
              (λ q. record q { active_requests = q.active_requests +ℤ pos 1 }) h.providers;
      } in
          if accepts then sent h' else failed (forget_route id (free_slot p.provider_id h')))

  elem-delete : (id : String) (xs : List String) → elem id (delete (λ c. c == id) xs) ≡ false
  elem-delete id [] = refl
  elem-delete id (x ∷ xs) = ground (arith, elem-delete id xs)

  -- A second message that the same request is done, from any provider, bills nothing more, whether
  -- or not the callbacks raise.
  pub done-billed_once :
      (provider later id : String) (raises raises' : Bool) (h : HubState)
      → let h1 = handle_provider_message provider inference_done id raises h in
        (handle_provider_message later inference_done id raises' h1).billed ≡ h1.billed
  unfolding handle_provider_message
  done-billed_once provider later id raises raises' h =
      ground (arith, elem-delete id h.billing_callbacks)

  -- A message that a request with a registered billing callback is done bills it once; but where
  -- the response queue of the request is removed before the message, the message bills nothing,
  -- although the comment on InferenceDone in handle_provider_message says that it bills even then.
  pub remove_response_queue-unbilled :
      (provider id : String) (raises : Bool) (h : HubState)
      → id ≢ ""
      → let registered = register_billing_callback id h in
        ((handle_provider_message provider inference_done id raises registered).billed
          ≡ id ∷ h.billed)
        × ((handle_provider_message provider inference_done id raises
              (remove_response_queue id registered)).billed
            ≡ h.billed)
  unfolding handle_provider_message remove_response_queue register_billing_callback
  remove_response_queue-unbilled provider id raises h named =
      elim (Bool-cases (elem id h.billing_callbacks)) [
        | inl there ↦ rw there (
          ground (arith, there, named),
          ground (arith, named, elem-delete id h.billing_callbacks),
        )
        | inr new ↦
            rw new (
              ground (arith, named, new),
              ground (arith, named, elem-delete id h.billing_callbacks),
            )
      ]

  orphan_all-All :
      (P : String × String → Type 0) (ids : List String) (h : HubState)
      → All P h.request_to_provider
      → All P (orphan_all ids h).request_to_provider
  orphan_all-All P [] h a = a
  orphan_all-All P (id ∷ ids) h a =
      orphan_all-All P ids (orphan id h) (All-delete P (λ r. r.0 == id) h.request_to_provider a)

  orphan_all-elem :
      (ids : List String) (h : HubState)
      → All (λ r. elem r.0 ids ≡ false) (orphan_all ids h).request_to_provider
  orphan_all-elem [] h = All-of_In _ h.request_to_provider (λ r m. refl)
  orphan_all-elem (id ∷ ids) h =
      All-and id ids (orphan_all ids (orphan id h)).request_to_provider
        (orphan_all-All (λ r. (r.0 == id) ≡ false) ids (orphan id h)
          (All-delete_test (λ r. r.0 == id) h.request_to_provider))
        (orphan_all-elem ids (orphan id h))

  served-elem :
      (provider : String) (routes : List (String × String)) (r : String × String)
      → In r routes
      → (r.1 == provider) ≡ true
      → elem r.0 (map (λ s. s.0) (select (λ s. s.1 == provider) routes)) ≡ true
  served-elem provider [] r m e = absurd m
  served-elem provider (s ∷ routes) r (inl f) e =
      ground (arith, e, ap (λ t. t.0) f, ap (λ t. t.1) f)
  served-elem provider (s ∷ routes) r (inr m) e = ground (arith, served-elem provider routes r m e)

  unserved :
      (provider : String) (routes kept : List (String × String))
      → All (λ r. In r routes) kept
      → All (λ r. elem r.0 (map (λ s. s.0) (select (λ s. s.1 == provider) routes)) ≡ false) kept
      → All (λ r. (r.1 == provider) ≡ false) kept
  unserved provider routes [] a b = tt
  unserved provider routes (r ∷ kept) (a, a_rest) (b, b_rest) = (
    ground (arith, b, served-elem provider routes r a),
    unserved provider routes kept a_rest b_rest,
  )

  -- Where a provider is connected, after its disconnection no provider has its id, no request is
  -- routed to it, and the orphans returned are the requests that it served.
  pub disconnect_provider_lem :
      (provider : String) (h : HubState)
      → any (λ p. p.provider_id == provider) h.providers ≡ true
      → let (orphans, h') = disconnect_provider provider h in
        All (λ p. (p.provider_id == provider) ≡ false) h'.providers
        × All (λ r. (r.1 == provider) ≡ false) h'.request_to_provider
        × (orphans ≡ served_by provider h)
  unfolding disconnect_provider
  disconnect_provider_lem provider h here = rw here (
    All-delete_test (λ p. p.provider_id == provider) _,
    unserved provider h.request_to_provider _
        (orphan_all-All (λ r. In r h.request_to_provider) (served_by provider h) h
          (All-of_In _ h.request_to_provider (λ r m. m)))
        (orphan_all-elem (served_by provider h) h),
    refl,
  )
