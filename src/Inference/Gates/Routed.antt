-- ===== src/Inference/Gates/Routed.antt =====
-- Proofs about the provider that a request is relayed to, in
-- inference_exchange/coordinator/routes_inference.py.
use inference_exchange.Prelude.{
  Floats, IsOrdered, refl, ap, ◌≡◌, subst, String, true, false, none, some, ◌==◌, text_eq, nat_eq,
  Option-cases, Bool-cases, inl, inr,
}
use inference_exchange.Matching.{ConfidenceLevel}
use inference_exchange.Store.Schema.{Db}
use inference_exchange.Controls.{try_acquire}
use inference_exchange.Hub.{
  ConnectedProvider, Providers, Affinity, select_provider, parse_level, select_at, explain_at,
}
use inference_exchange.Hub.Selection.{ProvidersDistinct, Suits, select_at-Suits}
use inference_exchange.Hub.Pending.{
  Queue, Explains, try_dispatch, try_dispatch-Explains, dispatched, enqueue_request,
}
use inference_exchange.Inference.{ChatCompletionRequest}
use inference_exchange.Inference.Endpoint.{
  Exchange, Response, rejected, waiting, serving, Surroundings, attempt_send, pending_of, retry,
  dispatch, wait_in_queue, is_broke, route_and_dispatch, run_guarded, provider_error, is_rejected,
  resume, resume_guarded, Wakeup, timed_out, cleared, assigned, no_compatible_provider,
  queue_is_full, concurrency_limit, insufficient_balance, key_error, inference_is_paused,
}
use inference_exchange.Inference.Gates.Inputs.{never, past, attempt_send-Distinct}

module _ (fl : Floats) (ord : IsOrdered fl) where
  -- Where a request that is not refused is: relayed to a provider that suits it; or in the queue,
  -- under its own terms, where a pass over the queue gives it only a provider that suits it at that
  -- time, and a request that wakes up is relayed only to the provider that it was given.
  abbrev pub Placed :
      Surroundings fl → ChatCompletionRequest fl → String → ConfidenceLevel → Response fl → Type 0
  Placed s r model need (rejected e) = ⊥
  Placed s r model need (serving q) = Suits fl model need r.ocip_max_price s.now q
  Placed s r model need (waiting w) =
      (w ≡ pending_of fl s r model)
      × ((now : fl.Float) (ps : Providers fl) (d d' : Affinity fl) (queue queue' : Queue fl)
            (q : ConnectedProvider fl)
          → ProvidersDistinct fl ps
          → try_dispatch fl now ps d queue ≡ dispatched w q queue' d'
          → Suits fl model need r.ocip_max_price now q)
      × ((consumer : String) (later : Surroundings fl) (k : Wakeup fl) (x : Exchange fl)
            (q : ConnectedProvider fl)
          → (resume_guarded fl consumer later k x).0 ≡ serving q
          → k ≡ assigned (some q))

  retry-Placed :
      (s : Surroundings fl) (r : ChatCompletionRequest fl) (model : String) (need : ConfidenceLevel)
      (p : ConnectedProvider fl) (t : Response fl) (x : Exchange fl)
      → ProvidersDistinct fl x.hub.providers
      → is_rejected fl t ≡ false
      → (retry fl s r model need p x).0 ≡ t
      → Placed s r model need t
  unfolding retry
  retry-Placed s r model need p t x u live h =
      let found =
        select_at fl model r.ocip_preference need r.ocip_max_price "" none s.now x.hub.providers
          x.affinity in
      elim (Option-cases found.0) [
        | inl e ↦ absurd (never fl t provider_error live (rw (e, retry) at h))
        | inr (o, e) ↦
            let (m, suits) =
              select_at-Suits fl ord model r.ocip_preference need r.ocip_max_price "" none s.now
                x.hub.providers x.affinity o u e in
            let (_, k) =
              past fl t (o.provider_id == p.provider_id) provider_error _ _ live
                (rw (e, retry) at h) in
            let took = (attempt_send fl s.now s.accepts_retry s.request_id o x.hub).0 in
            elim (Bool-cases took) [
              | inl yes_sent ↦
                  let same : serving o ≡ t = rw yes_sent at k in
                  subst (Placed s r model need) same suits
              | inr not_sent ↦ absurd (never fl t provider_error live (rw not_sent at k))
            ]
      ]

  dispatch-Placed :
      (s : Surroundings fl) (r : ChatCompletionRequest fl) (model : String) (need : ConfidenceLevel)
      (p : ConnectedProvider fl) (t : Response fl) (x : Exchange fl)
      → ProvidersDistinct fl x.hub.providers
      → is_rejected fl t ≡ false
      → Suits fl model need r.ocip_max_price s.now p
      → (dispatch fl s r model need p x).0 ≡ t
      → Placed s r model need t
  unfolding dispatch
  dispatch-Placed s r model need p t x u live k h =
      let sent_first = attempt_send fl s.now s.accepts s.request_id p x.hub in
      elim (Bool-cases sent_first.0) [
        | inl took ↦
            let same : serving p ≡ t = rw (took, dispatch) at h in
            subst (Placed s r model need) same k
        | inr lost ↦
            retry-Placed s r model need p t (record x { hub = sent_first.1 })
              (attempt_send-Distinct fl s.now s.accepts s.request_id p x.hub u) live
              (rw (lost, dispatch) at h)
      ]

  -- What the queue's pass gives to a request with these terms.
  assigned-Suits :
      (s : Surroundings fl) (r : ChatCompletionRequest fl) (model : String) (need : ConfidenceLevel)
      (now : fl.Float) (ps : Providers fl) (d d' : Affinity fl) (queue queue' : Queue fl)
      (q : ConnectedProvider fl)
      → parse_level r.ocip_min_confidence ≡ some need
      → ProvidersDistinct fl ps
      → try_dispatch fl now ps d queue ≡ dispatched (pending_of fl s r model) q queue' d'
      → Suits fl model need r.ocip_max_price now q
  unfolding select_provider
  assigned-Suits s r model need now ps d d' queue queue' q e u h =
      let (_, _, _, _, _, chosen) =
        subst (Explains fl now ps d queue) h (try_dispatch-Explains fl now ps d queue) in
      let found =
        select_at fl model r.ocip_preference need r.ocip_max_price r.ocip_session_id none now ps
          d in
      let k : some found ≡ some (some q, d') = rw (e, select_provider) at chosen in
      let whole : found ≡ (some q, d') = cc k in
      (select_at-Suits fl ord model r.ocip_preference need r.ocip_max_price r.ocip_session_id none
        now ps d q u (ap (λ y. y.0) whole)).1

  resume_guarded-assigned :
      (consumer : String) (s : Surroundings fl) (k : Wakeup fl) (x : Exchange fl)
      (q : ConnectedProvider fl)
      → (resume_guarded fl consumer s k x).0 ≡ serving q
      → k ≡ assigned (some q)
  unfolding resume_guarded resume
  resume_guarded-assigned consumer s timed_out x q h = absurd (cc h)
  resume_guarded-assigned consumer s cleared x q h = absurd (cc h)
  resume_guarded-assigned consumer s (assigned none) x q h = absurd (cc h)
  resume_guarded-assigned consumer s (assigned (some p)) x q h =
      elim (Bool-cases (attempt_send fl s.now s.accepts s.request_id p x.hub).0) [
        | inl took ↦
            let same : ◌≡◌ {A = Response fl} (serving p) (serving q) = rw took at h in
            ap (λ y. assigned (some y)) (cc same)
        | inr lost ↦ absurd (never fl (serving q) provider_error refl (rw lost at h))
      ]

  wait_in_queue-Placed :
      (s : Surroundings fl) (r : ChatCompletionRequest fl) (model : String) (need : ConfidenceLevel)
      (t : Response fl) (x : Exchange fl)
      → parse_level r.ocip_min_confidence ≡ some need
      → is_rejected fl t ≡ false
      → (wait_in_queue fl s r model need x).0 ≡ t
      → Placed s r model need t
  unfolding wait_in_queue
  wait_in_queue-Placed s r model need t x level live h =
      elim (Option-cases (explain_at fl model need r.ocip_max_price s.now x.hub.providers)) [
        | inr (why, e) ↦
            absurd (never fl t (no_compatible_provider why) live (rw (e, wait_in_queue) at h))
        | inl e ↦
            elim (Option-cases (enqueue_request fl s.max_queue (pending_of fl s r model) x.queue)) [
              | inl f ↦ absurd (never fl t queue_is_full live (rw (e, f, wait_in_queue) at h))
              | inr (_, f) ↦
                  let same : waiting (pending_of fl s r model) ≡ t =
                    rw (e, f, wait_in_queue) at h in
                  subst (Placed s r model need) same (
                    refl,
                    (λ now ps d d' queue queue' q u k.
                        assigned-Suits s r model need now ps d d' queue queue' q level u k),
                    resume_guarded-assigned,
                  )
            ]
      ]

  -- What the part behind the slot guarantees.
  abbrev Routed :
      Surroundings fl → ChatCompletionRequest fl → String → String → Db → Response fl → Type 0
  Routed s r model consumer db t =
      (is_broke fl consumer db ≡ false)
      × ((need : ConfidenceLevel) × (parse_level r.ocip_min_confidence ≡ some need)
          × Placed s r model need t)

  route_and_dispatch-Routed :
      (s : Surroundings fl) (r : ChatCompletionRequest fl) (model consumer : String)
      (t : Response fl) (x : Exchange fl)
      → ProvidersDistinct fl x.hub.providers
      → is_rejected fl t ≡ false
      → (route_and_dispatch fl s r model consumer x).0 ≡ t
      → Routed s r model consumer x.db t
  unfolding route_and_dispatch
  route_and_dispatch-Routed s r model consumer t x u live h =
      let (pays, k) = past fl t (is_broke fl consumer x.db) insufficient_balance x _ live h in
      elim (Option-cases (parse_level r.ocip_min_confidence)) [
        | inl e ↦ absurd (never fl t key_error live (rw e at k))
        | inr (need, e) ↦
            let found =
              select_at fl model r.ocip_preference need r.ocip_max_price r.ocip_session_id
                (some s.reputation) s.now x.hub.providers x.affinity in
            let x' = record x { affinity = found.1 } in
            elim (Option-cases found.0) [
              | inl f ↦ (
                pays,
                (need, e, wait_in_queue-Placed s r model need t x' e live (rw (e, f) at k)),
              )
              | inr (p, f) ↦
                  let (_, suits) =
                    select_at-Suits fl ord model r.ocip_preference need r.ocip_max_price
                      r.ocip_session_id (some s.reputation) s.now x.hub.providers x.affinity p u
                      f in
                  (
                    pays,
                    (need, e, dispatch-Placed s r model need p t x' u live suits (rw (e, f) at k)),
                  )
            ]
      ]

  -- What `run_guarded` guarantees.
  pub run_guarded-Routed :
      (s : Surroundings fl) (r : ChatCompletionRequest fl) (model consumer : String)
      (t : Response fl) (x : Exchange fl)
      → ProvidersDistinct fl x.hub.providers
      → is_rejected fl t ≡ false
      → (run_guarded fl s r model consumer x).0 ≡ t
      → (x.controls.inference_paused ≡ false)
        × ((try_acquire consumer x.controls).0 ≡ true)
        × Routed s r model consumer x.db t
  unfolding run_guarded
  run_guarded-Routed s r model consumer t x u live h =
      let (open_now, k) = past fl t x.controls.inference_paused inference_is_paused x _ live h in
      let acquired = try_acquire consumer x.controls in
      elim (Bool-cases acquired.0) [
        | inl granted ↦ (
          open_now,
          granted,
          route_and_dispatch-Routed s r model consumer t (record x { controls = acquired.1 }) u live
              (rw granted at k),
        )
        | inr full ↦ absurd (never fl t concurrency_limit live (rw full at k))
      ]
