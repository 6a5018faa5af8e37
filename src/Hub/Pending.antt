-- ===== src/Hub/Pending.antt =====
-- The queue of requests that wait for a provider, in
-- inference_exchange/coordinator/provider_hub.py: `enqueue_request` and `_try_dispatch_queued`.
use inference_exchange.Prelude.{
  Floats, ℕ, ◌≤◌, ◌≡◌, refl, ap, sym, subst, String, ◌&&◌, Option, none, some, List, [], ◌∷◌, ◌++◌,
  if◌then◌else◌, length, length-append, ltb, leb, In, All, arith, Option-cases, Bool-cases, inl,
  inr, ◌∙◌,
}
use inference_exchange.Matching.{MatchResult}
use inference_exchange.Hub.{
  ConnectedProvider, Providers, Affinity, find_provider, selected, select_at, select_provider,
  parse_level,
}

some_injective {ℓ} : {A : Type ℓ} {a b : A} → some a ≡ some b → a ≡ b
some_injective h = cc h

module _ (fl : Floats) where
  open fl use {Float}

  pub record PendingRequest : Type 0 where
    pub request_id : String
    pub model : String
    pub preference : String
    pub min_confidence : String
    pub max_price : Option Float
    pub session_id : String

  abbrev pub Queue : Type 0
  Queue = List PendingRequest

  -- `put_nowait` on a queue of a maximal size, 0 meaning none; `none` is `QueueFull`.
  unfoldable pub enqueue_request : ℕ → PendingRequest → Queue → Option Queue
  enqueue_request max_size r q =
      if ltb 0 max_size && leb max_size (length q) then none else some (q ++ (r ∷ []))

  -- `clear_queue`: how many were failed, and the queue after it.
  unfoldable pub clear_queue : Queue → ℕ × Queue
  clear_queue q = (length q, [])

  abbrev pub select_for :
      Float
      → Providers fl
      → Affinity fl
      → PendingRequest
      → Option (Option (ConnectedProvider fl) × Affinity fl)
  select_for now ps d r =
      select_provider fl r.model r.preference r.min_confidence r.max_price r.session_id none now ps
        d

  -- What one pass over the queue does: who was given a provider, and the queue and the affinities
  -- after it.
  pub data Pass : Type 0 where
    key_error : Pass
    idle : Queue → Affinity fl → Pass
    dispatched : PendingRequest → ConnectedProvider fl → Queue → Affinity fl → Pass

  abbrev put_first : PendingRequest → Pass → Pass
  put_first r key_error = key_error
  put_first r (idle q d) = idle (r ∷ q) d
  put_first r (dispatched s p q d) = dispatched s p (r ∷ q) d

  -- One round of the loop: `rest` is what the rounds after it do.
  unfoldable attempt :
      PendingRequest
      → Queue
      → (Affinity fl → Pass)
      → Option (Option (ConnectedProvider fl) × Affinity fl)
      → Pass
  attempt r q rest none = key_error
  attempt r q rest (some (none, d')) = put_first r (rest d')
  attempt r q rest (some (some p, d')) = dispatched r p q d'

  -- `_try_dispatch_queued`: the first request in order that a provider is found for.
  unfoldable pub try_dispatch : Float → Providers fl → Affinity fl → Queue → Pass
  unfolding attempt
  try_dispatch now ps d [] = idle [] d
  try_dispatch now ps d (r ∷ q) =
      attempt r q (λ d'. try_dispatch now ps d' q) (select_for now ps d r)

  -- A search that finds nobody leaves the affinities as they are.
  selected-none :
      (session : String) (ps : Providers fl) (d : Affinity fl) (ms : List (MatchResult fl))
      → (selected fl session ps d ms).0 ≡ none
      → (selected fl session ps d ms).1 ≡ d
  unfolding selected
  selected-none session ps d [] h = refl
  selected-none session ps d (m ∷ ms) h = elim (Option-cases (find_provider fl m.provider_id ps)) [
    | inl e ↦ rw (e, selected)
    | inr (p, e) ↦ absurd (let k : some p ≡ none = rw (e, selected) at h in cc)
  ]

  select_for-none :
      (now : Float) (ps : Providers fl) (d d' : Affinity fl) (r : PendingRequest)
      → select_for now ps d r ≡ some (none, d')
      → d' ≡ d
  unfolding select_provider select_at
  select_for-none now ps d d' r h = elim (Option-cases (parse_level r.min_confidence)) [
    | inl e ↦ absurd (let k : none ≡ some (none, d') = rw (e, select_provider) at h in cc)
    | inr (need, e) ↦
        let x = select_at fl r.model r.preference need r.max_price r.session_id none now ps d in
        let k : some x ≡ some (none, d') = rw (e, select_provider) at h in
        let whole : x ≡ (none, d') = some_injective k in
        sym (ap (λ y. y.1) whole) ∙ selected-none r.session_id ps d _ (ap (λ y. y.0) whole)
  ]

  -- The request finds no provider for now.
  abbrev pub Waits : Float → Providers fl → Affinity fl → PendingRequest → Type 0
  Waits now ps d r = select_for now ps d r ≡ some (none, d)

  -- How a pass accounts for the queue that it was given.
  abbrev pub Explains : Float → Providers fl → Affinity fl → Queue → Pass → Type 0
  Explains now ps d q key_error = (r : PendingRequest) × In r q × (select_for now ps d r ≡ none)
  Explains now ps d q (idle q' d') = (q' ≡ q) × (d' ≡ d) × All (Waits now ps d) q
  Explains now ps d q (dispatched r p q' d') =
      (front : Queue) × (back : Queue) × (q ≡ front ++ (r ∷ back))
      × (q' ≡ front ++ back)
      × All (Waits now ps d) front
      × (select_for now ps d r ≡ some (some p, d'))

  put_first-Explains :
      (now : Float) (ps : Providers fl) (d : Affinity fl) (s : PendingRequest) (q : Queue)
      (x : Pass)
      → Waits now ps d s
      → Explains now ps d q x
      → Explains now ps d (s ∷ q) (put_first s x)
  put_first-Explains now ps d s q key_error w (r, m, e) = (r, inr m, e)
  put_first-Explains now ps d s q (idle q' d') w (eq, ed, all) = (ap (λ t. s ∷ t) eq, ed, (w, all))
  put_first-Explains now ps d s q (dispatched r p q' d') w (front, back, e, e', all, f) =
      (s ∷ front, back, ap (λ t. s ∷ t) e, ap (λ t. s ∷ t) e', (w, all), f)

  attempt-Explains :
      (now : Float) (ps : Providers fl) (d : Affinity fl) (r : PendingRequest) (q : Queue)
      (rest : Affinity fl → Pass) (o : Option (Option (ConnectedProvider fl) × Affinity fl))
      → select_for now ps d r ≡ o
      → Explains now ps d q (rest d)
      → Explains now ps d (r ∷ q) (attempt r q rest o)
  unfolding attempt
  attempt-Explains now ps d r q rest none e h = (r, inl refl, e)
  attempt-Explains now ps d r q rest (some (some p, d')) e h = ([], q, refl, refl, tt, e)
  attempt-Explains now ps d r q rest (some (none, d')) e h =
      let same : d' ≡ d = select_for-none now ps d d' r e in
      subst (λ c. Explains now ps d (r ∷ q) (put_first r (rest c))) (sym same)
        (put_first-Explains now ps d r q (rest d) (rw same at e) h)

  -- A pass over the pending queue either meets a request for which the selection raises; or finds
  -- nobody for any request and leaves queue and affinities as they are; or gives a provider to the
  -- first request in order that one is selected for, every request before it finding none, and
  -- removes that request alone, the order of the others kept.
  pub try_dispatch-Explains :
      (now : Float) (ps : Providers fl) (d : Affinity fl) (q : Queue)
      → Explains now ps d q (try_dispatch now ps d q)
  unfolding try_dispatch
  try_dispatch-Explains now ps d [] = (refl, refl, tt)
  try_dispatch-Explains now ps d (r ∷ q) =
      attempt-Explains now ps d r q (λ d'. try_dispatch now ps d' q) (select_for now ps d r) refl
        (try_dispatch-Explains now ps d q)

  abbrev pub Enqueued : ℕ → PendingRequest → Queue → Option Queue → Type 0
  Enqueued max_size r q none = (1 ≤ max_size) × (max_size ≤ length q)
  Enqueued max_size r q (some q') =
      (q' ≡ q ++ (r ∷ [])) × (1 ≤ max_size → length q ≤ max_size → length q' ≤ max_size)

  -- A request is refused by the queue only where a positive maximal size is reached; else it is
  -- appended, and a queue within a positive maximal size stays within it.
  pub enqueue_request-Enqueued :
      (max_size : ℕ) (r : PendingRequest) (q : Queue)
      → Enqueued max_size r q (enqueue_request max_size r q)
  unfolding enqueue_request
  enqueue_request-Enqueued max_size r q =
      elim (Bool-cases (ltb 0 max_size && leb max_size (length q))) [
        | inl full ↦ rw full (ground (arith, full), ground (arith, full))
        | inr room ↦ rw room (refl, λ bounded fits. ground (arith, room, length-append q (r ∷ [])))
      ]
