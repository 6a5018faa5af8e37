-- ===== src/Countries/Suppression/Release.antt =====
-- Proofs about what `snapshot` of inference_exchange/coordinator/country_activity.py publishes.
use inference_exchange.Prelude.{
  ℕ, suc, ◌≤◌, ◌≡◌, ◌≢◌, ap, subst, String, Bool, true, false, some, List, [], ◌∷◌, map, ◌==◌,
  nat_eq, text_eq, length, select, first, count, All, All-In, All-sort_by, In, sort_by, arith,
  Bool-cases, Option-cases, inl, inr,
}
use inference_exchange.Countries.Activity.{
  Completion, Kind, Route, Day, Days, prune_days, route_before, is_released, release_route,
  Released, routes_before, snapshot, consumer_kind,
}
use inference_exchange.Countries.Suppression.Routes.{
  of_route, From, RouteIsSound, Distinct, DayIsSound,
}
use inference_exchange.Countries.Suppression.{Reached, IsSound, Reached-IsSound, prune_days-IsSound}

module _ (digest : ℕ → Kind → String → String) where
  -- A route with enough completions of enough consumers on the day before.
  abbrev pub Suppressed : List Completion → ℕ → Released → Type 0
  Suppressed log today x =
      (day : ℕ) × (suc day ≡ today)
      × (5 ≤ count (of_route day x.provider_country x.caller_country) log)
      × ((a b c : Completion) × In a log
          × In b log
          × In c log
          × All (λ e. of_route day x.provider_country x.caller_country e ≡ true) (a ∷ b ∷ c ∷ [])
          × (a.consumer_id ≢ b.consumer_id)
          × (a.consumer_id ≢ c.consumer_id)
          × (b.consumer_id ≢ c.consumer_id))

  three_consumers :
      (log : List Completion) (day : ℕ) (source target : String) (hs : List String)
      → All (From digest log day source target) hs
      → Distinct hs
      → 3 ≤ length hs
      → ((a b c : Completion) × In a log
          × In b log
          × In c log
          × All (λ e. of_route day source target e ≡ true) (a ∷ b ∷ c ∷ [])
          × (a.consumer_id ≢ b.consumer_id)
          × (a.consumer_id ≢ c.consumer_id)
          × (b.consumer_id ≢ c.consumer_id))
  three_consumers log day source target [] f d n = absurd (omega arith)
  three_consumers log day source target (x ∷ []) f d n = absurd (omega arith)
  three_consumers log day source target (x ∷ y ∷ []) f d n = absurd (omega arith)
  three_consumers log day source target (x ∷ y ∷ z ∷ hs) f d n =
      let ((a, ma, ra, ea), ((b, mb, rb, eb), ((c, mc, rc, ec), _))) = f in
      let same : (u v : Completion)
          → u.consumer_id ≡ v.consumer_id
          → digest day consumer_kind u.consumer_id ≡ digest day consumer_kind v.consumer_id =
        λ u v e. ap (digest day consumer_kind) e in
      (
        a,
        b,
        c,
        ma,
        mb,
        mc,
        (ra, (rb, (rc, tt))),
        (λ e. ground (arith, same a b e, ea, eb, d.0)),
        (λ e. ground (arith, same a c e, ea, ec, d.0)),
        (λ e. ground (arith, same b c e, eb, ec, d.1.0)),
      )

  RouteIsSound-Suppressed :
      (log : List Completion) (today : ℕ) (day : ℕ) (r : Route)
      → suc day ≡ today
      → is_released r ≡ true
      → RouteIsSound digest log day r
      → Suppressed log today (release_route r)
  RouteIsSound-Suppressed log today day r e k h =
      let enough : 5 ≤ r.count = ground (arith, k) in
      (
        day,
        e,
        omega (arith, h.count_from, enough),
        three_consumers log day r.source r.target r.consumers h.consumers_from h.consumers_distinct
            (ground (arith, k)),
      )

  first_found :
      (p : Day → Bool) (ds : Days) (d : Day) → first p ds ≡ some d → In d ds × (p d ≡ true)
  first_found p [] d h = absurd (cc h)
  first_found p (x ∷ ds) d h = elim (Bool-cases (p x)) [
    | inl e ↦
        let k : some x ≡ some d = rw e at h in
        let same : x ≡ d = cc k in (inl same, subst (λ y. p y ≡ true) same e)
    | inr e ↦ let (m, f) = first_found p ds d (rw e at h) in (inr m, f)
  ]

  Released-Suppressed :
      (log : List Completion) (today day : ℕ) (rs : List Route)
      → suc day ≡ today
      → All (RouteIsSound digest log day) rs
      → All (Suppressed log today) (map release_route (select is_released rs))
  Released-Suppressed log today day [] e h = tt
  Released-Suppressed log today day (r ∷ rs) e h = elim (Bool-cases (is_released r)) [
    | inl k ↦ rw k (
      RouteIsSound-Suppressed log today day r e k h.0,
      Released-Suppressed log today day rs e h.1,
    )
    | inr k ↦ rw k (Released-Suppressed log today day rs e h.1)
  ]

  routes_before-Suppressed :
      (log : List Completion) (today : ℕ) (days : Days)
      → IsSound digest log days
      → All
          (Suppressed log today)
          (map release_route (select is_released (sort_by route_before (routes_before today days))))
  unfolding routes_before sort_by
  routes_before-Suppressed log today days h =
      elim (Option-cases (first (λ d. suc d.day == today) days)) [
        | inl e ↦ rw (e, routes_before) tt
        | inr (d, e) ↦
            let (m, same) = first_found (λ x. suc x.day == today) days d e in
            let sound = All-In (DayIsSound digest log) days d h.days_sound m in
            rw (e, routes_before)
              (Released-Suppressed log today d.day _ (ground (arith, same)) (
                All-sort_by (RouteIsSound digest log d.day) route_before d.routes
                  sound.routes_sound))
      ]

  -- In every state that recorded completions, expiries and snapshots lead to, a route that a
  -- snapshot publishes has at least five recorded completions of the day before between its two
  -- countries, of consumers that may be counted, three of them of three different consumers.
  pub snapshot-Suppressed :
      (log : List Completion) (days : Days) (enabled : Bool) (today : ℕ)
      → Reached digest log days
      → All (Suppressed log today) (snapshot enabled today days).0
  unfolding snapshot
  snapshot-Suppressed log days true today r =
      routes_before-Suppressed log today (prune_days today days)
        (prune_days-IsSound digest log today days (Reached-IsSound digest log days r))
  snapshot-Suppressed log days false today r = tt
