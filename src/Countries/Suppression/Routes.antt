-- ===== src/Countries/Suppression/Routes.antt =====
-- Proofs about the counters of one day in inference_exchange/coordinator/country_activity.py.
use inference_exchange.Prelude.{
  ℕ, suc, ◌+◌, ◌≤◌, ◌≡◌, refl, sym, subst, String, Bool, true, false, not, ◌&&◌, ◌||◌, Option, none,
  some, List, [], ◌∷◌, ◌==◌, nat_eq, text_eq, if◌then◌else◌, ltb, leb, length, any, count, elem,
  All, In, arith, Bool-cases, inl, inr,
}
use inference_exchange.Countries.Activity.{
  Completion, Route, Day, Kind, request_kind, consumer_kind, is_reserved, bump, is_route,
  count_route, count_request, min_consumers, max_completions_per_day, max_routes_per_day,
}

abbrev pub Distinct : List String → Type 0
Distinct [] = Unit
Distinct (x ∷ xs) = (elem x xs ≡ false) × Distinct xs

abbrev country_is : Option String → String → Bool
country_is none s = false
country_is (some c) s = c == s

-- A completion on the day, between the two countries, of a consumer that may be counted.
abbrev pub of_route : ℕ → String → String → Completion → Bool
of_route day source target c =
    (c.today == day)
    && country_is c.provider_country source
    && country_is c.caller_country target
    && not (is_reserved c.consumer_id)

-- The sum of the counters.
abbrev pub total : List Route → ℕ
total [] = 0
total (r ∷ rs) = r.count + total rs

module _ (digest : ℕ → Kind → String → String) where
  -- The digest of the consumer of a completion of the route, among those recorded so far.
  abbrev pub From : List Completion → ℕ → String → String → String → Type 0
  From log day source target h =
      (c : Completion) × In c log
      × (of_route day source target c ≡ true)
      × (digest day consumer_kind c.consumer_id ≡ h)

  pub record RouteIsSound (log : List Completion) (day : ℕ) (r : Route) : Type 0 where
    pub consumers_distinct : Distinct r.consumers
    pub consumers_few : length r.consumers ≤ 3
    pub consumers_from : All (From log day r.source r.target) r.consumers
    pub count_from : r.count ≤ count (of_route day r.source r.target) log

  From-older :
      (c : Completion) (log : List Completion) (day : ℕ) (source target : String) (hs : List String)
      → All (From log day source target) hs
      → All (From (c ∷ log) day source target) hs
  From-older c log day source target [] h = tt
  From-older c log day source target (x ∷ hs) h =
      let (e, m, f, g) = h.0 in ((e, inr m, f, g), From-older c log day source target hs h.1)

  RouteIsSound-older :
      (c : Completion) (log : List Completion) (day : ℕ) (r : Route)
      → RouteIsSound log day r
      → RouteIsSound (c ∷ log) day r
  RouteIsSound-older c log day r h = record {
    consumers_distinct = h.consumers_distinct;
    consumers_few = h.consumers_few;
    consumers_from = From-older c log day r.source r.target r.consumers h.consumers_from;
    count_from = ground (arith, h.count_from);
  }

  bump-RouteIsSound :
      (c : Completion) (log : List Completion) (day : ℕ) (r : Route)
      → of_route day r.source r.target c ≡ true
      → RouteIsSound log day r
      → RouteIsSound (c ∷ log) day (bump digest (digest day consumer_kind c.consumer_id) r)
  unfolding bump
  bump-RouteIsSound c log day r e h =
      let older = From-older c log day r.source r.target r.consumers h.consumers_from in
      let k = digest day consumer_kind c.consumer_id in
      let counted : suc r.count ≤ count (of_route day r.source r.target) (c ∷ log) =
        ground (arith, h.count_from, e) in
      elim (Bool-cases (ltb (length r.consumers) min_consumers && not (elem k r.consumers))) [
        | inl room ↦ record {
          consumers_distinct = rw (room) (ground (arith, room), h.consumers_distinct);
          consumers_few = rw (room) ground (arith, room);
          consumers_from = rw (room) ((c, inl refl, e, refl), older);
          count_from = counted;
        }
        | inr full ↦ record {
          consumers_distinct = rw full h.consumers_distinct;
          consumers_few = rw full h.consumers_few;
          consumers_from = rw full older;
          count_from = counted;
        }
      ]

  All-older :
      (c : Completion) (log : List Completion) (day : ℕ) (rs : List Route)
      → All (RouteIsSound log day) rs
      → All (RouteIsSound (c ∷ log) day) rs
  All-older c log day [] h = tt
  All-older c log day (r ∷ rs) h = (RouteIsSound-older c log day r h.0, All-older c log day rs h.1)

  count_route-RouteIsSound :
      (c : Completion) (log : List Completion) (day : ℕ) (source target : String) (rs : List Route)
      → of_route day source target c ≡ true
      → All (RouteIsSound log day) rs
      → All
          (RouteIsSound (c ∷ log) day)
          (count_route digest (digest day consumer_kind c.consumer_id) source target rs)
  unfolding count_route
  count_route-RouteIsSound c log day source target [] e h = (
    bump-RouteIsSound c log day
        (record { source = source; target = target; count = 0; consumers = [] }) e
        (record {
          consumers_distinct = tt;
          consumers_few = omega arith;
          consumers_from = tt;
          count_from = omega arith;
        }),
    tt,
  )
  count_route-RouteIsSound c log day source target (r ∷ rs) e h =
      elim (Bool-cases (is_route digest source target r)) [
        | inl same ↦
            let e' : of_route day r.source r.target c ≡ true = ground (arith, same, e) in
            rw same (bump-RouteIsSound c log day r e' h.0, All-older c log day rs h.1)
        | inr other ↦ rw other (
          RouteIsSound-older c log day r h.0,
          count_route-RouteIsSound c log day source target rs e h.1,
        )
      ]

  total-count_route :
      (h source target : String) (rs : List Route)
      → total (count_route digest h source target rs) ≡ suc (total rs)
  unfolding count_route
  total-count_route h source target [] = refl
  total-count_route h source target (r ∷ rs) = ground (arith, total-count_route h source target rs)

  length-count_route :
      (h source target : String) (rs : List Route)
      → length (count_route digest h source target rs)
        ≡ (if any (is_route digest source target) rs then length rs else suc (length rs))
  unfolding count_route
  length-count_route h source target [] = refl
  length-count_route h source target (r ∷ rs) =
      ground (arith, length-count_route h source target rs)

  pub record DayIsSound (log : List Completion) (d : Day) : Type 0 where
    pub routes_sound : All (RouteIsSound log d.day) d.routes
    pub seen_few : length d.seen ≤ 30_000
    pub routes_few : length d.routes ≤ 1024
    pub seen_distinct : Distinct d.seen
    pub total_seen : total d.routes ≡ length d.seen

  pub DayIsSound-older :
      (c : Completion) (log : List Completion) (d : Day) → DayIsSound log d → DayIsSound (c ∷ log) d
  DayIsSound-older c log d h = record {
    routes_sound = All-older c log d.day d.routes h.routes_sound;
    seen_few = h.seen_few;
    routes_few = h.routes_few;
    seen_distinct = h.seen_distinct;
    total_seen = h.total_seen;
  }

  pub count_request-DayIsSound :
      (c : Completion) (log : List Completion) (source target : String) (d : Day)
      → of_route d.day source target c ≡ true
      → DayIsSound log d
      → DayIsSound (c ∷ log) (count_request digest source target c d)
  unfolding count_request
  count_request-DayIsSound c log source target d e h =
      let same : c.today ≡ d.day = ground (arith, e) in
      elim (Bool-cases (
        elem (digest c.today request_kind c.request_id) d.seen
        || leb max_completions_per_day (length d.seen))) [
          | inl stop ↦ rw stop (DayIsSound-older c log d h)
          | inr go ↦
              elim (Bool-cases (
                not (any (is_route digest source target) d.routes)
                && leb max_routes_per_day (length d.routes))) [
                  | inl full ↦ rw (go, full) (DayIsSound-older c log d h)
                  | inr room ↦
                      rw (go, room)
                        (record {
                          routes_sound =
                              subst
                                (λ t. All (RouteIsSound (c ∷ log) d.day) (
                                  count_route digest (digest t consumer_kind c.consumer_id) source
                                    target d.routes))
                                (sym same)
                                (count_route-RouteIsSound c log d.day source target d.routes e
                                  h.routes_sound);
                          seen_few = ground (arith, go, h.seen_few);
                          routes_few = ground (
                            arith,
                            room,
                            h.routes_few,
                            length-count_route (digest c.today consumer_kind c.consumer_id) source
                                target d.routes,
                          );
                          seen_distinct = (ground (arith, go), h.seen_distinct);
                          total_seen = ground (
                            arith,
                            h.total_seen,
                            total-count_route (digest c.today consumer_kind c.consumer_id) source
                                target d.routes,
                          );
                        })
                ]
        ]
