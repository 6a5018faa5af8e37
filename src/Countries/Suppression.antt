-- ===== src/Countries/Suppression.antt =====
-- Proofs about what `CountryActivity` of inference_exchange/coordinator/country_activity.py keeps
-- and publishes.
pub mod Routes
pub mod Release
pub mod Repeat
use inference_exchange.Prelude.{
  ℕ, zero, suc, ◌+◌, ◌≤◌, ◌≡◌, ◌≢◌, refl, sym, ap, subst, ◌∙◌, String, Bool, true, false, not, ◌&&◌,
  ◌||◌, Option, none, some, List, [], ◌∷◌, map, ◌==◌, nat_eq, text_eq, if◌then◌else◌, ltb, leb,
  length, select, first, any, update, count, count-none, elem, All, All-update, All-In, All-sort_by,
  In, In-select, sort_by, arith, Bool-cases, Option-cases, inl, inr,
}
use inference_exchange.Countries.Activity.{
  Completion, Kind, Route, Day, Days, in_window, prune_days, expire, in_countries, is_reserved,
  empty_day, open_day, counted_before, count_request, record_open, record_between,
  record_completion, route_before, is_released, release_route, Released, routes_before, snapshot,
  count_band, max_completions_per_day, max_routes_per_day, consumer_kind,
}
use inference_exchange.Countries.Suppression.Routes.{
  of_route, From, RouteIsSound, Distinct, total, DayIsSound, DayIsSound-older,
  count_request-DayIsSound,
}

module _ (digest : ℕ → Kind → String → String) where
  -- The completions recorded so far, the last one first, and the state they lead to, with any
  -- number of expiries and snapshots between them.
  pub data Reached : List Completion → Days → Type 0 where
    start : Reached [] []
    recorded :
        {log : List Completion} {days : Days} (c : Completion)
        → Reached log days
        → Reached (c ∷ log) (record_completion digest c days)
    expired :
        {log : List Completion} {days : Days} (enabled : Bool) (today : ℕ)
        → Reached log days
        → Reached log (expire enabled today days)
    published :
        {log : List Completion} {days : Days} (enabled : Bool) (today : ℕ)
        → Reached log days
        → Reached log (snapshot enabled today days).1

  pub record IsSound (log : List Completion) (days : Days) : Type 0 where
    pub days_sound : All (DayIsSound digest log) days
    pub days_unique : (n : ℕ) → count (λ d. d.day == n) days ≤ 1
    pub days_recent : (t : ℕ) × All (λ d. in_window t d ≡ true) days

  All-select : (P : Day → Type 0) (p : Day → Bool) (ds : Days) → All P ds → All P (select p ds)
  All-select P p [] h = tt
  All-select P p (d ∷ ds) h = ground (arith, All-select P p ds h.1)

  All-select_test : (p : Day → Bool) (ds : Days) → All (λ d. p d ≡ true) (select p ds)
  All-select_test p [] = tt
  All-select_test p (d ∷ ds) = ground (arith, All-select_test p ds)

  count-select : (p q : Day → Bool) (ds : Days) → count q (select p ds) ≤ count q ds
  count-select p q [] = omega arith
  count-select p q (d ∷ ds) = ground (arith, count-select p q ds)

  pub prune_days-IsSound :
      (log : List Completion) (today : ℕ) (days : Days)
      → IsSound log days
      → IsSound log (prune_days today days)
  unfolding prune_days
  prune_days-IsSound log today days h = record {
    days_sound = All-select (DayIsSound digest log) (in_window today) days h.days_sound;
    days_unique =
        λ n. omega (arith, count-select (in_window today) (λ d. d.day == n) days, h.days_unique n);
    days_recent = (today, All-select_test (in_window today) days);
  }

  none-IsSound : (log : List Completion) → IsSound log []
  none-IsSound log = record {
    days_sound = tt;
    days_unique = λ n. omega arith;
    days_recent = (0, tt);
  }

  expire-IsSound :
      (log : List Completion) (enabled : Bool) (today : ℕ) (days : Days)
      → IsSound log days
      → IsSound log (expire enabled today days)
  unfolding expire
  expire-IsSound log true today days h = prune_days-IsSound log today days h
  expire-IsSound log false today days h = none-IsSound log

  snapshot-IsSound :
      (log : List Completion) (enabled : Bool) (today : ℕ) (days : Days)
      → IsSound log days
      → IsSound log (snapshot enabled today days).1
  unfolding snapshot
  snapshot-IsSound log true today days h = prune_days-IsSound log today days h
  snapshot-IsSound log false today days h = none-IsSound log

  older :
      (c : Completion) (log : List Completion) (ds : Days)
      → All (DayIsSound digest log) ds
      → All (DayIsSound digest (c ∷ log)) ds
  older c log [] k = tt
  older c log (d ∷ ds) k = (DayIsSound-older digest c log d k.0, older c log ds k.1)

  IsSound-older :
      (c : Completion) (log : List Completion) (days : Days)
      → IsSound log days
      → IsSound (c ∷ log) days
  IsSound-older c log days h = record {
    days_sound = older c log days h.days_sound;
    days_unique = h.days_unique;
    days_recent = h.days_recent;
  }

  -- With a window that ends today.
  IsSoundAt : List Completion → ℕ → Days → Type 0
  IsSoundAt log today days =
      All (DayIsSound digest log) days
      × ((n : ℕ) → count (λ d. d.day == n) days ≤ 1)
      × All (λ d. in_window today d ≡ true) days

  any-none : (p : Day → Bool) (ds : Days) → any p ds ≡ false → count p ds ≡ 0
  any-none p [] h = refl
  any-none p (d ∷ ds) h = ground (arith, any-none p ds)

  open_day-IsSoundAt :
      (log : List Completion) (today : ℕ) (days : Days)
      → IsSoundAt log today days
      → IsSoundAt log today (open_day today days)
  unfolding open_day IsSoundAt
  open_day-IsSoundAt log today days (sound, unique, recent) =
      elim (Bool-cases (any (λ d. d.day == today) days)) [
        | inl there ↦ rw there (sound, unique, recent)
        | inr absent ↦ rw absent (
          (
            record {
              routes_sound = tt;
              seen_few = omega arith;
              routes_few = omega arith;
              seen_distinct = tt;
              total_seen = refl;
            },
            sound,
          ),
          (λ n. elim (Bool-cases (today == n)) [
            | inl e ↦
                let same : today ≡ n = ground (arith, e) in
                let none_there =
                  subst (λ m. count (λ d. d.day == m) days ≡ 0) same
                    (any-none (λ d. d.day == today) days absent) in
                ground (arith, e, none_there)
            | inr e ↦ ground (arith, e, unique n)
          ]),
          (ground arith, recent),
        )
      ]

  count_request-day :
      (source target : String) (c : Completion) (d : Day)
      → (count_request digest source target c d).day ≡ d.day
  unfolding count_request
  count_request-day source target c d = ground arith

  count-update :
      (p : Day → Bool) (f : Day → Day) (n : ℕ) (ds : Days)
      → ((d : Day) → (f d).day ≡ d.day)
      → count (λ d. d.day == n) (update p f ds) ≡ count (λ d. d.day == n) ds
  count-update p f n [] h = refl
  count-update p f n (d ∷ ds) h = ground (arith, h d, count-update p f n ds h)

  record_open-IsSoundAt :
      (c : Completion) (log : List Completion) (source target : String) (days : Days)
      → of_route c.today source target c ≡ true
      → IsSoundAt log c.today days
      → IsSoundAt (c ∷ log) c.today (record_open digest source target c days)
  unfolding record_open IsSoundAt
  record_open-IsSoundAt c log source target days e h =
      let (sound, unique, recent) = open_day-IsSoundAt log c.today days h in
      let p : Day → Bool = λ d. d.day == c.today in
      let f = count_request digest source target c in
      elim (Bool-cases (counted_before digest c days)) [
        | inl before ↦ rw before (older c log _ sound, unique, recent)
        | inr fresh ↦ rw fresh (
          All-update (DayIsSound digest log) (DayIsSound digest (c ∷ log)) p f
              (open_day c.today days) sound
              (λ d k t.
                count_request-DayIsSound digest c log source target d (ground (arith, e, t)) k)
              (λ d k t. DayIsSound-older digest c log d k),
          (λ n.
              rw (count-update p f n (open_day c.today days) (count_request-day source target c))
                (unique n)),
          All-update (λ d. in_window c.today d ≡ true) (λ d. in_window c.today d ≡ true) p f
              (open_day c.today days) recent (λ d k t. rw (count_request-day source target c d) k)
              (λ d k t. k),
        )
      ]

  record_between-IsSound :
      (c : Completion) (log : List Completion) (days : Days) (p q : Option String)
      → c.provider_country ≡ p
      → c.caller_country ≡ q
      → is_reserved c.consumer_id ≡ false
      → IsSoundAt log c.today days
      → IsSoundAt (c ∷ log) c.today (record_between digest p q c days)
  unfolding IsSoundAt
  record_between-IsSound c log days none q ep eq free (sound, unique, recent) =
      (older c log days sound, unique, recent)
  record_between-IsSound c log days (some source) none ep eq free (sound, unique, recent) =
      (older c log days sound, unique, recent)
  record_between-IsSound c log days (some source) (some target) ep eq free h =
      record_open-IsSoundAt c log source target days (ground (arith, ep, eq, free)) h

  record_completion-IsSound :
      (c : Completion) (log : List Completion) (days : Days)
      → IsSound log days
      → IsSound (c ∷ log) (record_completion digest c days)
  unfolding record_completion IsSoundAt prune_days
  record_completion-IsSound c log days h =
      let pruned = prune_days-IsSound log c.today days h in
      let kept = IsSound-older c log (prune_days c.today days) pruned in
      elim (Bool-cases (
        not c.enabled
        || not (in_countries c.provider_country)
        || not (in_countries c.caller_country))) [
          | inl refused ↦ rw (refused, record_completion) kept
          | inr placed ↦ elim (Bool-cases (is_reserved c.consumer_id || (c.request_id == ""))) [
            | inl refused ↦ rw (placed, refused, record_completion) kept
            | inr counted ↦
                let (sound, unique, recent) =
                  record_between-IsSound c log (prune_days c.today days) c.provider_country
                    c.caller_country refl refl (ground (arith, counted))
                    (
                      pruned.days_sound,
                      pruned.days_unique,
                      All-select_test (in_window c.today) days,
                    ) in
                rw (placed, counted, record_completion)
                  (record {
                    days_sound = sound;
                    days_unique = unique;
                    days_recent = (c.today, recent);
                  })
          ]
        ]

  pub Reached-IsSound : (log : List Completion) (days : Days) → Reached log days → IsSound log days
  Reached-IsSound _ _ start = none-IsSound []
  Reached-IsSound _ _ (recorded {log = log} {days = days} c r) =
      record_completion-IsSound c log days (Reached-IsSound log days r)
  Reached-IsSound _ _ (expired {log = log} {days = days} enabled today r) =
      expire-IsSound log enabled today days (Reached-IsSound log days r)
  Reached-IsSound _ _ (published {log = log} {days = days} enabled today r) =
      snapshot-IsSound log enabled today days (Reached-IsSound log days r)

  window-length :
      (t : ℕ) (ds : Days)
      → All (λ d. in_window t d ≡ true) ds
      → length ds ≤ count (λ d. d.day == t) ds + count (λ d. suc d.day == t) ds
  window-length t [] h = omega arith
  window-length t (d ∷ ds) h = ground (arith, h.0, window-length t ds h.1)

  count-before :
      (t : ℕ) (ds : Days)
      → ((n : ℕ) → count (λ d. d.day == n) ds ≤ 1)
      → count (λ d. suc d.day == t) ds ≤ 1
  count-before zero ds h =
      omega (arith, count-none (λ d. suc d.day == zero) ds (λ d m. ground arith))
  count-before (suc n) ds h = omega (arith, h n, shifted ds)
    where
      shifted : (xs : Days) → count (λ d. suc d.day == suc n) xs ≡ count (λ d. d.day == n) xs
      shifted [] = refl
      shifted (d ∷ xs) = ground (arith, shifted xs)

  -- In every state that recorded completions, expiries and snapshots lead to, there are at most
  -- two days; each has at most 30,000 requests and 1,024 routes, the counters of its routes add up
  -- to the number of its requests, whose digests differ, and no route keeps more than three
  -- consumers.
  pub Reached-bounded :
      (log : List Completion) (days : Days)
      → Reached log days
      → (length days ≤ 2)
        × All
            (λ d.
              (length d.seen ≤ 30_000)
              × (length d.routes ≤ 1024)
              × (total d.routes ≡ length d.seen)
              × Distinct d.seen
              × All (λ r. length r.consumers ≤ 3) d.routes)
            days
  Reached-bounded log days r =
      let h = Reached-IsSound log days r in
      (
        omega (
          arith,
          window-length h.days_recent.0 days h.days_recent.1,
          h.days_unique h.days_recent.0,
          count-before h.days_recent.0 days h.days_unique,
        ),
        bounds days h.days_sound,
      )
    where
      few :
          (day : ℕ) (rs : List Route)
          → All (RouteIsSound digest log day) rs
          → All (λ r. length r.consumers ≤ 3) rs
      few day [] k = tt
      few day (x ∷ rs) k = (k.0.consumers_few, few day rs k.1)

      bounds :
          (ds : Days)
          → All (DayIsSound digest log) ds
          → All
              (λ d.
                (length d.seen ≤ 30_000)
                × (length d.routes ≤ 1024)
                × (total d.routes ≡ length d.seen)
                × Distinct d.seen
                × All (λ r. length r.consumers ≤ 3) d.routes)
              ds
      bounds [] k = tt
      bounds (d ∷ ds) k =
          let s = k.0 in
          (
            (
              s.seen_few,
              s.routes_few,
              s.total_seen,
              s.seen_distinct,
              few d.day d.routes s.routes_sound,
            ),
            bounds ds k.1,
          )
