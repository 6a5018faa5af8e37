-- ===== src/Countries/Suppression/Repeat.antt =====
-- Proofs about a completion that is reported twice to `record` of
-- inference_exchange/coordinator/country_activity.py.
use inference_exchange.Prelude.{
  ℕ, ◌≡◌, refl, sym, ap, ◌∙◌, String, Bool, true, false, not, ◌&&◌, ◌||◌, Option, none, some, [],
  ◌∷◌, ◌==◌, nat_eq, text_eq, leb, length, any, update, elem, All, arith, Bool-cases, inl, inr,
}
use inference_exchange.Countries.Activity.{
  Completion, Kind, request_kind, Day, Days, in_window, prune_days, in_countries, is_reserved,
  open_day, counted_before, count_request, is_route, record_open, record_between, record_completion,
  max_completions_per_day, max_routes_per_day,
}

module _ (digest : ℕ → Kind → String → String) where
  -- A day that has seen the request is left as it is.
  count_request-seen :
      (source target : String) (c : Completion) (d : Day)
      → elem (digest c.today request_kind c.request_id) d.seen ≡ true
      → count_request digest source target c d ≡ d
  unfolding count_request
  count_request-seen source target c d h = ground (arith, h)

  count_request-again :
      (source target : String) (c : Completion) (d : Day)
      → count_request digest source target c (count_request digest source target c d)
        ≡ count_request digest source target c d
  unfolding count_request
  count_request-again source target c d =
      let f = count_request digest source target c in
      let h = digest c.today request_kind c.request_id in
      elim (Bool-cases (elem h d.seen || leb max_completions_per_day (length d.seen))) [
        | inl stop ↦ let e : f d ≡ d = rw stop refl in ap f e
        | inr go ↦
            elim (Bool-cases (
              not (any (is_route digest source target) d.routes)
              && leb max_routes_per_day (length d.routes))) [
                | inl full ↦ let e : f d ≡ d = rw (go, full) refl in ap f e
                | inr room ↦ count_request-seen source target c (f d) (rw (go, room) (ground arith))
              ]
      ]

  update-again :
      (p : Day → Bool) (f : Day → Day) (ds : Days)
      → ((d : Day) → f (f d) ≡ f d)
      → ((d : Day) → p (f d) ≡ p d)
      → update p f (update p f ds) ≡ update p f ds
  update-again p f [] h k = refl
  update-again p f (d ∷ ds) h k = ground (arith, h d, k d, update-again p f ds h k)

  Window : ℕ → Days → Type 0
  Window today ds = All (λ d. in_window today d ≡ true) ds

  prune_days-Window : (today : ℕ) (ds : Days) → Window today (prune_days today ds)
  unfolding Window prune_days
  prune_days-Window today [] = tt
  prune_days-Window today (d ∷ ds) = ground (arith, prune_days-Window today ds)

  Window-prune_days : (today : ℕ) (ds : Days) → Window today ds → prune_days today ds ≡ ds
  unfolding Window prune_days
  Window-prune_days today [] h = refl
  Window-prune_days today (d ∷ ds) h = ground (arith, h.0, Window-prune_days today ds h.1)

  open_day-Window : (today : ℕ) (ds : Days) → Window today ds → Window today (open_day today ds)
  unfolding Window open_day
  open_day-Window today ds h = ground (arith, h)

  update-Window :
      (today : ℕ) (p : Day → Bool) (f : Day → Day) (ds : Days)
      → ((d : Day) → (f d).day ≡ d.day)
      → Window today ds
      → Window today (update p f ds)
  unfolding Window
  update-Window today p f [] k h = tt
  update-Window today p f (d ∷ ds) k h =
      (ground (arith, k d, h.0), update-Window today p f ds k h.1)

  open_day-again : (today : ℕ) (ds : Days) → open_day today (open_day today ds) ≡ open_day today ds
  unfolding open_day
  open_day-again today ds = ground arith

  any-update :
      (today : ℕ) (p : Day → Bool) (f : Day → Day) (ds : Days)
      → ((d : Day) → (f d).day ≡ d.day)
      → any (λ d. d.day == today) (update p f ds) ≡ any (λ d. d.day == today) ds
  any-update today p f [] k = refl
  any-update today p f (d ∷ ds) k = ground (arith, k d, any-update today p f ds k)

  any-open_day : (today : ℕ) (ds : Days) → any (λ d. d.day == today) (open_day today ds) ≡ true
  unfolding open_day
  any-open_day today ds = ground arith

  open_day-there :
      (today : ℕ) (ds : Days) → any (λ d. d.day == today) ds ≡ true → open_day today ds ≡ ds
  unfolding open_day
  open_day-there today ds h = rw h refl

  open_day-update :
      (today : ℕ) (p : Day → Bool) (f : Day → Day) (ds : Days)
      → ((d : Day) → (f d).day ≡ d.day)
      → open_day today (update p f (open_day today ds)) ≡ update p f (open_day today ds)
  open_day-update today p f ds k =
      open_day-there today (update p f (open_day today ds))
        (any-update today p f (open_day today ds) k ∙ any-open_day today ds)

  counted_before-open_day :
      (c : Completion) (ds : Days)
      → counted_before digest c (open_day c.today ds) ≡ counted_before digest c ds
  unfolding counted_before open_day
  counted_before-open_day c ds = ground arith

  counted_before-update :
      (c : Completion) (f : Day → Day) (ds : Days)
      → ((d : Day) → (f d).day ≡ d.day)
      → counted_before digest c (update (λ d. d.day == c.today) f ds) ≡ counted_before digest c ds
  unfolding counted_before
  counted_before-update c f [] k = refl
  counted_before-update c f (d ∷ ds) k = ground (arith, k d, counted_before-update c f ds k)

  count_request-day :
      (source target : String) (c : Completion) (d : Day)
      → (count_request digest source target c d).day ≡ d.day
  unfolding count_request
  count_request-day source target c d = ground arith

  record_open-Window :
      (source target : String) (c : Completion) (ds : Days)
      → Window c.today ds
      → Window c.today (record_open digest source target c ds)
  unfolding record_open
  record_open-Window source target c ds h = elim (Bool-cases (counted_before digest c ds)) [
    | inl before ↦ rw before (open_day-Window c.today ds h)
    | inr fresh ↦ rw fresh (
        update-Window c.today (λ d. d.day == c.today) (count_request digest source target c)
          (open_day c.today ds) (count_request-day source target c) (open_day-Window c.today ds h))
  ]

  record_open-again :
      (source target : String) (c : Completion) (ds : Days)
      → record_open digest source target c (record_open digest source target c ds)
        ≡ record_open digest source target c ds
  unfolding record_open
  record_open-again source target c ds =
      let f = count_request digest source target c in
      let opened = open_day c.today ds in
      let same_day = count_request-day source target c in
      elim (Bool-cases (counted_before digest c ds)) [
        | inl before ↦ rw (before, counted_before-open_day c ds, before) (open_day-again c.today ds)
        | inr fresh ↦
            let p : Day → Bool = λ d. d.day == c.today in
            let once : record_open digest source target c ds ≡ update p f opened = rw fresh refl in
            let still : counted_before digest c (update p f opened) ≡ false =
              counted_before-update c f opened same_day ∙ counted_before-open_day c ds ∙ fresh in
            let twice : record_open digest source target c (update p f opened)
                ≡ update p f (open_day c.today (update p f opened)) =
              rw still refl in
            ap (record_open digest source target c) once
            ∙ twice
            ∙ ap (update p f) (open_day-update c.today p f ds same_day)
            ∙ update-again p f opened (count_request-again source target c)
                (λ d. ap (λ n. n == c.today) (same_day d))
            ∙ sym once
      ]

  record_between-again :
      (p q : Option String) (c : Completion) (ds : Days)
      → record_between digest p q c (record_between digest p q c ds)
        ≡ record_between digest p q c ds
  record_between-again none q c ds = refl
  record_between-again (some source) none c ds = refl
  record_between-again (some source) (some target) c ds = record_open-again source target c ds

  record_between-Window :
      (p q : Option String) (c : Completion) (ds : Days)
      → Window c.today ds
      → Window c.today (record_between digest p q c ds)
  record_between-Window none q c ds h = h
  record_between-Window (some source) none c ds h = h
  record_between-Window (some source) (some target) c ds h = record_open-Window source target c ds h

  -- A completion that is refused only prunes.
  kept :
      (c : Completion) (days : Days)
      → ((ds : Days) → record_completion digest c ds ≡ prune_days c.today ds)
      → record_completion digest c (record_completion digest c days)
        ≡ record_completion digest c days
  kept c days e =
      e (record_completion digest c days)
      ∙ ap (prune_days c.today) (e days)
      ∙ Window-prune_days c.today (prune_days c.today days) (prune_days-Window c.today days)
      ∙ sym (e days)

  -- A completion that is recorded twice in a row at the same day leaves the state as after the
  -- first time.
  pub record_completion-again :
      (c : Completion) (days : Days)
      → record_completion digest c (record_completion digest c days)
        ≡ record_completion digest c days
  unfolding record_completion
  record_completion-again c days =
      let r = record_completion digest c in
      let pruned = prune_days c.today days in
      elim (Bool-cases (
        not c.enabled
        || not (in_countries c.provider_country)
        || not (in_countries c.caller_country))) [
          | inl refused ↦ kept c days (λ ds. rw (refused, record_completion) refl)
          | inr placed ↦ elim (Bool-cases (is_reserved c.consumer_id || (c.request_id == ""))) [
            | inl refused ↦ kept c days (λ ds. rw (placed, refused, record_completion) refl)
            | inr counted ↦
                let between = record_between digest c.provider_country c.caller_country c in
                let e : (ds : Days) → r ds ≡ between (prune_days c.today ds) =
                  λ ds. rw (placed, counted, record_completion) refl in
                let stays : prune_days c.today (between pruned) ≡ between pruned =
                  Window-prune_days c.today (between pruned) (
                    record_between-Window c.provider_country c.caller_country c pruned
                      (prune_days-Window c.today days)) in
                ap r (e days)
                ∙ e (between pruned)
                ∙ ap between stays
                ∙ record_between-again c.provider_country c.caller_country c pruned
                ∙ sym (e days)
          ]
        ]
