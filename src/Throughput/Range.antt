-- ===== src/Throughput/Range.antt =====
-- Proofs about the measurements of inference_exchange/coordinator/tps_tracker.py.
use inference_exchange.Prelude.{
  Floats, IsOrdered, Host, ◌≤◌, ◌≡◌, ℤ, pos, String, Bool, false, List, [], ◌∷◌, ◌++◌, ◌==◌,
  text_eq, if◌then◌else◌, All, All-append, All-drop, length, length-append, length-drop, ◌-◌, ◌&&◌,
  ◌||◌, leb_ℤ, arith, Bool-cases, inl, inr,
}
use inference_exchange.Throughput.{
  TpsMeasurement, ProviderModelTps, new_stats, record_speed, record_request, get_or_create,
}

module _ (host : Host) (ends_with : String → String → Bool) (fl : Floats)
    (ordered : IsOrdered fl) where
  abbrev Stats : Type 0
  Stats = ProviderModelTps host ends_with fl

  -- Neither below the least speed nor above the greatest.
  abbrev pub IsWithin : fl.Float → fl.Float → TpsMeasurement host ends_with fl → Type 0
  IsWithin least greatest m = (fl.lt m.tps least ≡ false) × (fl.lt greatest m.tps ≡ false)

  pub record InRange (s : Stats) : Type 0 where
    pub measured : All (IsWithin s.min_observed s.max_observed) s.measurements
    pub few : length s.measurements ≤ 100
    pub counted : length s.measurements ≤ s.total_requests

  not_below : (x t m : fl.Float) → fl.lt x m ≡ false → fl.lt x (if fl.lt t m then t else m) ≡ false
  not_below x t m h = elim (Bool-cases (fl.lt t m)) [
    | inr e ↦ rw e h
    | inl e ↦ rw e (elim (Bool-cases (fl.lt x t)) [
      | inr k ↦ k
      | inl k ↦ absurd (ground (arith, ordered.lt_trans x t m k e, h))
    ])
  ]

  not_above : (x t m : fl.Float) → fl.lt m x ≡ false → fl.lt (if fl.lt m t then t else m) x ≡ false
  not_above x t m h = elim (Bool-cases (fl.lt m t)) [
    | inr e ↦ rw e h
    | inl e ↦ rw e (elim (Bool-cases (fl.lt t x)) [
      | inr k ↦ k
      | inl k ↦ absurd (ground (arith, ordered.lt_trans m t x e k, h))
    ])
  ]

  -- The new measurement.
  newest-IsWithin :
      (t least greatest : fl.Float)
      → (fl.lt t (if fl.lt t least then t else least) ≡ false)
        × (fl.lt (if fl.lt greatest t then t else greatest) t ≡ false)
  newest-IsWithin t least greatest = (
    elim (Bool-cases (fl.lt t least)) [ inl e ↦ rw e (ordered.lt_irrefl t) | inr e ↦ rw e e ],
    elim (Bool-cases (fl.lt greatest t)) [ inl e ↦ rw e (ordered.lt_irrefl t) | inr e ↦ rw e e ],
  )

  All-widens :
      (t least greatest : fl.Float) (ms : List (TpsMeasurement host ends_with fl))
      → All (IsWithin least greatest) ms
      → All
          (IsWithin (if fl.lt t least then t else least) (if fl.lt greatest t then t else greatest))
          ms
  All-widens t least greatest [] h = tt
  All-widens t least greatest (m ∷ ms) h = (
    (not_below m.tps t least h.0.0, not_above m.tps t greatest h.0.1),
    All-widens t least greatest ms h.1,
  )

  record_speed-InRange :
      (tokens : ℤ) (seconds : fl.Float) (s : Stats)
      → InRange s
      → InRange (record_speed host ends_with fl tokens seconds s)
  unfolding record_speed
  record_speed-InRange tokens seconds s h =
      elim (Bool-cases (fl.le seconds (fl.of_int (pos 0)) || leb_ℤ tokens (pos 0))) [
        | inl e ↦ rw e h
        | inr e ↦ rw e record {
          measured = All-drop _ (length longer - 100) longer (
              All-append _ s.measurements (newest ∷ [])
                (All-widens tps s.min_observed s.max_observed s.measurements h.measured)
                (newest-IsWithin tps s.min_observed s.max_observed, tt));
          few = omega (arith, length-drop (length longer - 100) longer);
          counted = omega (
            arith,
            length-drop (length longer - 100) longer,
            length-append s.measurements (newest ∷ []),
            h.counted,
          );
        }
      ]
    where
      tps : fl.Float
      tps = fl.div (fl.of_int tokens) seconds

      newest : TpsMeasurement host ends_with fl
      newest = record { tokens = tokens; seconds = seconds; tps = tps }

      longer : List (TpsMeasurement host ends_with fl)
      longer = s.measurements ++ (newest ∷ [])

  new_stats-InRange :
      (id model hardware : String) → InRange (new_stats host ends_with fl id model hardware)
  new_stats-InRange id model hardware = record {
    measured = tt;
    few = omega arith;
    counted = omega arith;
  }

  record_request-InRange :
      (id model : String) (tokens : ℤ) (seconds : fl.Float) (hardware : String) (ss : List Stats)
      → All InRange ss
      → All InRange (record_request host ends_with fl id model tokens seconds hardware ss)
  unfolding record_request
  record_request-InRange id model tokens seconds hardware [] h = (
    record_speed-InRange tokens seconds (new_stats host ends_with fl id model hardware)
        (new_stats-InRange id model hardware),
    tt,
  )
  record_request-InRange id model tokens seconds hardware (s ∷ ss) h =
      elim (Bool-cases (s.provider_id == id && s.model == model)) [
        | inl e ↦ rw e (record_speed-InRange tokens seconds s h.0, h.1)
        | inr e ↦ rw e (h.0, record_request-InRange id model tokens seconds hardware ss h.1)
      ]

  get_or_create-InRange :
      (id model hardware : String) (ss : List Stats)
      → All InRange ss
      → All InRange (get_or_create host ends_with fl id model hardware ss)
  unfolding get_or_create
  get_or_create-InRange id model hardware [] h = (new_stats-InRange id model hardware, tt)
  get_or_create-InRange id model hardware (s ∷ ss) h =
      elim (Bool-cases (s.provider_id == id && s.model == model)) [
        | inl e ↦ rw e h
        | inr e ↦ rw e (h.0, get_or_create-InRange id model hardware ss h.1)
      ]

  -- The statistics that recorded requests and reads lead to.
  pub data Tracked : List Stats → Type 0 where
    untracked : Tracked []
    recorded :
        (id model : String) (tokens : ℤ) (seconds : fl.Float) (hardware : String) (ss : List Stats)
        → Tracked ss
        → Tracked (record_request host ends_with fl id model tokens seconds hardware ss)
    asked :
        (id model hardware : String) (ss : List Stats)
        → Tracked ss
        → Tracked (get_or_create host ends_with fl id model hardware ss)

  -- Where `<` on floats is a strict order, in every state that recorded requests, of any tokens
  -- and seconds, and reads of the tracker lead to, each provider and model has at most 100
  -- measurements and no more than its requests; none of them is below its least observed speed or
  -- above its greatest.
  pub Tracked-InRange : (ss : List Stats) → Tracked ss → All InRange ss
  Tracked-InRange _ untracked = tt
  Tracked-InRange _ (recorded id model tokens seconds hardware ss t) =
      record_request-InRange id model tokens seconds hardware ss (Tracked-InRange ss t)
  Tracked-InRange _ (asked id model hardware ss t) =
      get_or_create-InRange id model hardware ss (Tracked-InRange ss t)
