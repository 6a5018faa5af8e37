-- ===== src/Throughput.antt =====
-- The speed of providers in inference_exchange/coordinator/tps_tracker.py. Floats, `lower` and
-- `endswith` are the interpreter's, so they are parameters.
pub mod Table
pub mod Range
use text.Mathlib.Text.{starts_with, find?}
use Prim.Native.String.{◌++◌ as ◌<>◌}
use inference_exchange.Prelude.{
  Floats, Host, ℕ, suc, ℤ, pos, ◌+ℤ◌, leb_ℤ, String, Bool, true, false, not, ◌&&◌, ◌||◌, Option,
  none, some, is_none, List, [], ◌∷◌, ◌++◌, ◌==◌, text_eq, if◌then◌else◌, ltb, leb, last_n, first,
}
use inference_exchange.Throughput.Table.{expected_tps}

abbrev contains : String → String → Bool
contains s part = not (is_none (find? s part))

abbrev sizes : List String
sizes =
    "0.5b" ∷ "1b" ∷ "3b" ∷ "7b" ∷ "8b" ∷ "13b" ∷ "14b" ∷ "27b" ∷ "34b" ∷ "70b" ∷ "72b" ∷ "405b" ∷ []

abbrev bare_sizes : List String
bare_sizes = "0.5" ∷ "1" ∷ "3" ∷ "7" ∷ "8" ∷ "13" ∷ "14" ∷ "27" ∷ "34" ∷ "70" ∷ "72" ∷ "405" ∷ []

module _ (host : Host) (ends_with : String → String → Bool) where
  open host use {lower}

  -- `_extract_model_size`
  unfoldable pub extract_model_size : String → String
  extract_model_size model_name =
      let name = lower model_name in
      elim (first (contains name) sizes) [
        | some size ↦ size
        | none ↦
            elim (first
              (λ s.
                contains name ("-" <> (s <> "-"))
                || contains name (" " <> (s <> " "))
                || ends_with name ("-" <> s))
              bare_sizes) [ some s ↦ s <> "b" | none ↦ "7b" ]
      ]

  -- `estimate_initial_tps`
  unfoldable pub estimate_initial_tps : String → String → ℕ
  unfolding extract_model_size
  estimate_initial_tps hardware model_name =
      let size = extract_model_size model_name in
      let entry : (String → Bool) → Option ((String × String) × ℕ) =
        (λ test. first (λ e. test e.0.0 && e.0.1 == size) expected_tps) in
      elim (entry (λ known. known == lower hardware)) [
        | some e ↦ e.1
        | none ↦ elim (entry (starts_with (lower hardware))) [
          | some e ↦ e.1
          | none ↦ elim (entry (λ known. known == "unknown")) [ some e ↦ e.1 | none ↦ 10 ]
        ]
      ]

  module _ (fl : Floats) where
    open fl use {Float, of_int, lit, inf, add, sub, mul, div, lt, le}

    -- The time of a measurement is never read.
    pub record TpsMeasurement : Type 0 where
      pub tokens : ℤ
      pub seconds : Float
      pub tps : Float

    pub record ProviderModelTps : Type 0 where
      pub provider_id : String
      pub model : String
      pub hardware : String
      pub estimated_tps : Float
      pub observed_tps_ema : Float
      pub measurements : List TpsMeasurement
      pub total_requests : ℕ
      pub total_tokens : ℤ
      pub min_observed : Float
      pub max_observed : Float

    abbrev nought : Float
    nought = of_int (pos 0)

    abbrev one : Float
    one = of_int (pos 1)

    -- `ema_alpha`
    abbrev ema_alpha : Float
    ema_alpha = lit 15 2

    -- `ProviderModelTPS(provider_id=…, model=…, hardware=…)`
    abbrev pub new_stats : String → String → String → ProviderModelTps
    new_stats id model hardware = record {
      provider_id = id;
      model = model;
      hardware = hardware;
      estimated_tps = of_int (pos (estimate_initial_tps hardware model));
      observed_tps_ema = nought;
      measurements = [];
      total_requests = 0;
      total_tokens = pos 0;
      min_observed = inf;
      max_observed = nought;
    }

    -- `record`; `x == 0` is `x <= 0 and 0 <= x`.
    unfoldable pub record_speed : ℤ → Float → ProviderModelTps → ProviderModelTps
    record_speed tokens seconds s =
        if le seconds nought || leb_ℤ tokens (pos 0)
        then s
        else (let tps = div (of_int tokens) seconds in
            record s {
              measurements = last_n 100 (
                  s.measurements
                  ++ (record { tokens = tokens; seconds = seconds; tps = tps } ∷ []));
              total_requests = suc s.total_requests;
              total_tokens = s.total_tokens +ℤ tokens;
              observed_tps_ema =
                  if le s.observed_tps_ema nought && le nought s.observed_tps_ema
                  then tps
                  else add (mul ema_alpha tps) (mul (sub one ema_alpha) s.observed_tps_ema);
              min_observed = if lt tps s.min_observed then tps else s.min_observed;
              max_observed = if lt s.max_observed tps then tps else s.max_observed;
            })

    -- `effective_tps`
    unfoldable pub effective_tps : ProviderModelTps → Float
    effective_tps s =
        let weight = div (of_int (pos s.total_requests)) (lit 30 1) in
        if leb 3 s.total_requests
        then s.observed_tps_ema
        else if ltb 0 s.total_requests
        then add (mul weight s.observed_tps_ema) (mul (sub one weight) s.estimated_tps)
        else s.estimated_tps

    -- `is_anomalous`
    unfoldable pub is_anomalous : ProviderModelTps → Bool
    is_anomalous s = if ltb s.total_requests 5 then false else elim (last_n 1 s.measurements) [
      | [] ↦ false
      | m ∷ _ ↦ lt m.tps (mul s.observed_tps_ema (lit 5 1))
    ]

    -- `record_request`, on the statistics of `_stats` in the order of their keys.
    unfoldable pub record_request :
        String → String → ℤ → Float → String → List ProviderModelTps → List ProviderModelTps
    unfolding record_speed
    record_request id model tokens seconds hardware [] =
        record_speed tokens seconds (new_stats id model hardware) ∷ []
    record_request id model tokens seconds hardware (s ∷ ss) =
        if s.provider_id == id && s.model == model
        then record_speed tokens seconds s ∷ ss
        else s ∷ record_request id model tokens seconds hardware ss

    -- What `get_or_create` does to `_stats`, for a caller that reads them.
    unfoldable pub get_or_create :
        String → String → String → List ProviderModelTps → List ProviderModelTps
    get_or_create id model hardware [] = new_stats id model hardware ∷ []
    get_or_create id model hardware (s ∷ ss) =
        if s.provider_id == id && s.model == model
        then s ∷ ss
        else s ∷ get_or_create id model hardware ss

    -- `get_effective_tps`
    unfoldable pub get_effective_tps :
        String → String → String → List ProviderModelTps → Option Float × List ProviderModelTps
    unfolding get_or_create effective_tps
    get_effective_tps id model hardware ss =
        let ss' = get_or_create id model hardware ss in
        elim (first (λ s. s.provider_id == id && s.model == model) ss') [
          | none ↦ (none, ss')
          | some s ↦ (some (effective_tps s), ss')
        ]
