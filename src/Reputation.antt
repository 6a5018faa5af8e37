-- ===== src/Reputation.antt =====
-- The reputation of providers in inference_exchange/coordinator/reputation.py.
pub mod Bounds
use inference_exchange.Prelude.{
  Floats, ℕ, zero, suc, ℤ, pos, ◌+◌, String, Bool, true, false, ◌&&◌, List, [], ◌∷◌, ◌++◌, ◌==◌,
  text_eq, if◌then◌else◌, ltb, leb, last_n, first, Option, none, some,
}
use inference_exchange.Inference.Responses.{ServiceOutcome, success, timeout, disconnect, error}

module _ (fl : Floats) where
  open fl use {Float, of_int, lit, add, sub, mul, div, lt}

  -- The time of an outcome is never read.
  pub record OutcomeRecord : Type 0 where
    pub outcome : ServiceOutcome
    pub tokens : ℤ
    pub latency_ms : ℤ

  pub record ProviderReputation : Type 0 where
    pub provider_id : String
    pub success_rate_ema : Float
    pub latency_score_ema : Float
    pub total_requests : ℕ
    pub total_successes : ℕ
    pub total_failures : ℕ
    pub total_timeouts : ℕ
    pub recent_outcomes : List OutcomeRecord

  abbrev pub half : Float
  half = lit 5 1

  abbrev pub zero_point : Float
  zero_point = lit 0 0

  abbrev pub one_point : Float
  one_point = lit 1 0

  abbrev pub new_reputation : String → ProviderReputation
  new_reputation id = record {
    provider_id = id;
    success_rate_ema = half;
    latency_score_ema = half;
    total_requests = 0;
    total_successes = 0;
    total_failures = 0;
    total_timeouts = 0;
    recent_outcomes = [];
  }

  -- `alpha`
  abbrev pub alpha : Float
  alpha = lit 2 1

  -- `alpha * sample + (1 - alpha) * average`
  unfoldable pub blend : Float → Float → Float
  blend sample average = add (mul alpha sample) (mul (sub one_point alpha) average)

  -- `max(0, 1.0 - (latency_ms / 5000))`
  unfoldable pub latency_norm : ℤ → Float
  latency_norm latency =
      let x = sub one_point (div (of_int latency) (of_int (pos 5000))) in
      if lt zero_point x then x else zero_point

  -- `score`
  unfoldable pub score : ProviderReputation → Float
  score r =
      if ltb r.total_requests 3
      then half
      else add (mul (lit 7 1) r.success_rate_ema) (mul (lit 3 1) r.latency_score_ema)

  -- `is_degraded`
  unfoldable pub is_degraded : ProviderReputation → Bool
  is_degraded r = leb 5 r.total_requests && lt r.success_rate_ema half

  -- The counters and averages of `record_outcome`.
  unfoldable pub apply_outcome : ServiceOutcome → ℤ → ProviderReputation → ProviderReputation
  unfolding blend latency_norm
  apply_outcome success latency r = record r {
    total_successes = suc r.total_successes;
    success_rate_ema = blend one_point r.success_rate_ema;
    latency_score_ema = blend (latency_norm latency) r.latency_score_ema;
  }
  apply_outcome error latency r = record r {
    total_failures = suc r.total_failures;
    success_rate_ema = blend zero_point r.success_rate_ema;
  }
  apply_outcome timeout latency r = record r {
    total_timeouts = suc r.total_timeouts;
    success_rate_ema = blend zero_point r.success_rate_ema;
    latency_score_ema = blend zero_point r.latency_score_ema;
  }
  apply_outcome disconnect latency r = record r {
    total_failures = suc r.total_failures;
    success_rate_ema = blend zero_point r.success_rate_ema;
  }

  -- `record_outcome`; the deque keeps the last 50 records.
  unfoldable pub record_outcome : OutcomeRecord → ProviderReputation → ProviderReputation
  unfolding apply_outcome
  record_outcome o r = apply_outcome o.outcome o.latency_ms (record r {
    total_requests = suc r.total_requests;
    recent_outcomes = last_n 50 (r.recent_outcomes ++ (o ∷ []));
  })

  -- `_reputations`, the keys before the values.
  abbrev pub Reputations : Type 0
  Reputations = List (String × ProviderReputation)

  -- `get_or_create`, then `record_outcome`.
  unfoldable pub record_for : String → OutcomeRecord → Reputations → Reputations
  unfolding record_outcome
  record_for id o [] = (id, record_outcome o (new_reputation id)) ∷ []
  record_for id o ((k, r) ∷ rs) =
      if k == id then (k, record_outcome o r) ∷ rs else (k, r) ∷ record_for id o rs

  -- What `get_or_create` does to `_reputations`, for a caller that reads them.
  unfoldable pub get_or_create : String → Reputations → Reputations
  get_or_create id [] = (id, new_reputation id) ∷ []
  get_or_create id ((k, r) ∷ rs) = if k == id then (k, r) ∷ rs else (k, r) ∷ get_or_create id rs

  -- `get_score`
  unfoldable pub get_score : String → Reputations → Option Float × Reputations
  unfolding get_or_create score
  get_score id rs =
      let rs' = get_or_create id rs in
      elim (first (λ e. e.0 == id) rs') [ none ↦ (none, rs') | some e ↦ (some (score e.1), rs') ]
