-- ===== src/Reputation/Bounds.antt =====
-- Proofs about the averages and counters of inference_exchange/coordinator/reputation.py.
use inference_exchange.Prelude.{
  Floats, ℕ, suc, ◌+◌, ◌≤◌, ◌≡◌, refl, ℤ, pos, negsuc, ◌≤ℤ◌, String, true, List, [], ◌∷◌, ◌++◌,
  ◌==◌, text_eq, ltb, All, length, length-drop, last_n, ◌-◌, arith, Bool-cases, inl, inr,
}
use inference_exchange.Inference.Responses.{ServiceOutcome, success, timeout, disconnect, error}
use inference_exchange.Reputation.{
  OutcomeRecord, ProviderReputation, half, zero_point, one_point, new_reputation, alpha, blend,
  latency_norm, score, apply_outcome, record_outcome, Reputations, record_for, get_or_create,
}

-- Two weights from 0 to 1 that add up to at most one.
abbrev pub AreWeights : (fl : Floats) → fl.Float → fl.Float → Type 0
AreWeights fl v w =
    (fl.le (zero_point fl) v ≡ true)
    × (fl.le v (one_point fl) ≡ true)
    × (fl.le (zero_point fl) w ≡ true)
    × (fl.le w (one_point fl) ≡ true)
    × (fl.le (zero_point fl) (fl.mul v (zero_point fl)) ≡ true)
    × (fl.le (zero_point fl) (fl.mul w (zero_point fl)) ≡ true)
    × (fl.le (zero_point fl) (fl.add (fl.mul v (zero_point fl)) (fl.mul w (zero_point fl))) ≡ true)
    × (fl.le (fl.add (fl.mul v (one_point fl)) (fl.mul w (one_point fl))) (one_point fl) ≡ true)

-- What IEEE arithmetic guarantees on the numbers used here: the operations round monotonically,
-- and the weights of each average add up to at most one.
pub record RoundsMonotonically (fl : Floats) : Type 0 where
  pub le_trans : (a b c : fl.Float) → fl.le a b ≡ true → fl.le b c ≡ true → fl.le a c ≡ true
  pub lt_le : (a b : fl.Float) → fl.lt a b ≡ true → fl.le a b ≡ true
  pub mul_mono :
      (c a b : fl.Float)
      → fl.le (zero_point fl) c ≡ true
      → fl.le c (one_point fl) ≡ true
      → fl.le (zero_point fl) a ≡ true
      → fl.le a b ≡ true
      → fl.le b (one_point fl) ≡ true
      → fl.le (fl.mul c a) (fl.mul c b) ≡ true
  pub add_mono :
      (a b c d : fl.Float)
      → fl.le (zero_point fl) a ≡ true
      → fl.le (zero_point fl) c ≡ true
      → fl.le a b ≡ true
      → fl.le c d ≡ true
      → fl.le (fl.add a c) (fl.add b d) ≡ true
  pub blend_weights : AreWeights fl (alpha fl) (fl.sub (one_point fl) (alpha fl))
  pub score_weights : AreWeights fl (fl.lit 7 1) (fl.lit 3 1)
  pub constants :
      (fl.le (zero_point fl) (zero_point fl) ≡ true)
      × (fl.le (zero_point fl) (half fl) ≡ true)
      × (fl.le (half fl) (one_point fl) ≡ true)
      × (fl.le (zero_point fl) (one_point fl) ≡ true)
      × (fl.le (one_point fl) (one_point fl) ≡ true)
  pub latency_below :
      (n : ℕ)
      → fl.le
          (fl.sub (one_point fl) (fl.div (fl.of_int (pos n)) (fl.of_int (pos 5000))))
          (one_point fl)
        ≡ true

module _ (fl : Floats) (mono : RoundsMonotonically fl) where
  -- Between 0 and 1.
  abbrev pub InUnit : fl.Float → Type 0
  InUnit a = (fl.le (zero_point fl) a ≡ true) × (fl.le a (one_point fl) ≡ true)

  weighted-InUnit :
      (v w a b : fl.Float)
      → AreWeights fl v w
      → InUnit a
      → InUnit b
      → InUnit (fl.add (fl.mul v a) (fl.mul w b))
  weighted-InUnit v w a b (v0, v1, w0, w1, vz, wz, low, high) (a0, a1) (b0, b1) =
      let (zz, _, _, _, oo) = mono.constants in
      let from_v = mono.mul_mono v _ a v0 v1 zz a0 a1 in
      let from_w = mono.mul_mono w _ b w0 w1 zz b0 b1 in
      let va0 = mono.le_trans _ _ _ vz from_v in
      let wb0 = mono.le_trans _ _ _ wz from_w in
      (
        mono.le_trans _ _ _ low (mono.add_mono _ _ _ _ vz wz from_v from_w),
        mono.le_trans _ _ _
            (mono.add_mono _ _ _ _ va0 wb0 (mono.mul_mono v a _ v0 v1 a0 a1 oo)
              (mono.mul_mono w b _ w0 w1 b0 b1 oo))
            high,
      )

  blend-InUnit : (x e : fl.Float) → InUnit x → InUnit e → InUnit (blend fl x e)
  unfolding blend
  blend-InUnit x e hx he = weighted-InUnit _ _ x e mono.blend_weights hx he

  latency_norm-InUnit : (l : ℤ) → pos 0 ≤ℤ l → InUnit (latency_norm fl l)
  unfolding latency_norm
  latency_norm-InUnit (negsuc n) late = absurd (omega (arith, late))
  latency_norm-InUnit (pos n) late =
      let (zz, _, _, zo, _) = mono.constants in
      let x = fl.sub (one_point fl) (fl.div (fl.of_int (pos n)) (fl.of_int (pos 5000))) in
      elim (Bool-cases (fl.lt (zero_point fl) x)) [
        | inl up ↦ rw up (mono.lt_le _ _ up, mono.latency_below n)
        | inr down ↦ rw down (zz, zo)
      ]

  -- Averages between 0 and 1, counters that add up, and a bounded history.
  pub record IsBounded (r : ProviderReputation fl) : Type 0 where
    pub success_in : InUnit r.success_rate_ema
    pub latency_in : InUnit r.latency_score_ema
    pub counted : r.total_successes + r.total_failures + r.total_timeouts ≡ r.total_requests
    pub recent_few : length r.recent_outcomes ≤ 50

  new_reputation-IsBounded : (id : String) → IsBounded (new_reputation fl id)
  new_reputation-IsBounded id =
      let (_, zh, ho, _, _) = mono.constants in
      record {
        success_in = (zh, ho);
        latency_in = (zh, ho);
        counted = refl;
        recent_few = omega arith;
      }

  record_outcome-IsBounded :
      (o : OutcomeRecord fl) (r : ProviderReputation fl)
      → pos 0 ≤ℤ o.latency_ms
      → IsBounded r
      → IsBounded (record_outcome fl o r)
  unfolding record_outcome apply_outcome
  record_outcome-IsBounded o r late h = applied o.outcome
    where
      zero_in : InUnit (zero_point fl)
      zero_in = let (zz, _, _, zo, _) = mono.constants in (zz, zo)

      one_in : InUnit (one_point fl)
      one_in = let (_, _, _, zo, oo) = mono.constants in (zo, oo)

      next : ProviderReputation fl
      next = record r {
        total_requests = suc r.total_requests;
        recent_outcomes = last_n 50 (r.recent_outcomes ++ (o ∷ []));
      }

      few : length (last_n 50 (r.recent_outcomes ++ (o ∷ []))) ≤ 50
      few = omega (
        arith,
        length-drop (length (r.recent_outcomes ++ (o ∷ [])) - 50) (r.recent_outcomes ++ (o ∷ [])),
      )

      applied : (out : ServiceOutcome) → IsBounded (apply_outcome fl out o.latency_ms next)
      applied success = record {
        success_in = blend-InUnit _ _ one_in h.success_in;
        latency_in = blend-InUnit _ _ (latency_norm-InUnit o.latency_ms late) h.latency_in;
        counted = omega (arith, h.counted);
        recent_few = few;
      }
      applied error = record {
        success_in = blend-InUnit _ _ zero_in h.success_in;
        latency_in = h.latency_in;
        counted = omega (arith, h.counted);
        recent_few = few;
      }
      applied timeout = record {
        success_in = blend-InUnit _ _ zero_in h.success_in;
        latency_in = blend-InUnit _ _ zero_in h.latency_in;
        counted = omega (arith, h.counted);
        recent_few = few;
      }
      applied disconnect = record {
        success_in = blend-InUnit _ _ zero_in h.success_in;
        latency_in = h.latency_in;
        counted = omega (arith, h.counted);
        recent_few = few;
      }

  record_for-IsBounded :
      (id : String) (o : OutcomeRecord fl) (rs : Reputations fl)
      → pos 0 ≤ℤ o.latency_ms
      → All (λ e. IsBounded e.1) rs
      → All (λ e. IsBounded e.1) (record_for fl id o rs)
  unfolding record_for
  record_for-IsBounded id o [] late h =
      (record_outcome-IsBounded o (new_reputation fl id) late (new_reputation-IsBounded id), tt)
  record_for-IsBounded id o ((k, r) ∷ rs) late h = elim (Bool-cases (k == id)) [
    | inl e ↦ rw e (record_outcome-IsBounded o r late h.0, h.1)
    | inr e ↦ rw e (h.0, record_for-IsBounded id o rs late h.1)
  ]

  score-InUnit : (r : ProviderReputation fl) → IsBounded r → InUnit (score fl r)
  unfolding score
  score-InUnit r h =
      let (_, zh, ho, _, _) = mono.constants in
      elim (Bool-cases (ltb r.total_requests 3)) [
        | inl few ↦ rw few (zh, ho)
        | inr many ↦ rw many (weighted-InUnit _ _ _ _ mono.score_weights h.success_in h.latency_in)
      ]

  get_or_create-IsBounded :
      (id : String) (rs : Reputations fl)
      → All (λ e. IsBounded e.1) rs
      → All (λ e. IsBounded e.1) (get_or_create fl id rs)
  unfolding get_or_create
  get_or_create-IsBounded id [] h = (new_reputation-IsBounded id, tt)
  get_or_create-IsBounded id ((k, r) ∷ rs) h = elim (Bool-cases (k == id)) [
    | inl e ↦ rw e h
    | inr e ↦ rw e (h.0, get_or_create-IsBounded id rs h.1)
  ]

  pub data Activity : Type 0 where
    recorded : (id : String) (o : OutcomeRecord fl) → Activity
    read : (id : String) → Activity

  -- The reputations after outcomes of any providers and reads, the latest first.
  abbrev pub replay : List Activity → Reputations fl
  replay [] = []
  replay (recorded id o ∷ rest) = record_for fl id o (replay rest)
  replay (read id ∷ rest) = get_or_create fl id (replay rest)

  -- An outcome's latency is at least 0.
  abbrev pub TookTime : Activity → Type 0
  TookTime (recorded id o) = pos 0 ≤ℤ o.latency_ms
  TookTime (read id) = Unit

  replay-IsBounded :
      (events : List Activity) → All TookTime events → All (λ e. IsBounded e.1) (replay events)
  replay-IsBounded [] h = tt
  replay-IsBounded (recorded id o ∷ rest) h =
      record_for-IsBounded id o (replay rest) h.0 (replay-IsBounded rest h.1)
  replay-IsBounded (read id ∷ rest) h =
      get_or_create-IsBounded id (replay rest) (replay-IsBounded rest h.1)

  scores :
      (rs : Reputations fl)
      → All (λ e. IsBounded e.1) rs
      → All (λ e. InUnit (score fl e.1) × IsBounded e.1) rs
  scores [] h = tt
  scores (e ∷ rs) h = ((score-InUnit e.1 h.0, h.0), scores rs h.1)

  -- Where float operations round monotonically and the weights of the averages add up to at most
  -- one, after any outcomes with latencies of at least 0 and any reads, of any providers, each
  -- provider's score lies between 0 and 1, as do its two averages; its successes, failures and
  -- timeouts add up to its requests, and at most 50 outcomes are kept.
  pub replay-InUnit :
      (events : List Activity)
      → All TookTime events
      → All (λ e. InUnit (score fl e.1) × IsBounded e.1) (replay events)
  replay-InUnit events h = scores (replay events) (replay-IsBounded events h)
