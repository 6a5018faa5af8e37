-- ===== src/Matching.antt =====
-- The matching engine: inference_exchange/coordinator/matching/models.py and the greedy strategy of
-- matching/strategy.py. Prices, scores and times are floats, whose operations are a parameter.

pub mod Scan
pub mod Greedy
pub mod Outcomes
pub mod Batch
use inference_exchange.Prelude.{
  Floats, ℕ, suc, ℤ, pos, ◌+ℤ◌, ◌-ℤ◌, ◌+◌, ◌-◌, pos_part, String, Bool, true, false, not, ◌&&◌,
  Option, none, some, List, [], ◌∷◌, ◌==◌, if◌then◌else◌, text_eq, nat_eq, ltb, leb, elem, is_none,
  sort_by, leb_ℤ, ltb_ℤ,
}

-- `RoutingPreference`
pub data RoutingPreference : Type 0 where
  cheapest fastest most_secure balanced : RoutingPreference

-- `ConfidenceLevel`, by its number.
pub data ConfidenceLevel : Type 0 where
  open_level contained hardened confidential : ConfidenceLevel

unfoldable pub level_value : ConfidenceLevel → ℕ
level_value open_level = 0
level_value contained = 1
level_value hardened = 2
level_value confidential = 3

-- The texts of `match_reason`, with the numbers in them.
pub data MatchReason : Type 0 where
  best_of_eligible : ℕ → MatchReason
  best_of_slots : ℕ → ℕ → MatchReason

module _ (fl : Floats) where
  open fl use {Float, of_int, lit, add, sub, mul, div, neg, lt, le}

  pub record InferenceOrder : Type 0 where
    pub order_id : String
    pub consumer_id : String
    pub model : String
    pub max_price_per_mtok : Float
    pub min_confidence : ConfidenceLevel
    pub preference : RoutingPreference
    pub submitted_at : Float
    pub timeout_seconds : Float
    pub session_affinity_provider_id : String

  pub record ProviderOffer : Type 0 where
    pub provider_id : String
    pub models : List String
    pub price_per_mtok_output : Float
    pub confidence_level : ConfidenceLevel
    pub measured_throughput_tps : Float
    pub total_slots : ℤ
    pub used_slots : ℤ
    pub reputation_score : Float

  -- `(time.time() - self.submitted_at) > self.timeout_seconds`
  unfoldable pub is_expired : Float → InferenceOrder → Bool
  is_expired now o = lt o.timeout_seconds (sub now o.submitted_at)

  -- `max(0, self.total_slots - self.used_slots)`
  unfoldable pub available_slots : ProviderOffer → ℕ
  available_slots p = pos_part (p.total_slots -ℤ p.used_slots)

  unfoldable pub load_factor : ProviderOffer → Float
  load_factor p =
      if leb_ℤ p.total_slots (pos 0) && leb_ℤ (pos 0) p.total_slots
      then lit 10 1
      else div (of_int p.used_slots) (of_int p.total_slots)

  unfoldable pub is_available : ProviderOffer → Bool
  unfolding available_slots
  is_available p = ltb 0 (available_slots p)

  pub record MatchResult : Type 0 where
    pub order_id : String
    pub provider_id : String
    pub score : Float
    pub price_per_mtok_output : Float
    pub queue_time_ms : Float
    pub match_reason : MatchReason

  pub data FailureReason : Type 0 where
    timeout no_provider no_capacity : FailureReason

  pub record MatchFailure : Type 0 where
    pub order_id : String
    pub reason : FailureReason
    pub eligible_providers : ℕ
    pub available_providers : ℕ

  -- The weights of price, speed, trust and load.
  pub record Weights : Type 0 where
    pub w_price : Float
    pub w_speed : Float
    pub w_trust : Float
    pub w_load : Float

  abbrev weights_of : RoutingPreference → Weights
  weights_of cheapest = record {
    w_price = lit 6 1;
    w_speed = lit 15 2;
    w_trust = lit 1 1;
    w_load = lit 15 2;
  }
  weights_of fastest = record {
    w_price = lit 1 1;
    w_speed = lit 6 1;
    w_trust = lit 1 1;
    w_load = lit 2 1;
  }
  weights_of most_secure = record {
    w_price = lit 1 1;
    w_speed = lit 1 1;
    w_trust = lit 6 1;
    w_load = lit 2 1;
  }
  weights_of balanced = record {
    w_price = lit 35 2;
    w_speed = lit 25 2;
    w_trust = lit 2 1;
    w_load = lit 2 1;
  }

  abbrev pub minus_one : Float
  minus_one = neg (lit 10 1)

  abbrev pub zero_float : Float
  zero_float = of_int (pos 0)

  -- The soft part of `compute_score`, reached when every hard constraint holds.
  unfoldable pub soft_score : InferenceOrder → ProviderOffer → Float
  unfolding load_factor level_value
  soft_score order offer =
      let w = weights_of order.preference in
      let price_score = div (lit 10 1) (add (lit 10 1) offer.price_per_mtok_output) in
      let speed_score =
        div offer.measured_throughput_tps (add (lit 100 1) offer.measured_throughput_tps) in
      let trust_score = div (of_int (pos (level_value offer.confidence_level))) (lit 40 1) in
      let load_score = sub (lit 10 1) (load_factor offer) in
      let score =
        add
          (add (add (mul w.w_price price_score) (mul w.w_speed speed_score))
            (mul w.w_trust trust_score))
          (mul w.w_load load_score) in
      let scaled = mul score (add (lit 5 1) (mul (lit 5 1) offer.reputation_score)) in
      if order.session_affinity_provider_id == offer.provider_id
      then mul scaled (lit 12 1)
      else scaled

  unfoldable pub compute_score : InferenceOrder → ProviderOffer → Float
  unfolding is_available level_value
  compute_score order offer =
      if not (order.model == "default") && not (elem order.model offer.models)
      then minus_one
      else if lt order.max_price_per_mtok offer.price_per_mtok_output
      then minus_one
      else if ltb (level_value offer.confidence_level) (level_value order.min_confidence)
      then minus_one
      else if not (is_available offer)
      then minus_one
      else soft_score order offer

  -- `remaining_slots`: the dictionary from provider ids to free slots.
  abbrev pub Slots : Type 0
  Slots = List (String × ℕ)

  -- `remaining_slots.get(id, 0)`
  unfoldable pub slots_left : String → Slots → ℕ
  slots_left id [] = 0
  slots_left id ((j, n) ∷ d) = if j == id then n else slots_left id d

  unfoldable pub set_slots : String → ℕ → Slots → Slots
  set_slots id n [] = (id, n) ∷ []
  set_slots id n ((j, m) ∷ d) = if j == id then (j, n) ∷ d else (j, m) ∷ set_slots id n d

  -- `{o.provider_id: o.available_slots for o in offers}`: a later offer overwrites.
  unfoldable pub initial_slots : Slots → List ProviderOffer → Slots
  unfolding set_slots
  initial_slots d [] = d
  initial_slots d (o ∷ offers) =
      initial_slots (set_slots o.provider_id (available_slots o) d) offers

  -- The variables of the loop over the offers.
  pub record Best : Type 0 where
    pub offer : Option ProviderOffer
    pub score : Float
    pub eligible : ℕ
    pub available : ℕ

  abbrev pub no_best : Best
  no_best = record { offer = none; score = minus_one; eligible = 0; available = 0 }

  unfoldable pub consider : InferenceOrder → Slots → ProviderOffer → Best → Best
  unfolding is_available
  consider order left offer b =
      let s = compute_score order offer in
      if leb (slots_left offer.provider_id left) 0
      then b
      else if lt s zero_float
      then b
      else record {
        offer = if lt b.score s then some offer else b.offer;
        score = if lt b.score s then s else b.score;
        eligible = suc b.eligible;
        available = if is_available offer then suc b.available else b.available;
      }

  unfoldable pub scan : InferenceOrder → Slots → List ProviderOffer → Best → Best
  unfolding consider
  scan order left [] b = b
  scan order left (offer ∷ offers) b = scan order left offers (consider order left offer b)

  pub data Outcome : Type 0 where
    matched : MatchResult → Outcome
    failed : MatchFailure → Outcome

  -- What becomes of an order once the best offer is known.
  unfoldable pub settle : Float → InferenceOrder → Slots → Best → Outcome × Slots
  unfolding slots_left set_slots
  settle now order left b =
      let failure = failed (record {
        order_id = order.order_id;
        reason = if b.eligible == 0 then no_provider else no_capacity;
        eligible_providers = b.eligible;
        available_providers = b.available;
      }) in
      elim b.offer [
        | none ↦ (failure, left)
        | some offer ↦
            if lt zero_float b.score
            then (
              matched (record {
                order_id = order.order_id;
                provider_id = offer.provider_id;
                score = b.score;
                price_per_mtok_output = offer.price_per_mtok_output;
                queue_time_ms = mul (sub now order.submitted_at) (of_int (pos 1000));
                match_reason = best_of_eligible b.eligible;
              }),
              set_slots offer.provider_id (slots_left offer.provider_id left - 1) left,
            )
            else (failure, left)
      ]

  -- One round of the loop over the orders.
  unfoldable pub serve : Float → List ProviderOffer → InferenceOrder → Slots → Outcome × Slots
  unfolding is_expired scan settle
  serve now offers order left =
      if is_expired now order
      then (
        failed (record {
          order_id = order.order_id;
          reason = timeout;
          eligible_providers = 0;
          available_providers = 0;
        }),
        left,
      )
      else settle now order left (scan order left offers no_best)

  abbrev pub record_outcome :
      Outcome → List MatchResult × List MatchFailure → List MatchResult × List MatchFailure
  record_outcome (matched m) (ms, fs) = (m ∷ ms, fs)
  record_outcome (failed f) (ms, fs) = (ms, f ∷ fs)

  unfoldable pub match_loop :
      Float
      → List ProviderOffer
      → List InferenceOrder
      → Slots
      → List MatchResult × List MatchFailure
  unfolding serve
  match_loop now offers [] left = ([], [])
  match_loop now offers (order ∷ orders) left =
      let (r, left') = serve now offers order left in
      record_outcome r (match_loop now offers orders left')

  -- `GreedyStrategy.match`; `now` is the clock during the call.
  unfoldable pub greedy_match :
      Float → List InferenceOrder → List ProviderOffer → List MatchResult × List MatchFailure
  unfolding match_loop initial_slots
  greedy_match now orders offers =
      match_loop now offers (sort_by (λ a b. lt a.submitted_at b.submitted_at) orders)
        (initial_slots [] offers)
