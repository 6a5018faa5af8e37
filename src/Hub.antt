-- ===== src/Hub.antt =====
-- The providers that are connected and which of them serves a request:
-- inference_exchange/coordinator/provider_hub.py.
pub mod Selection
pub mod Explanation
pub mod Attestation
pub mod Pending
pub mod Requests
use inference_exchange.Prelude.{
  Floats, ℕ, suc, ℤ, pos, String, Bool, true, false, ◌&&◌, ◌||◌, not, Option, none, some, List, [],
  ◌∷◌, ◌++◌, map, ◌==◌, text_eq, if◌then◌else◌, first, select, update, any, elem, ltb, leb, length,
  drop,
}
use inference_exchange.Matching.{
  RoutingPreference, cheapest, fastest, most_secure, balanced, ConfidenceLevel, open_level,
  contained, hardened, confidential, level_value, InferenceOrder, ProviderOffer, MatchResult,
  greedy_match,
}

-- `conf_map` and `levels`: an unknown level is an error.
abbrev pub parse_level : String → Option ConfidenceLevel
parse_level s =
    if s == "open"
    then some open_level
    else if s == "contained"
    then some contained
    else if s == "hardened"
    then some hardened
    else if s == "confidential"
    then some confidential
    else none

-- `pref_map.get(preference, BALANCED)`
abbrev pub parse_preference : String → RoutingPreference
parse_preference s =
    if s == "cheapest"
    then cheapest
    else if s == "fastest"
    then fastest
    else if s == "most_secure"
    then most_secure
    else balanced

abbrev pub is_confidential : ConfidenceLevel → Bool
is_confidential confidential = true
is_confidential hardened = false
is_confidential contained = false
is_confidential open_level = false

module _ (fl : Floats) where
  open fl use {Float, of_int, lit, inf, lt, le}

  -- The fields that the hub's decisions read or write; the capabilities are spread out.
  pub record ConnectedProvider : Type 0 where
    pub provider_id : String
    pub models : List String
    pub price_per_mtok_output : Float
    pub trust_level : ConfidenceLevel
    pub measured_tps : Float
    pub max_concurrent : ℤ
    pub active_requests : ℤ
    pub attestation_status : String
    pub app_attest_verified : Bool
    pub admission_expires_at : Float
    pub last_attestation : Float
    pub pending_challenge_nonce : Option String
    pub challenge_sent_at : Float
    pub token_id : String
    pub quarantined : Bool
    pub quarantine_reason : String

  unfoldable pub requires_app_attest : ConnectedProvider → Bool
  requires_app_attest p = is_confidential p.trust_level

  unfoldable pub admitted : Float → ConnectedProvider → Bool
  unfolding requires_app_attest
  admitted now p =
      if requires_app_attest p then p.app_attest_verified && lt now p.admission_expires_at else true

  -- A provider that routing can see.
  unfoldable pub routable : Float → ConnectedProvider → Bool
  unfolding admitted
  routable now p = admitted now p && not p.quarantined

  -- The offer that `select_provider` makes of a provider.
  unfoldable pub offer_of : Option (String → Float) → ConnectedProvider → ProviderOffer fl
  offer_of reputation p = record {
    provider_id = p.provider_id;
    models = p.models;
    price_per_mtok_output = p.price_per_mtok_output;
    confidence_level = p.trust_level;
    measured_throughput_tps = p.measured_tps;
    total_slots = p.max_concurrent;
    used_slots = p.active_requests;
    reputation_score = elim reputation [ none ↦ lit 10 1 | some f ↦ f p.provider_id ];
  }

  -- The dictionary from sessions to providers, in the order of insertion.
  abbrev pub Affinity : Type 0
  Affinity = List (String × String)

  abbrev affinity_of : Affinity → String → String
  affinity_of [] s = ""
  affinity_of ((t, p) ∷ d) s = if t == s then p else affinity_of d s

  abbrev set_affinity : Affinity → String → String → Affinity
  set_affinity [] s p = (s, p) ∷ []
  set_affinity ((t, q) ∷ d) s p = if t == s then (t, p) ∷ d else (t, q) ∷ set_affinity d s p

  abbrev pub affinity_max : ℕ
  affinity_max = 1000

  -- Remembers a session's provider; the oldest session goes when there are too many.
  unfoldable pub remember : String → String → Affinity → Affinity
  remember session winner d =
      if session == ""
      then d
      else (let d' = set_affinity d session winner in
          if ltb affinity_max (length d') then drop 1 d' else d')

  -- The order of `select_provider`, with the level parsed.
  unfoldable pub select_order :
      String
      → String
      → ConfidenceLevel
      → Option Float
      → String
      → Affinity
      → Float
      → InferenceOrder fl
  select_order model preference need max_price session d now = record {
    order_id = "select";
    consumer_id = "";
    model = model;
    max_price_per_mtok = elim max_price [ none ↦ inf | some m ↦ m ];
    min_confidence = need;
    preference = parse_preference preference;
    submitted_at = now;
    timeout_seconds = lit 1200 1;
    session_affinity_provider_id = if session == "" then "" else affinity_of d session;
  }

  abbrev pub Providers : Type 0
  Providers = List ConnectedProvider

  unfoldable pub find_provider : String → Providers → Option ConnectedProvider
  find_provider id = first (λ p. p.provider_id == id)

  -- What the matches say: the first one's provider, where it is still connected.
  unfoldable pub selected :
      String → Providers → Affinity → List (MatchResult fl) → Option ConnectedProvider × Affinity
  unfolding find_provider remember
  selected session providers d [] = (none, d)
  selected session providers d (m ∷ _) = elim (find_provider m.provider_id providers) [
    | none ↦ (none, d)
    | some p ↦ (some p, remember session m.provider_id d)
  ]

  -- The selection for a known level. A session of "" is no session.
  unfoldable pub select_at :
      String
      → String
      → ConfidenceLevel
      → Option Float
      → String
      → Option (String → Float)
      → Float
      → Providers
      → Affinity
      → Option ConnectedProvider × Affinity
  unfolding select_order offer_of routable selected
  select_at model preference need max_price session reputation now providers d =
      let order = select_order model preference need max_price session d now in
      let offers = map (offer_of reputation) (select (routable now) providers) in
      selected session providers d (greedy_match fl now (order ∷ []) offers).0

  -- `select_provider`; `none` is the KeyError of an unknown level.
  unfoldable pub select_provider :
      String
      → String
      → String
      → Option Float
      → String
      → Option (String → Float)
      → Float
      → Providers
      → Affinity
      → Option (Option ConnectedProvider × Affinity)
  unfolding select_at
  select_provider model preference min_confidence max_price session reputation now providers d =
      elim (parse_level min_confidence) [
        | none ↦ none
        | some need ↦
            some (select_at model preference need max_price session reputation now providers d)
      ]

  pub data Refusal : Type 0 where
    no_provider_available model_not_available trust_too_low price_too_high : Refusal

  abbrev pub serves_model : String → ConnectedProvider → Bool
  serves_model model p = (model == "default") || elem model p.models

  abbrev pub meets_trust : ConfidenceLevel → ConnectedProvider → Bool
  meets_trust need p = leb (level_value need) (level_value p.trust_level)

  abbrev is_empty : Providers → Bool
  is_empty [] = true
  is_empty (p ∷ ps) = false

  -- `explain_no_match` for a known level: why no provider could ever serve, or `none`.
  unfoldable pub explain_at :
      String → ConfidenceLevel → Option Float → Float → Providers → Option Refusal
  unfolding routable level_value
  explain_at model need max_price now providers =
      let seen = select (routable now) providers in
      let serving = select (serves_model model) seen in
      let trusted = select (meets_trust need) serving in
      if is_empty seen
      then some no_provider_available
      else if is_empty serving
      then some model_not_available
      else if is_empty trusted
      then some trust_too_low
      else (elim max_price [
        | none ↦ none
        | some m ↦
            if is_empty (select (λ p. le p.price_per_mtok_output m) trusted)
            then some price_too_high
            else none
      ])

  -- `set_quarantine`: returns whether the provider is connected.
  unfoldable pub set_quarantine : String → Bool → String → Providers → Bool × Providers
  set_quarantine id on reason [] = (false, [])
  set_quarantine id on reason (p ∷ ps) =
      let rest = set_quarantine id on reason ps in
      if p.provider_id == id
      then (true, record p { quarantined = on; quarantine_reason = if on then reason else "" } ∷ ps)
      else (rest.0, p ∷ rest.1)

  -- `handle_heartbeat`; the time of the last one is not read by the hub.
  unfoldable pub handle_heartbeat : String → ℤ → Providers → Providers
  handle_heartbeat id active =
      update (λ p. p.provider_id == id) (λ p. record p { active_requests = active })

  -- `providers_with_token`
  unfoldable pub providers_with_token : String → Providers → List String
  providers_with_token token providers =
      map (λ p. p.provider_id) (select (λ p. not (token == "") && (p.token_id == token)) providers)

  -- `send_attestation_challenge`, before the message is sent.
  unfoldable pub send_attestation_challenge : String → String → Float → Providers → Providers
  send_attestation_challenge id nonce now =
      update (λ p. p.provider_id == id)
        (λ p. record p { pending_challenge_nonce = some nonce; challenge_sent_at = now })
