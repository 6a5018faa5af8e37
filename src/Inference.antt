-- ===== src/Inference.antt =====
-- `ChatCompletionRequest` of inference_exchange/coordinator/routes_inference.py and its checks.
pub mod Endpoint
pub mod Gates
pub mod Slots
pub mod Responses
use inference_exchange.Prelude.{
  Floats, Host, ℕ, ℤ, pos, ◌+◌, ◌*◌, ◌/◌, max, ltb_ℤ, String, Bool, true, false, not, ◌||◌, Option,
  none, some, List, [], ◌∷◌, ◌==◌, text_eq, nat_eq, if◌then◌else◌, ltb, length, elem,
}

-- A message, by its role and the length of its content in characters.
pub record ChatMessage : Type 0 where
  pub role : String
  pub content_length : ℕ

pub data InvalidInput : Type 0 where
  unknown_level no_messages too_many_messages content_too_large bad_max_tokens bad_temperature :
      InvalidInput

pub data InvalidModel : Type 0 where
  model_required default_alias model_not_exact : InvalidModel

abbrev pub total_chars : List ChatMessage → ℕ
total_chars [] = 0
total_chars (m ∷ ms) = m.content_length + total_chars ms

-- `_estimate_input_tokens`
unfoldable pub estimate_input_tokens : List ChatMessage → ℕ
estimate_input_tokens ms = max 1 (total_chars ms / 4 + length ms * 4)

-- `OCIP_LEVEL_ALIASES.get(normalized, normalized)`
abbrev pub unalias : String → String
unalias s =
    if s == "l0"
    then "open"
    else if s == "l1"
    then "contained"
    else if s == "l2"
    then "hardened"
    else if s == "l3"
    then "confidential"
    else s

-- `normalize_min_confidence`
unfoldable pub normalize_min_confidence : Host → String → String
normalize_min_confidence host s = unalias (host.lower (host.strip s))

-- `OCIP_LEVEL_ALIASES.values()`
abbrev pub level_names : List String
level_names = "open" ∷ "contained" ∷ "hardened" ∷ "confidential" ∷ []

module _ (fl : Floats) where
  open fl use {Float, of_int, lt}

  -- A session id that is missing is the empty text.
  pub record ChatCompletionRequest : Type 0 where
    pub model : Option String
    pub messages : List ChatMessage
    pub max_tokens : ℤ
    pub temperature : Float
    pub ocip_preference : String
    pub ocip_min_confidence : String
    pub ocip_max_price : Option Float
    pub ocip_session_id : String

  -- `validate_inputs`: the first complaint, if there is one.
  unfoldable pub validate_inputs : ChatCompletionRequest → Option InvalidInput
  validate_inputs r =
      if not (elem r.ocip_min_confidence level_names)
      then some unknown_level
      else if length r.messages == 0
      then some no_messages
      else if ltb 100 (length r.messages)
      then some too_many_messages
      else if ltb 200_000 (total_chars r.messages)
      then some content_too_large
      else if ltb_ℤ r.max_tokens (pos 1) || ltb_ℤ (pos 32_768) r.max_tokens
      then some bad_max_tokens
      else if lt r.temperature (of_int (pos 0)) || lt (of_int (pos 2)) r.temperature
      then some bad_temperature
      else none

  abbrev pub model_name : Host → String → Option InvalidModel
  model_name host m =
      if host.strip m == ""
      then some model_required
      else if m == "default"
      then some default_alias
      else if not (m == host.strip m)
      then some model_not_exact
      else none

  -- `validate_model`
  unfoldable pub validate_model : Host → ChatCompletionRequest → Option InvalidModel
  validate_model host r = elim r.model [ none ↦ some model_required | some m ↦ model_name host m ]
