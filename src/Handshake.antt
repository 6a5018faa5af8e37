-- ===== src/Handshake.antt =====
-- Provider offers and the session transcript of inference_exchange/shared/handshake.py. A byte
-- string is a list of numbers. The text encodings are the interpreter's, so they are parameters.
pub mod Transcript
use inference_exchange.Prelude.{
  ℕ, ◌/◌, ◌%◌, ◌^◌, String, Bool, true, false, not, ◌||◌, Option, none, some, List, [], ◌∷◌, ◌++◌,
  ◌==◌, text_eq, nat_eq, if◌then◌else◌, ltb, leb, length,
}

abbrev pub Bytes : Type 0
Bytes = List ℕ

abbrev pub protocol_version : String
protocol_version = "0.1.0"

-- `value.to_bytes(4, "big")` of a number below 2^32.
abbrev pub to_bytes4 : ℕ → Bytes
to_bytes4 n = (n / 2 ^ 24 % 256) ∷ (n / 2 ^ 16 % 256) ∷ (n / 2 ^ 8 % 256) ∷ (n % 256) ∷ []

-- One field of the transcript; `none` is the OverflowError of `to_bytes`.
unfoldable pub frame : Bytes → Option Bytes
frame v = if ltb (length v) (2 ^ 32) then some (to_bytes4 (length v) ++ v) else none

-- `b"".join(… for value in fields)`
unfoldable pub join_frames : List Bytes → Option Bytes
unfolding frame
join_frames [] = some []
join_frames (v ∷ vs) = elim (frame v) [
  | none ↦ none
  | some b ↦ elim (join_frames vs) [ none ↦ none | some bs ↦ some (b ++ bs) ]
]

pub record ProviderOffer : Type 0 where
  pub provider_id : String
  pub provider_identity_public_key : String
  pub app_attest_key_id : String
  pub security_profile : String
  pub protocol_version : String
  pub models : List String
  pub expires_at : ℕ
  pub admission_id : String
  pub artifact_or_build_hash : String

pub record HandshakeParameters : Type 0 where
  pub session_id : String
  pub provider_id : String
  pub admission_id : String
  pub provider_identity_public_key : Bytes
  pub provider_ephemeral_public_key : Bytes
  pub consumer_ephemeral_public_key : Bytes
  pub freshness : Bytes
  pub protocol_version : String

-- The ValueErrors of this module, and the OverflowError of a field that is too long.
pub data HandshakeError : Type 0 where
  bad_identity missing_key_id not_admitted bad_version no_models bad_record expired : HandshakeError
  bad_base64 bad_identity_key bad_key bad_freshness too_long : HandshakeError

abbrev no_elements : List String → Bool
no_elements [] = true
no_elements (_ ∷ _) = false

-- `encode` is `str.encode("utf-8")`, which is also what "ascii" gives a version of the protocol;
-- `decode` is the base64 decoder under `_unb64`, with `none` for its exception.
module _ (encode : String → Bytes) (decode : String → Option Bytes) where
  abbrev pub fields : HandshakeParameters → List Bytes
  fields p =
      encode p.protocol_version
      ∷ encode p.session_id
      ∷ encode p.provider_id
      ∷ encode p.admission_id
      ∷ p.provider_identity_public_key
      ∷ p.provider_ephemeral_public_key
      ∷ p.consumer_ephemeral_public_key
      ∷ p.freshness
      ∷ []

  unfoldable pub transcript : HandshakeParameters → Option Bytes
  transcript p = join_frames (fields p)

  unfoldable pub unb64 : String → Option Bytes
  unb64 s = if s == "" then none else decode s

  -- `validate`: the first ValueError, if there is one.
  unfoldable pub validate : ℕ → ProviderOffer → Option HandshakeError
  unfolding unb64
  validate now o =
      if (o.provider_id == "") || (o.provider_identity_public_key == "")
      then some bad_identity
      else if o.app_attest_key_id == ""
      then some missing_key_id
      else if not (o.security_profile == "L2")
      then some not_admitted
      else if not (o.protocol_version == protocol_version)
      then some bad_version
      else if no_elements o.models
      then some no_models
      else if (o.admission_id == "") || (o.artifact_or_build_hash == "")
      then some bad_record
      else if leb o.expires_at now
      then some expired
      else elim (unb64 o.provider_identity_public_key) [
        | none ↦ some bad_base64
        | some key ↦ if length key == 32 then none else some bad_identity_key
      ]

  pub data Built {ℓ} (A : Type ℓ) : Type ℓ where
    built : A → Built A
    failed : HandshakeError → Built A

  abbrev pub parameters :
      String → ProviderOffer → Bytes → Bytes → Bytes → Bytes → HandshakeParameters
  parameters session o key provider_key consumer_key freshness = record {
    session_id = session;
    provider_id = o.provider_id;
    admission_id = o.admission_id;
    provider_identity_public_key = key;
    provider_ephemeral_public_key = provider_key;
    consumer_ephemeral_public_key = consumer_key;
    freshness = freshness;
    protocol_version = o.protocol_version;
  }

  unfoldable pub build_transcript : ℕ → String → ProviderOffer → Bytes → Bytes → Bytes → Built Bytes
  build_transcript now session o provider_key consumer_key freshness = elim (validate now o) [
    | some e ↦ failed e
    | none ↦
        if not (length provider_key == 32) || not (length consumer_key == 32)
        then failed bad_key
        else if not (length freshness == 32)
        then failed bad_freshness
        else elim (unb64 o.provider_identity_public_key) [
          | none ↦ failed bad_base64
          | some key ↦
              elim (transcript (parameters session o key provider_key consumer_key freshness)) [
                | none ↦ failed too_long
                | some b ↦ built b
              ]
        ]
  ]

  pub record SessionHello : Type 0 where
    pub protocol_version : String
    pub session_id : String
    pub provider_id : String
    pub admission_id : String
    pub consumer_ephemeral_public_key : Bytes
    pub freshness : Bytes

  -- `session` and `fresh` are the random values; the bytes are sent in base64.
  unfoldable pub create_session_hello :
      ℕ → String → Bytes → ProviderOffer → Bytes → Built SessionHello
  unfolding validate
  create_session_hello now session fresh o consumer_key = elim (validate now o) [
    | some e ↦ failed e
    | none ↦
        if not (length consumer_key == 32)
        then failed bad_key
        else built (record {
          protocol_version = protocol_version;
          session_id = session;
          provider_id = o.provider_id;
          admission_id = o.admission_id;
          consumer_ephemeral_public_key = consumer_key;
          freshness = fresh;
        })
  ]
