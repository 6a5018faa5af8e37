-- ===== src/Hub/Attestation.antt =====
-- Attestation challenges of inference_exchange/coordinator/provider_hub.py: what a provider's own
-- report can do to its standing.
use inference_exchange.Prelude.{
  Floats, ◌≡◌, refl, String, Bool, true, false, not, ◌&&◌, ◌||◌, none, some, ◌==◌, text_eq,
  if◌then◌else◌, update, In, All, All-of_In, All-update, arith, ◌⊎◌, inl, inr, String_discrete,
  text_ne, ◌≢◌,
}
use inference_exchange.Matching.{ConfidenceLevel, hardened, contained, open_level, confidential}
use inference_exchange.Hub.{
  ConnectedProvider, Providers, is_confidential, requires_app_attest, admitted,
}

-- `AttestationResponse`, the fields that the hub reads.
pub record Report : Type 0 where
  pub nonce : String
  pub sip_enabled : Bool
  pub hardened_runtime : Bool
  pub agent_binary_hash : String
  pub attestation_object : String

abbrev pub is_hardened : ConfidenceLevel → Bool
is_hardened confidential = true
is_hardened hardened = true
is_hardened contained = false
is_hardened open_level = false

degraded_not_passed : ◌≢◌ {A = String} "degraded" "passed"
unfolding String_discrete
degraded_not_passed = text_ne "degraded" "passed" refl

pending_not_passed : ◌≢◌ {A = String} "pending" "passed"
unfolding String_discrete
pending_not_passed = text_ne "pending" "passed" refl

module _ (fl : Floats) where
  open fl use {Float, sub, lt}

  -- The challenge that is open and that the report answers.
  abbrev pub answers : Report → ConnectedProvider fl → Bool
  answers r p = elim p.pending_challenge_nonce [
    | none ↦ false
    | some n ↦ not (n == "") && (r.nonce == n)
  ]

  -- Whether the list of issues is not empty.
  abbrev pub has_issues : Report → ConnectedProvider fl → Bool
  has_issues r p =
      (is_hardened p.trust_level
        && (not r.sip_enabled || (not r.hardened_runtime || (r.agent_binary_hash == ""))))
      || (is_confidential p.trust_level && (r.attestation_object == ""))

  unfoldable pub respond : Float → Report → ConnectedProvider fl → ConnectedProvider fl
  respond now r p =
      if not (answers r p)
      then record p { attestation_status = "degraded"; app_attest_verified = false }
      else if has_issues r p
      then record p {
        pending_challenge_nonce = none;
        last_attestation = now;
        attestation_status = "degraded";
        app_attest_verified = false;
      }
      else record p {
        pending_challenge_nonce = none;
        last_attestation = now;
        attestation_status = if is_confidential p.trust_level then "pending" else "passed";
        app_attest_verified = false;
      }

  unfoldable pub handle_attestation_response : String → Float → Report → Providers fl → Providers fl
  unfolding respond
  handle_attestation_response id now r = update (λ p. p.provider_id == id) (respond now r)

  abbrev is_overdue : Float → Float → ConnectedProvider fl → Bool
  is_overdue now timeout p = elim p.pending_challenge_nonce [
    | none ↦ false
    | some n ↦ not (n == "") && lt timeout (sub now p.challenge_sent_at)
  ]

  unfoldable pub check_attestation_timeouts : Float → Float → Providers fl → Providers fl
  check_attestation_timeouts now timeout = update (is_overdue now timeout) (λ p. record p {
    pending_challenge_nonce = none;
    attestation_status = "degraded";
    app_attest_verified = false;
  })

  respond-unverified :
      (now : Float) (r : Report) (p : ConnectedProvider fl)
      → (respond now r p).app_attest_verified ≡ false
  unfolding respond
  respond-unverified now r p = ground arith

  respond-level :
      (now : Float) (r : Report) (p : ConnectedProvider fl)
      → (respond now r p).trust_level ≡ p.trust_level
  unfolding respond
  respond-level now r p = ground arith

  -- After a provider's attestation response, whatever it reports, each provider is unchanged or
  -- not an admitted one of those that need App Attest.
  pub handle_attestation_response_lem :
      (id : String) (now later : Float) (r : Report) (ps : Providers fl)
      → All
          (λ p. In p ps ⊎ ((requires_app_attest fl p && admitted fl later p) ≡ false))
          (handle_attestation_response id now r ps)
  unfolding handle_attestation_response admitted
  handle_attestation_response_lem id now later r ps =
      All-update (λ p. In p ps)
        (λ p. In p ps ⊎ ((requires_app_attest fl p && admitted fl later p) ≡ false))
        (λ p. p.provider_id == id) (respond now r) ps (All-of_In _ ps (λ p m. m))
        (λ p m e. inr (ground (arith, respond-unverified now r p))) (λ p m e. inl m)

  -- Where an attestation response leaves a provider with the status passed, the response answered
  -- the open challenge, the provider is not confidential, and a hardened one reported SIP, the
  -- hardened runtime and a binary hash.
  pub respond-passed :
      (now : Float) (r : Report) (p : ConnectedProvider fl)
      → (respond now r p).attestation_status ≡ "passed"
      → (p.pending_challenge_nonce ≡ some r.nonce)
        × (is_confidential p.trust_level ≡ false)
        × (is_hardened p.trust_level ≡ true
            → (r.sip_enabled && (r.hardened_runtime && not (r.agent_binary_hash == ""))) ≡ true)
  unfolding respond
  respond-passed now r p h = ground (arith, h, degraded_not_passed, pending_not_passed)

  -- A provider that gets the same attestation response twice in a row is degraded after the
  -- second.
  pub respond-replay :
      (now later : Float) (r : Report) (p : ConnectedProvider fl)
      → (respond later r (respond now r p)).attestation_status ≡ "degraded"
  unfolding respond
  respond-replay now later r p = ground arith
