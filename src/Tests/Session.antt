-- ===== src/Tests/Session.antt =====
-- One session transcript.
use native.Mathlib.Decide.{ℕ_discrete}
use inference_exchange.Prelude.{
  ◌≡◌, refl, String, [], ◌∷◌, Option, some, length, ◌++◌, ℕ, zero, suc, String_discrete,
}
use inference_exchange.Handshake.{
  Bytes, ProviderOffer, built, build_transcript, validate, transcript, join_frames, to_bytes4,
}
use inference_exchange.Handshake.Transcript.{
  build_transcript-agree, build_transcript-Authentic, Authentic,
}
use inference_exchange.Tests.Codes.{encode, encode-injective}

abbrev bytes : ℕ → ℕ → Bytes
bytes zero b = []
bytes (suc n) b = b ∷ bytes n b

-- A decoder that knows one text.
abbrev decode : String → Option Bytes
decode s = some (bytes 32 9)

abbrev provider : ProviderOffer
provider = record {
  provider_id = "p";
  provider_identity_public_key = "key";
  app_attest_key_id = "k";
  security_profile = "L2";
  protocol_version = "0.1.0";
  models = "llama" ∷ [];
  expires_at = 100;
  admission_id = "a";
  artifact_or_build_hash = "h";
}

abbrev framed : Bytes → Bytes
framed b = to_bytes4 (length b) ++ b

abbrev agreed : Bytes
agreed =
    framed (encode "0.1.0")
    ++ framed (encode "s")
    ++ framed (encode "p")
    ++ framed (encode "a")
    ++ framed (bytes 32 9)
    ++ framed (bytes 32 1)
    ++ framed (bytes 32 2)
    ++ framed (bytes 32 3)

build_transcript-run :
    build_transcript encode decode 50 "s" provider (bytes 32 1) (bytes 32 2) (bytes 32 3)
    ≡ built agreed
unfolding build_transcript validate transcript join_frames String_discrete ℕ_discrete
build_transcript-run = refl

build_transcript-agree_example :
    (◌≡◌ {A = String} "s" "s")
    × (provider.provider_id ≡ provider.provider_id)
    × (provider.admission_id ≡ provider.admission_id)
    × (decode provider.provider_identity_public_key ≡ decode provider.provider_identity_public_key)
    × (bytes 32 1 ≡ bytes 32 1)
    × (bytes 32 2 ≡ bytes 32 2)
    × (bytes 32 3 ≡ bytes 32 3)
build_transcript-agree_example =
    build_transcript-agree encode decode encode-injective 50 50 "s" "s" provider provider
      (bytes 32 1) (bytes 32 2) (bytes 32 3) (bytes 32 1) (bytes 32 2) (bytes 32 3) agreed
      build_transcript-run build_transcript-run

build_transcript-Authentic_example :
    Authentic encode decode 50 "s" provider (bytes 32 1) (bytes 32 2) (bytes 32 3) agreed
build_transcript-Authentic_example =
    build_transcript-Authentic encode decode 50 "s" provider (bytes 32 1) (bytes 32 2) (bytes 32 3)
      agreed build_transcript-run
