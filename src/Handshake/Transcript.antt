-- ===== src/Handshake/Transcript.antt =====
-- Proofs about the transcript of inference_exchange/shared/handshake.py.
use inference_exchange.Prelude.{
  ℕ, ◌/◌, ◌%◌, ◌^◌, ◌<◌, ◌≡◌, refl, sym, ◌∙◌, String, Option, none, some, List, [], ◌∷◌, ◌++◌, ◌==◌,
  text_eq, nat_eq, ltb, length, arith, Option-cases, Bool-cases, inl, inr,
}
use inference_exchange.Handshake.{
  Bytes, to_bytes4, frame, join_frames, fields, parameters, transcript, ProviderOffer,
  HandshakeParameters, unb64, validate, build_transcript, built,
}

append-cancel : (v w r s : Bytes) → length v ≡ length w → v ++ r ≡ w ++ s → (v ≡ w) × (r ≡ s)
append-cancel [] [] r s h e = (refl, e)
append-cancel [] (y ∷ w) r s h e = absurd (omega arith)
append-cancel (x ∷ v) [] r s h e = absurd (omega arith)
append-cancel (x ∷ v) (y ∷ w) r s h e =
    let (same_v, same_r) = append-cancel v w r s (omega arith) (cc) in (cc (e, same_v), same_r)

to_bytes4-injective :
    (m n : ℕ) (r s : Bytes)
    → m < 2 ^ 32
    → n < 2 ^ 32
    → to_bytes4 m ++ r ≡ to_bytes4 n ++ s
    → (m ≡ n) × (r ≡ s)
to_bytes4-injective m n r s hm hn e =
    let e0 : m / 2 ^ 24 % 256 ≡ n / 2 ^ 24 % 256 = cc e in
    let e1 : m / 2 ^ 16 % 256 ≡ n / 2 ^ 16 % 256 = cc e in
    let e2 : m / 2 ^ 8 % 256 ≡ n / 2 ^ 8 % 256 = cc e in
    let e3 : m % 256 ≡ n % 256 = cc e in (omega arith, cc e)

framed : (v a : Bytes) → frame v ≡ some a → (length v < 2 ^ 32) × (a ≡ to_bytes4 (length v) ++ v)
unfolding frame
framed v a h = elim (Bool-cases (ltb (length v) (2 ^ 32))) [
  | inl short ↦
      let k : some (to_bytes4 (length v) ++ v) ≡ some a = rw short at h in
      (ground (arith, short), sym (cc k))
  | inr long ↦ absurd (let k : none ≡ some a = rw long at h in cc)
]

-- Equal frames, each with something after it, hold equal fields.
frame-injective :
    (v w a b r s : Bytes)
    → frame v ≡ some a
    → frame w ≡ some b
    → a ++ r ≡ b ++ s
    → (v ≡ w) × (r ≡ s)
frame-injective v w a b r s ha hb e =
    let (short_v, ea) = framed v a ha in
    let (short_w, eb) = framed w b hb in
    let (same_length, same_rest) =
      to_bytes4-injective (length v) (length w) (v ++ r) (w ++ s) short_v short_w
        (rw (ea, eb) at e) in
    append-cancel v w r s same_length same_rest

joined :
    (v : Bytes) (vs : List Bytes) (b : Bytes)
    → join_frames (v ∷ vs) ≡ some b
    → (a : Bytes) × (c : Bytes) × (frame v ≡ some a) × (join_frames vs ≡ some c) × (a ++ c ≡ b)
unfolding join_frames
joined v vs b h = elim (Option-cases (frame v)) [
  | inl e ↦ absurd (let k : none ≡ some b = rw (e, join_frames) at h in cc)
  | inr (a, e) ↦ elim (Option-cases (join_frames vs)) [
    | inl f ↦ absurd (let k : none ≡ some b = rw (e, f, join_frames) at h in cc)
    | inr (c, f) ↦
        let k : some (a ++ c) ≡ some b = rw (e, f, join_frames) at h in (a, c, e, f, cc k)
  ]
]

join_frames-injective :
    (vs ws : List Bytes) (b : Bytes)
    → length vs ≡ length ws
    → join_frames vs ≡ some b
    → join_frames ws ≡ some b
    → vs ≡ ws
join_frames-injective [] [] b h hv hw = refl
join_frames-injective [] (w ∷ ws) b h hv hw = absurd (omega arith)
join_frames-injective (v ∷ vs) [] b h hv hw = absurd (omega arith)
join_frames-injective (v ∷ vs) (w ∷ ws) b h hv hw =
    let (a, c, ha, hc, e) = joined v vs b hv in
    let (a', c', ha', hc', e') = joined w ws b hw in
    let (same, same_rest) = frame-injective v w a a' c c' ha ha' (e ∙ sym e') in
    cc (same, join_frames-injective vs ws c (omega arith) hc (rw (← same_rest) at hc'))

module _ (encode : String → Bytes) (decode : String → Option Bytes) where
  same-fields :
      ((s t : String) → encode s ≡ encode t → s ≡ t)
      → (p q : HandshakeParameters) → fields encode decode p ≡ fields encode decode q
      → p ≡ q
  same-fields inj p q e =
      let version : encode p.protocol_version ≡ encode q.protocol_version = cc e in
      let session : encode p.session_id ≡ encode q.session_id = cc e in
      let provider : encode p.provider_id ≡ encode q.provider_id = cc e in
      let admission : encode p.admission_id ≡ encode q.admission_id = cc e in
      let identity : p.provider_identity_public_key ≡ q.provider_identity_public_key = cc e in
      let ephemeral : p.provider_ephemeral_public_key ≡ q.provider_ephemeral_public_key = cc e in
      let consumer : p.consumer_ephemeral_public_key ≡ q.consumer_ephemeral_public_key = cc e in
      let fresh : p.freshness ≡ q.freshness = cc e in
      cc (
        inj _ _ version,
        inj _ _ session,
        inj _ _ provider,
        inj _ _ admission,
        identity,
        ephemeral,
        consumer,
        fresh,
      )

  transcript-injective :
      ((s t : String) → encode s ≡ encode t → s ≡ t)
      → (p q : HandshakeParameters) (b : Bytes) → transcript encode decode p ≡ some b
      → transcript encode decode q ≡ some b
      → p ≡ q
  unfolding transcript
  transcript-injective inj p q b hp hq =
      same-fields inj p q
        (join_frames-injective (fields encode decode p) (fields encode decode q) b refl hp hq)

  -- What a transcript that is built stands for.
  abbrev pub Authentic : ℕ → String → ProviderOffer → Bytes → Bytes → Bytes → Bytes → Type 0
  Authentic now session o provider_key consumer_key fresh b =
      (now < o.expires_at)
      × (o.security_profile ≡ "L2")
      × (length provider_key ≡ 32)
      × (length consumer_key ≡ 32)
      × (length fresh ≡ 32)
      × ((key : Bytes) × (decode o.provider_identity_public_key ≡ some key)
          × (length key ≡ 32)
          × (transcript encode decode
                (parameters encode decode session o key provider_key consumer_key fresh)
              ≡ some b))

  unb64-decode : (s : String) (key : Bytes) → unb64 encode decode s ≡ some key → decode s ≡ some key
  unfolding unb64
  unb64-decode s key h = elim (Bool-cases (s == "")) [
    | inl e ↦ absurd (let k : none ≡ some key = rw e at h in cc)
    | inr e ↦ rw e at h
  ]

  validated :
      (now : ℕ) (o : ProviderOffer)
      → validate encode decode now o ≡ none
      → (now < o.expires_at)
        × (o.security_profile ≡ "L2")
        × ((key : Bytes) × (unb64 encode decode o.provider_identity_public_key ≡ some key)
            × (length key ≡ 32))
  unfolding validate
  validated now o h = elim (Option-cases (unb64 encode decode o.provider_identity_public_key)) [
    | inl e ↦ absurd (ground (arith, e))
    | inr (key, e) ↦ (ground arith, ground arith, (key, e, ground (arith, e)))
  ]

  -- A transcript that is built is that of an offer at level L2 which has not expired, with an
  -- identity key that decodes to 32 bytes, two ephemeral keys and a freshness value of 32 bytes
  -- each, and it frames these values.
  pub build_transcript-Authentic :
      (now : ℕ) (session : String) (o : ProviderOffer) (provider_key consumer_key fresh b : Bytes)
      → build_transcript encode decode now session o provider_key consumer_key fresh ≡ built b
      → Authentic now session o provider_key consumer_key fresh b
  unfolding build_transcript
  build_transcript-Authentic now session o provider_key consumer_key fresh b h =
      let (live, profile, (key, e, key_length)) = validated now o (ground arith) in
      (
        live,
        profile,
        ground arith,
        ground arith,
        ground arith,
        (key, unb64-decode o.provider_identity_public_key key e, key_length, ground (arith, e)),
      )

  -- Where the encoding of texts is injective, two handshakes whose transcripts are built, at any
  -- times, and come out as the same bytes agree on the session, the provider and admission ids,
  -- the provider's identity key, both ephemeral keys and the freshness value.
  pub build_transcript-agree :
      ((s t : String) → encode s ≡ encode t → s ≡ t)
      → (now later : ℕ) (session session' : String) (o o' : ProviderOffer)
      → (provider_key consumer_key fresh provider_key' consumer_key' fresh' b : Bytes)
      → build_transcript encode decode now session o provider_key consumer_key fresh ≡ built b
      → build_transcript encode decode later session' o' provider_key' consumer_key' fresh'
        ≡ built b
      → (session ≡ session')
        × (o.provider_id ≡ o'.provider_id)
        × (o.admission_id ≡ o'.admission_id)
        × (decode o.provider_identity_public_key ≡ decode o'.provider_identity_public_key)
        × (provider_key ≡ provider_key')
        × (consumer_key ≡ consumer_key')
        × (fresh ≡ fresh')
  build_transcript-agree inj now later session session' o o' p c f p' c' f' b h h' =
      let (_, _, _, _, _, (key, e, _, t)) = build_transcript-Authentic now session o p c f b h in
      let (_, _, _, _, _, (key', e', _, t')) =
        build_transcript-Authentic later session' o' p' c' f' b h' in
      let same = transcript-injective inj _ _ b t t' in
      (cc same, cc same, cc same, cc (same, e, e'), cc same, cc same, cc same)
