-- ===== src/Hub/Selection.antt =====
-- Proofs about `select_provider` of inference_exchange/coordinator/provider_hub.py.
use inference_exchange.Prelude.{
  Floats, IsOrdered, ◌≤◌, ◌<◌, ◌≡◌, sym, ap, subst, String, true, false, Option, none, some, List,
  [], ◌∷◌, map, ◌==◌, text_eq, select, count, In, In-map, In-select, first-In, Option-cases, All,
  arith, inl, inr, ◌∙◌,
}
use inference_exchange.Matching.{
  confidential, ConfidenceLevel, level_value, MatchResult, available_slots,
}
use inference_exchange.Matching.Scan.{Meets}
use inference_exchange.Matching.Outcomes.{IsAllowed, allowed, greedy_match-IsAllowed}
use inference_exchange.Hub.{
  ConnectedProvider, Providers, Affinity, routable, admitted, requires_app_attest, is_confidential,
  offer_of, select_order, select_at, find_provider, serves_model, selected,
}

-- The keys of `_providers`.
abbrev pub ProvidersDistinct : (fl : Floats) → Providers fl → Type 0
ProvidersDistinct fl ps = (id : String) → count (λ p. p.provider_id == id) ps ≤ 1

abbrev pub price_limit : (fl : Floats) → Option fl.Float → fl.Float
price_limit fl none = fl.inf
price_limit fl (some m) = m

-- What a request asks of a provider.
pub record Suits (fl : Floats) (model : String) (need : ConfidenceLevel)
    (max_price : Option fl.Float) (now : fl.Float) (p : ConnectedProvider fl) : Type 0 where
  pub not_quarantined : p.quarantined ≡ false
  pub attested :
      p.trust_level ≡ confidential
      → (p.app_attest_verified ≡ true) × (fl.lt now p.admission_expires_at ≡ true)
  pub model_served : serves_model fl model p ≡ true
  pub price_accepted : fl.lt (price_limit fl max_price) p.price_per_mtok_output ≡ false
  pub trust_met : level_value need ≤ level_value p.trust_level
  pub slot_free : (r : Option (String → fl.Float)) → 0 < available_slots fl (offer_of fl r p)

module _ (fl : Floats) (ord : IsOrdered fl) where
  routable-seen :
      (now : fl.Float) (p : ConnectedProvider fl)
      → routable fl now p ≡ true
      → (p.quarantined ≡ false)
        × (p.trust_level ≡ confidential
            → (p.app_attest_verified ≡ true) × (fl.lt now p.admission_expires_at ≡ true))
  unfolding routable admitted requires_app_attest
  routable-seen now p h = (
    ground (arith, h),
    λ level.
        let k : (is_confidential p.trust_level ≡ true) = ap is_confidential level in
        (ground (arith, h, k), ground (arith, h, k)),
  )

  Meets-Suits :
      (model preference : String) (need : ConfidenceLevel) (max_price : Option fl.Float)
      (session : String) (d : Affinity fl) (reputation : Option (String → fl.Float))
      (now : fl.Float) (p : ConnectedProvider fl)
      → routable fl now p ≡ true
      → Meets fl
          (select_order fl model preference need max_price session d now)
          (offer_of fl reputation p)
      → Suits fl model need max_price now p
  unfolding select_order offer_of available_slots
  Meets-Suits model preference need none session d reputation now p seen h = record {
    not_quarantined = (routable-seen now p seen).0;
    attested = (routable-seen now p seen).1;
    model_served = h.model_served;
    price_accepted = h.price_accepted;
    trust_met = h.trust_met;
    slot_free = λ r. h.slot_free;
  }
  Meets-Suits model preference need (some m) session d reputation now p seen h = record {
    not_quarantined = (routable-seen now p seen).0;
    attested = (routable-seen now p seen).1;
    model_served = h.model_served;
    price_accepted = h.price_accepted;
    trust_met = h.trust_met;
    slot_free = λ r. h.slot_free;
  }

  allowed-Suits :
      (model preference : String) (need : ConfidenceLevel) (max_price : Option fl.Float)
      (session : String) (d : Affinity fl) (reputation : Option (String → fl.Float))
      (now : fl.Float) (ps : Providers fl) (p : ConnectedProvider fl) (m : MatchResult fl)
      → ProvidersDistinct fl ps
      → IsAllowed fl now
          (select_order fl model preference need max_price session d now ∷ [])
          (map (offer_of fl reputation) (select (routable fl now) ps))
          m
      → find_provider fl m.provider_id ps ≡ some p
      → In p ps × Suits fl model need max_price now p
  unfolding find_provider offer_of
  allowed-Suits model preference need max_price session d reputation now ps p _ u
        (allowed order offer _ _ (inr m) mo _ _ _) found =
      absurd m
  allowed-Suits model preference need max_price session d reputation now ps p _ u
        (allowed order offer _ _ (inl eo) mo _ meets _) found =
      let (q, mq, eq) = In-map (offer_of fl reputation) (select (routable fl now) ps) offer mo in
      let (member, seen) = In-select (routable fl now) ps q mq in
      let same : q ≡ p =
        first-In (λ r. r.provider_id == offer.provider_id) ps q p member
          (ground (arith, ap (λ o. o.provider_id) eq)) (u offer.provider_id) found in
      subst (λ r. In r ps × Suits fl model need max_price now r) same
        (
          member,
          Meets-Suits model preference need max_price session d reputation now q seen (
              subst (λ o. Meets fl o (offer_of fl reputation q)) (sym eo)
                (subst (λ o. Meets fl order o) (sym eq) meets)),
        )

  selected-Suits :
      (model preference : String) (need : ConfidenceLevel) (max_price : Option fl.Float)
      (session : String) (reputation : Option (String → fl.Float)) (now : fl.Float)
      (ps : Providers fl) (d : Affinity fl) (p : ConnectedProvider fl) (ms : List (MatchResult fl))
      → ProvidersDistinct fl ps
      → All
          (IsAllowed fl now
            (select_order fl model preference need max_price session d now ∷ [])
            (map (offer_of fl reputation) (select (routable fl now) ps)))
          ms
      → (selected fl session ps d ms).0 ≡ some p
      → In p ps × Suits fl model need max_price now p
  unfolding selected
  selected-Suits model preference need max_price session reputation now ps d p [] u good h =
      absurd cc
  selected-Suits model preference need max_price session reputation now ps d p (m ∷ ms) u good h =
      elim (Option-cases (find_provider fl m.provider_id ps)) [
        | inl absent ↦ absurd (let k : none ≡ some p = rw (absent, selected) at h in cc)
        | inr (q, found) ↦
            allowed-Suits model preference need max_price session d reputation now ps p m u good.0
              (found ∙ rw (found, selected) at h)
      ]

  -- Where `<` on floats is a strict order, -1.0 < 0 and provider ids are distinct, a provider that
  -- is selected for a request is connected, is not quarantined, is App Attest verified and not
  -- past its admission if it is confidential, serves the model, does not cost more than the limit,
  -- has the trust asked for or more, and has a slot free.
  pub select_at-Suits :
      (model preference : String) (need : ConfidenceLevel) (max_price : Option fl.Float)
      (session : String) (reputation : Option (String → fl.Float)) (now : fl.Float)
      (ps : Providers fl) (d : Affinity fl) (p : ConnectedProvider fl)
      → ProvidersDistinct fl ps
      → (select_at fl model preference need max_price session reputation now ps d).0 ≡ some p
      → In p ps × Suits fl model need max_price now p
  unfolding select_at
  select_at-Suits model preference need max_price session reputation now ps d p u h =
      selected-Suits model preference need max_price session reputation now ps d p _ u
        (greedy_match-IsAllowed fl ord now
          (select_order fl model preference need max_price session d now ∷ [])
          (map (offer_of fl reputation) (select (routable fl now) ps)))
        h
