-- ===== src/Hub/Explanation.antt =====
-- Proofs about `explain_no_match` of inference_exchange/coordinator/provider_hub.py.
use inference_exchange.Prelude.{
  Floats, IsOrdered, ◌≡◌, refl, ap, String, Bool, true, false, not, ◌&&◌, Option, none, some, [],
  ◌∷◌, select, any, is_none, In, any-select, Option-cases, arith, inl, inr, All, All-In, ◌∙◌, ◌⊎◌,
  ◌||◌, elem, leb, ◌==◌, text_eq,
}
use inference_exchange.Matching.{
  ConfidenceLevel, level_value, confidential, hardened, contained, open_level,
}
use inference_exchange.Hub.{
  ConnectedProvider, Providers, Affinity, routable, admitted, requires_app_attest, is_confidential,
  serves_model, meets_trust, is_empty, explain_at, select_at,
}
use inference_exchange.Hub.Selection.{ProvidersDistinct, Suits, select_at-Suits}

confidential_or_not : (l : ConfidenceLevel) → (l ≡ confidential) ⊎ (is_confidential l ≡ false)
confidential_or_not confidential = inl refl
confidential_or_not hardened = inr refl
confidential_or_not contained = inr refl
confidential_or_not open_level = inr refl

module _ (fl : Floats) where
  abbrev pub within : Option fl.Float → ConnectedProvider fl → Bool
  within none p = true
  within (some m) p = fl.le p.price_per_mtok_output m

  -- A provider that could serve the request, whatever its load.
  abbrev pub servable :
      String → ConfidenceLevel → Option fl.Float → fl.Float → ConnectedProvider fl → Bool
  servable model need max_price now p =
      (admitted fl now p && not p.quarantined)
      && (((model == "default") || elem model p.models)
          && (leb (level_value need) (level_value p.trust_level) && within max_price p))

  is_empty-select :
      (p : ConnectedProvider fl → Bool) (ps : Providers fl)
      → is_empty fl (select p ps) ≡ not (any p ps)
  is_empty-select p [] = refl
  is_empty-select p (x ∷ ps) = ground (arith, is_empty-select p ps)

  select-is_empty :
      (p : ConnectedProvider fl → Bool) (ps : Providers fl)
      → is_empty fl ps ≡ true
      → is_empty fl (select p ps) ≡ true
  select-is_empty p [] h = refl
  select-is_empty p (x ∷ ps) h = absurd cc

  any-is_empty :
      (p : ConnectedProvider fl → Bool) (ps : Providers fl)
      → is_empty fl ps ≡ true
      → any p ps ≡ false
  any-is_empty p [] h = refl
  any-is_empty p (x ∷ ps) h = absurd cc

  any_every : (ps : Providers fl) → is_empty fl ps ≡ false → any (within none) ps ≡ true
  any_every [] h = absurd cc
  any_every (x ∷ ps) h = refl

  -- The four filters in a row keep a provider exactly where one meets all four tests.
  any-filters :
      (model : String) (need : ConfidenceLevel) (max_price : Option fl.Float) (now : fl.Float)
      (ps : Providers fl)
      → any (within max_price) (
          select
            (meets_trust fl need)
            (select (serves_model fl model) (select (routable fl now) ps)))
        ≡ any (servable model need max_price now) ps
  unfolding routable
  any-filters model need max_price now ps =
      any-select (meets_trust fl need) (within max_price)
        (select (serves_model fl model) (select (routable fl now) ps))
      ∙ any-select (serves_model fl model) (λ p. meets_trust fl need p && within max_price p)
          (select (routable fl now) ps)
      ∙ any-select (routable fl now)
          (λ p. serves_model fl model p && (meets_trust fl need p && within max_price p)) ps

  -- The explanation gives no reason to refuse a request exactly where some connected provider is
  -- routable, serves the model, has the trust asked for and is within the price.
  pub explain_at_lem :
      (model : String) (need : ConfidenceLevel) (max_price : Option fl.Float) (now : fl.Float)
      (ps : Providers fl)
      → is_none (explain_at fl model need max_price now ps)
        ≡ any (servable model need max_price now) ps
  unfolding explain_at
  explain_at_lem model need none now ps =
      let seen = select (routable fl now) ps in
      let serving = select (serves_model fl model) seen in
      let trusted = select (meets_trust fl need) serving in
      rw (← any-filters model need none now ps) ground (
        arith,
        select-is_empty (serves_model fl model) seen,
        select-is_empty (meets_trust fl need) serving,
        any-is_empty (within none) trusted,
        any_every trusted,
      )
  explain_at_lem model need (some m) now ps =
      let seen = select (routable fl now) ps in
      let serving = select (serves_model fl model) seen in
      let trusted = select (meets_trust fl need) serving in
      rw (← any-filters model need (some m) now ps) ground (
        arith,
        select-is_empty (serves_model fl model) seen,
        select-is_empty (meets_trust fl need) serving,
        any-is_empty (within (some m)) trusted,
        is_empty-select (within (some m)) trusted,
      )

  servable-In :
      (q : ConnectedProvider fl → Bool) (ps : Providers fl) (p : ConnectedProvider fl)
      → In p ps
      → q p ≡ true
      → any q ps ≡ true
  servable-In q [] p m h = absurd m
  servable-In q (x ∷ ps) p (inl e) h = ground (arith, ap q e, h)
  servable-In q (x ∷ ps) p (inr m) h = ground (arith, servable-In q ps p m h)

  Suits-admitted :
      (model : String) (need : ConfidenceLevel) (max_price : Option fl.Float) (now : fl.Float)
      (p : ConnectedProvider fl)
      → Suits fl model need max_price now p
      → admitted fl now p ≡ true
  unfolding admitted requires_app_attest
  Suits-admitted model need max_price now p s = elim (confidential_or_not p.trust_level) [
    | inl e ↦ let (v, t) = s.attested e in rw e (ground (arith, v, t))
    | inr other ↦ ground (arith, other)
  ]

  -- A float that is not a NaN.
  abbrev pub IsNumber : fl.Float → Type 0
  IsNumber a = fl.le a a ≡ true

  -- What IEEE comparison guarantees where neither side is a NaN.
  abbrev pub IsTotal : Type 0
  IsTotal = (a b : fl.Float) → IsNumber a → IsNumber b → fl.lt b a ≡ false → fl.le a b ≡ true

  abbrev pub LimitIsNumber : Option fl.Float → Type 0
  LimitIsNumber none = Unit
  LimitIsNumber (some m) = IsNumber m

  Suits-servable :
      (model : String) (need : ConfidenceLevel) (max_price : Option fl.Float) (now : fl.Float)
      (p : ConnectedProvider fl)
      → IsTotal
      → LimitIsNumber max_price
      → IsNumber p.price_per_mtok_output
      → Suits fl model need max_price now p
      → servable model need max_price now p ≡ true
  Suits-servable model need none now p total limit price s = ground (
    arith,
    Suits-admitted model need none now p s,
    s.not_quarantined,
    s.model_served,
    s.trust_met,
  )
  Suits-servable model need (some m) now p total limit price s = ground (
    arith,
    Suits-admitted model need (some m) now p s,
    s.not_quarantined,
    s.model_served,
    s.trust_met,
    total p.price_per_mtok_output m price limit s.price_accepted,
  )

  -- Where `<` on floats is a strict order and total on those that are not a NaN, -1.0 < 0, neither
  -- the price limit nor any provider's price is a NaN, and provider ids are distinct, no provider
  -- is selected for a request that the explanation gives a reason to refuse.
  pub explain_at-select_at :
      (ord : IsOrdered fl) (model preference : String) (need : ConfidenceLevel)
      (max_price : Option fl.Float) (session : String) (reputation : Option (String → fl.Float))
      (now : fl.Float) (ps : Providers fl) (d : Affinity fl)
      → IsTotal
      → LimitIsNumber max_price
      → All (λ p. IsNumber p.price_per_mtok_output) ps
      → ProvidersDistinct fl ps
      → is_none (explain_at fl model need max_price now ps) ≡ false
      → (select_at fl model preference need max_price session reputation now ps d).0 ≡ none
  explain_at-select_at ord model preference need max_price session reputation now ps d total limit
        prices u h =
      elim (Option-cases
        (select_at fl model preference need max_price session reputation now ps d).0) [
          | inl e ↦ e
          | inr (p, e) ↦
              let (m, s) =
                select_at-Suits fl ord model preference need max_price session reputation now ps d p
                  u e in
              absurd cc (
                h,
                explain_at_lem model need max_price now ps,
                servable-In (servable model need max_price now) ps p m (
                    Suits-servable model need max_price now p total limit
                      (All-In (λ q. IsNumber q.price_per_mtok_output) ps p prices m) s),
              )
        ]
