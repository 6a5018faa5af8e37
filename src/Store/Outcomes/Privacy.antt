-- ===== src/Store/Outcomes/Privacy.antt =====
-- What the history of inference_exchange/coordinator/store.py shows to whom: the public rows and the
-- outcome that a consumer asks for.
use inference_exchange.Prelude.{
  ◌≡◌, ◌≢◌, String, Bool, true, false, ◌&&◌, none, some, List, [], ◌∷◌, ◌==◌, text_eq, is_none,
  first, arith, Option-cases, Bool-cases, In, All-In, All-of_In, ap, sym, ◌∙◌, inl, inr,
  String_discrete,
}
use inference_exchange.Store.Schema.{Time, RequestOutcome, Trace, Transaction, Db}
use inference_exchange.Store.Outcomes.{
  PublicRow, public_row, country_known, request_outcome, handed_out, is_foreign, prune_outcomes,
}
use inference_exchange.Store.Outcomes.Retention.{prune-All}

-- Whether a public row tells more than its minute and its status.
abbrev is_bare : PublicRow → Bool
is_bare r =
    is_none r.model
    && (is_none r.provider_country
        && (is_none r.caller_country
            && (is_none r.input_tokens
                && (is_none r.output_tokens && (is_none r.cost_micro && is_none r.latency_ms)))))

-- The public row of a request whose status is not completed shows no model, country, token count,
-- cost or latency.
public_row-is_bare :
    (geography : Bool) (transactions : List Transaction) (o : RequestOutcome)
    → o.status ≢ "completed"
    → is_bare (public_row geography transactions o) ≡ true
unfolding public_row
public_row-is_bare geography transactions o h = ground (arith, h)

-- A public row shows both countries or none; it shows them only where geography is enabled and the
-- request is completed, and both are in the table of countries.
public_row_countries :
    (geography : Bool) (transactions : List Transaction) (o : RequestOutcome)
    → let r = public_row geography transactions o in
      (is_none r.provider_country ≡ is_none r.caller_country)
      × (is_none r.caller_country ≡ false
          → (geography ≡ true)
            × (o.status ≡ "completed")
            × (country_known r.provider_country ≡ true)
            × (country_known r.caller_country ≡ true))
unfolding public_row
public_row_countries geography transactions o = ground arith

first_passes :
    (id : String) (rows : List RequestOutcome) (o : RequestOutcome)
    → first (λ r. r.request_id == id) rows ≡ some o
    → In o rows × (o.request_id ≡ id)
first_passes id [] o h = absurd cc
first_passes id (r ∷ rows) o h = elim (String_discrete r.request_id id) [
  | yes e ↦
      let k : some r ≡ some o = ground (arith, h, e) in
      let same : r ≡ o = cc k in
      (inl same, ap (λ (x : RequestOutcome). x.request_id) (sym same) ∙ e)
  | no ne ↦ let (m, e) = first_passes id rows o (ground (arith, h, ne)) in (inr m, e)
]

not_foreign :
    (consumer : String) (o : RequestOutcome)
    → is_foreign (some consumer) o ≡ false
    → o.consumer_id ≡ some consumer
not_foreign consumer o h = elim (Option-cases o.consumer_id) [
  | inl e ↦ absurd (cc (rw e at h))
  | inr (c, e) ↦ ground (arith, rw e at h, e)
]

-- An outcome that a consumer is shown under a request id is the payload, less its entry for the
-- consumer, of a stored row with that id, which belongs to that consumer.
pub request_outcome-owned :
    (id consumer : String) (now : Time) (db : Db) (trace : Trace)
    → (request_outcome id (some consumer) now db).0 ≡ some trace
    → (o : RequestOutcome) × In o db.request_outcomes
      × (o.request_id ≡ id)
      × (o.consumer_id ≡ some consumer)
      × (handed_out o.payload ≡ trace)
unfolding request_outcome prune_outcomes
request_outcome-owned id consumer now db trace h =
    let rows = (prune_outcomes now db).request_outcomes in
    elim (Option-cases (first (λ o. o.request_id == id) rows)) [
      | inl e ↦ absurd (let k : none ≡ some trace = rw (e, request_outcome) at h in cc)
      | inr (o, e) ↦
          let (m, same_id) = first_passes id rows o e in
          elim (Bool-cases (is_foreign (some consumer) o)) [
            | inl f ↦ absurd (let k : none ≡ some trace = rw (e, f, request_outcome) at h in cc)
            | inr own ↦
                let k : some (handed_out o.payload) ≡ some trace =
                  rw (e, own, request_outcome) at h in
                (
                  o,
                  All-In (λ r. In r db.request_outcomes) rows o
                      (prune-All (λ r. In r db.request_outcomes) now db.request_outcomes
                        (All-of_In _ db.request_outcomes (λ r n. n)))
                      m,
                  same_id,
                  not_foreign consumer o own,
                  cc k,
                )
          ]
    ]
