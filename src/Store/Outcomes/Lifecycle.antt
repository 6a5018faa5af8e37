-- ===== src/Store/Outcomes/Lifecycle.antt =====
-- Proofs about the life of a request outcome in inference_exchange/coordinator/store.py.
use inference_exchange.Prelude.{
  ◌≤◌, ◌≡◌, refl, String, true, false, ◌||◌, not, ◌&&◌, Option, none, some, if◌then◌else◌, subst,
  List, [], ◌∷◌, ◌==◌, first, update, count, text_eq, In, All, All-of_In, All-update, ◌⊎◌, inl, inr,
  arith, Bool-cases, ap, ◌∙◌, ℤ, Option-cases, String_discrete,
}
use inference_exchange.Store.Schema.{Time, RequestOutcome, Db}
use inference_exchange.Store.Outcomes.{
  prune_outcomes, is_in_flight, is_foreign, country_known, Amendment, amend_row,
  amend_request_outcome,
}
use inference_exchange.Store.Outcomes.Retention.{prune-All}

-- That a consumer, or the coordinator where none is given, may amend this outcome: it has the id, is
-- the consumer's, and is in flight.
pub record MayAmend (id : String) (consumer : Option String) (o : RequestOutcome) : Type 0 where
  pub same_request : o.request_id ≡ id
  pub owned : (consumer ≡ none) ⊎ (o.consumer_id ≡ consumer)
  pub in_flight : (o.status ≡ "matched") ⊎ (o.status ≡ "matched_from_queue")

-- What an amendment writes: the status to the row and its trace; the served model and the latency
-- where they are given; both countries where both are known, else none. All else is kept.
pub record IsAmended (a : Amendment) (o o' : RequestOutcome) : Type 0 where
  pub status_written : o'.status ≡ a.status
  pub trace_written : o'.payload ≡ record o.payload {
    status = a.status;
    served_model = elim a.served_model [ none ↦ o.payload.served_model | some m ↦ some m ];
    latency_ms = elim a.latency_ms [ none ↦ o.payload.latency_ms | some l ↦ some l ];
  }
  pub provider_written : o'.provider_country ≡ (
      if country_known a.provider_country && country_known a.caller_country
      then a.provider_country
      else none)
  pub caller_written : o'.caller_country ≡ (
      if country_known a.provider_country && country_known a.caller_country
      then a.caller_country
      else none)
  pub id_kept : o'.request_id ≡ o.request_id
  pub consumer_kept : o'.consumer_id ≡ o.consumer_id
  pub time_kept : o'.timestamp ≡ o.timestamp

-- A row after an amendment: one that may not be amended, unchanged, or one that may, amended.
abbrev pub ComesFrom :
    String → Option String → Amendment → List RequestOutcome → RequestOutcome → Type 0
ComesFrom id consumer a old o' =
    (In o' old × (MayAmend id consumer o' → ⊥))
    ⊎ ((o : RequestOutcome) × In o old × MayAmend id consumer o × IsAmended a o o')

abbrev pub Follows :
    String → Option String → Amendment → List RequestOutcome → List RequestOutcome → Type 0
Follows id consumer a old new = All (ComesFrom id consumer a old) new

-- `request_id` is the primary key.
abbrev pub OutcomesDistinct : List RequestOutcome → Type 0
OutcomesDistinct rows = (id : String) → count (λ o. o.request_id == id) rows ≤ 1

first-absent :
    (id : String) (rows : List RequestOutcome) (o : RequestOutcome)
    → count (λ r. r.request_id == id) rows ≡ 0
    → In o rows
    → (o.request_id == id) ≡ false
first-absent id [] o h m = absurd m
first-absent id (x ∷ rows) o h (inl e) = ground (arith, e, h)
first-absent id (x ∷ rows) o h (inr m) = first-absent id rows o (ground (arith, h)) m

-- Under the key the row found is the only one with its id.
first_unique :
    (id : String) (rows : List RequestOutcome) (row o : RequestOutcome)
    → count (λ r. r.request_id == id) rows ≤ 1
    → first (λ r. r.request_id == id) rows ≡ some row
    → In o rows
    → (o.request_id == id) ≡ true
    → o ≡ row
first_unique id [] row o u f m e = absurd m
first_unique id (x ∷ rows) row o u f (inl s) e = ground (arith, s, f, e)
first_unique id (x ∷ rows) row o u f (inr m) e =
    ground (arith, u, f, e, first_unique id rows row o, first-absent id rows o, m)

first-In :
    (id : String) (rows : List RequestOutcome) (row : RequestOutcome)
    → first (λ r. r.request_id == id) rows ≡ some row
    → In row rows
first-In id [] row f = cc
first-In id (x ∷ rows) row f = elim (String_discrete x.request_id id) [
  | yes p ↦ inl (ground (arith, p, f))
  | no p ↦ inr (first-In id rows row (ground (arith, p, f)))
]

first-none :
    (id : String) (rows : List RequestOutcome) (o : RequestOutcome)
    → first (λ r. r.request_id == id) rows ≡ none
    → In o rows
    → (o.request_id == id) ≡ false
first-none id [] o f m = absurd m
first-none id (x ∷ rows) o f (inl e) = ground (arith, e, f)
first-none id (x ∷ rows) o f (inr m) = first-none id rows o (ground (arith, f)) m

in_flight-cases :
    (o : RequestOutcome)
    → is_in_flight o ≡ true
    → (o.status ≡ "matched") ⊎ (o.status ≡ "matched_from_queue")
in_flight-cases o h = elim (String_discrete o.status "matched") [
  | yes p ↦ inl p
  | no n ↦ inr (ground (arith, n, h))
]

in_flight-true :
    (o : RequestOutcome)
    → (o.status ≡ "matched") ⊎ (o.status ≡ "matched_from_queue")
    → is_in_flight o ≡ true
in_flight-true o (inl p) = ground (arith, p)
in_flight-true o (inr p) = ground (arith, p)

is_foreign-false :
    (c : String) (o : RequestOutcome) → is_foreign (some c) o ≡ false → o.consumer_id ≡ some c
is_foreign-false c o h = elim (Option-cases o.consumer_id) [
  | inl e ↦ absurd (let k : true ≡ false = rw e at h in cc k)
  | inr (d, e) ↦ let k : not (d == c) ≡ false = rw e at h in e ∙ ap some (ground (arith, k))
]

-- The guards of the code against the conditions.
guards-MayAmend :
    (id : String) (consumer : Option String) (o : RequestOutcome)
    → (o.request_id == id) ≡ true
    → (is_foreign consumer o || not (is_in_flight o)) ≡ false
    → MayAmend id consumer o
guards-MayAmend id none o e go = record {
  same_request = ground (arith, e);
  owned = inl refl;
  in_flight = in_flight-cases o (ground (arith, go));
}
guards-MayAmend id (some c) o e go = record {
  same_request = ground (arith, e);
  owned = inr (is_foreign-false c o (ground (arith, go)));
  in_flight = in_flight-cases o (ground (arith, go));
}

MayAmend-guards :
    (id : String) (consumer : Option String) (o : RequestOutcome)
    → MayAmend id consumer o
    → (is_foreign consumer o || not (is_in_flight o)) ≡ false
MayAmend-guards id none o h = ground (arith, in_flight-true o h.in_flight)
MayAmend-guards id (some c) o h = elim h.owned [
  | inl e ↦ absurd (cc e)
  | inr e ↦
      let k : is_foreign (some c) o ≡ false = rw e ground arith in
      ground (arith, k, in_flight-true o h.in_flight)
]

MayAmend-id :
    (id : String) (consumer : Option String) (o : RequestOutcome)
    → (o.request_id == id) ≡ false
    → MayAmend id consumer o
    → ⊥
MayAmend-id id consumer o e h = absurd (ground (arith, e, h.same_request))

amend_row-trace :
    (status : String) (model : Option String) (latency : Option ℤ) (p c : Option String)
    (o : RequestOutcome)
    → (amend_row
        (record {
          status = status;
          served_model = model;
          latency_ms = latency;
          provider_country = p;
          caller_country = c;
        })
        o).payload
      ≡ record o.payload {
        status = status;
        served_model = elim model [ none ↦ o.payload.served_model | some m ↦ some m ];
        latency_ms = elim latency [ none ↦ o.payload.latency_ms | some l ↦ some l ];
      }
amend_row-trace s none none p c o = refl
amend_row-trace s none (some l) p c o = refl
amend_row-trace s (some m) none p c o = refl
amend_row-trace s (some m) (some l) p c o = refl

amend_row-IsAmended : (a : Amendment) (o : RequestOutcome) → IsAmended a o (amend_row a o)
amend_row-IsAmended a o = record {
  status_written = refl;
  trace_written =
      amend_row-trace a.status a.served_model a.latency_ms a.provider_country a.caller_country o;
  provider_written = refl;
  caller_written = refl;
  id_kept = refl;
  consumer_kept = refl;
  time_kept = refl;
}

-- Amending writes only the in-flight row of that id.
amended-Follows :
    (id : String) (consumer : Option String) (a : Amendment) (rows : List RequestOutcome)
    (row : RequestOutcome)
    → OutcomesDistinct rows
    → first (λ o. o.request_id == id) rows ≡ some row
    → (is_foreign consumer row || not (is_in_flight row)) ≡ false
    → Follows id consumer a rows (
        update
          (λ o. o.request_id == id)
          (λ o. record o {
            status = (amend_row a row).status;
            payload = (amend_row a row).payload;
            provider_country = (amend_row a row).provider_country;
            caller_country = (amend_row a row).caller_country;
          })
          rows)
amended-Follows id consumer a rows row u f go =
    All-update (λ o. In o rows) (ComesFrom id consumer a rows) _ _ rows
      (All-of_In _ rows (λ o m. m))
      (λ o m e.
        let same = first_unique id rows row o (u id) f m e in
        inr (
          row,
          first-In id rows row f,
          guards-MayAmend id consumer row (subst (λ r. (r.request_id == id) ≡ true) same e) go,
          rw same (amend_row-IsAmended a row),
        ))
      (λ o m e. inl (m, MayAmend-id id consumer o e))

-- A row that is the only one with its id and may not be amended.
refused-Follows :
    (id : String) (consumer : Option String) (a : Amendment) (rows : List RequestOutcome)
    (row : RequestOutcome)
    → OutcomesDistinct rows
    → first (λ o. o.request_id == id) rows ≡ some row
    → (is_foreign consumer row || not (is_in_flight row)) ≡ true
    → Follows id consumer a rows rows
refused-Follows id consumer a rows row u f stop = All-of_In _ rows (λ o m. inl (
  m,
  λ h.
      let same = first_unique id rows row o (u id) f m (ground (arith, h.same_request)) in
      absurd (
        ground
          (arith, stop, MayAmend-guards id consumer row (subst (MayAmend id consumer) same h))),
))

-- Where request ids are distinct, after an amendment each row of the outcome history is either a
-- row of the old history that may not be amended, unchanged, or comes from one that may be. A row
-- may be amended if it has the request's id, its status is matched or matched_from_queue, and it
-- is the consumer's or no consumer is given. It then has the given status, in its trace too; the
-- served model and the latency that are given, else its own; both given countries if both are
-- known, else none; and its own id, consumer, time and other entries of its trace.
pub amend-Follows :
    (id : String) (consumer : Option String) (a : Amendment) (now : Time) (db : Db)
    → OutcomesDistinct db.request_outcomes
    → Follows id consumer a db.request_outcomes
        (amend_request_outcome id consumer a now db).request_outcomes
unfolding amend_request_outcome prune_outcomes
amend-Follows id consumer a now db u =
    let rows = db.request_outcomes in
    elim (Option-cases (first (λ o. o.request_id == id) rows)) [
      | inl e ↦
          rw (e, amend_request_outcome)
            (All-of_In _ rows
              (λ o m. inl (m, MayAmend-id id consumer o (first-none id rows o e m))))
      | inr (row, e) ↦ elim (Bool-cases (is_foreign consumer row || not (is_in_flight row))) [
        | inl stop ↦
            rw (e, amend_request_outcome, stop) (refused-Follows id consumer a rows row u e stop)
        | inr go ↦
            rw (e, amend_request_outcome, go)
              (prune-All (ComesFrom id consumer a rows) now _
                (amended-Follows id consumer a rows row u e go))
      ]
    ]
