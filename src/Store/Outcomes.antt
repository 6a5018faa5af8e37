-- ===== src/Store/Outcomes.antt =====
-- The operational history of requests in inference_exchange/coordinator/store.py: saving,
-- amending, interrupting, pruning and listing `request_outcomes`, and its public projection.
pub mod Lifecycle
pub mod Privacy
pub mod Retention
use Prim.Native.Nat.{Ordering}
use inference_exchange.Countries.{is_country}
use inference_exchange.Prelude.{
  text_lt, ℕ, suc, ℤ, pos, ◌+◌, ◌-◌, ◌*◌, ◌/◌, String, Bool, true, false, ◌&&◌, ◌||◌, not, Option,
  none, some, List, [], ◌∷◌, map, ◌==◌, if◌then◌else◌, is_none, any, first, select, update, delete,
  take, drop, text_eq, nat_eq, ltb, min, max, sort_by, elem,
}
use inference_exchange.Store.Schema.{Time, second, RequestOutcome, Trace, Transaction, Db}

abbrev pub retention : Time
retention = 7 * 86400 * second

abbrev pub max_rows : ℕ
max_rows = 10000

-- `ORDER BY timestamp DESC, request_id DESC`
abbrev pub newer : RequestOutcome → RequestOutcome → Bool
newer a b =
    ltb b.timestamp a.timestamp
    || ((a.timestamp == b.timestamp) && text_lt b.request_id a.request_id)

-- The ids past the newest `max_rows`: `ORDER BY … LIMIT -1 OFFSET ?`.
unfoldable pub overflow_ids : List RequestOutcome → List String
overflow_ids rows = map (λ o. o.request_id) (drop max_rows (sort_by newer rows))

unfoldable pub prune_rows : Time → List RequestOutcome → List RequestOutcome
unfolding overflow_ids
prune_rows now rows =
    let recent = delete (λ o. ltb o.timestamp (now - retention)) rows in
    delete (λ o. elem o.request_id (overflow_ids recent)) recent

unfoldable pub prune_outcomes : Time → Db → Db
unfolding prune_rows
prune_outcomes now db = record db { request_outcomes = prune_rows now db.request_outcomes }

unfoldable pub save_request_outcome : String → Trace → Option String → Time → Time → Db → Db
save_request_outcome id trace consumer timestamp now db = prune_outcomes now (
    if any (λ o. o.request_id == id) db.request_outcomes then db else record db {
      request_outcomes =
          record {
            request_id = id;
            consumer_id = consumer;
            timestamp = timestamp;
            status = trace.status;
            payload = trace;
            provider_country = none;
            caller_country = none;
          }
          ∷ db.request_outcomes;
    })

-- `status in ("matched", "matched_from_queue")`: the request is in flight.
abbrev pub is_in_flight : RequestOutcome → Bool
is_in_flight o = (o.status == "matched") || (o.status == "matched_from_queue")

-- `consumer_id is not None and row["consumer_id"] != consumer_id`
abbrev pub is_foreign : Option String → RequestOutcome → Bool
is_foreign none o = false
is_foreign (some c) o = elim o.consumer_id [ none ↦ true | some d ↦ not (d == c) ]

abbrev pub country_known : Option String → Bool
country_known none = false
country_known (some c) = is_country c

abbrev or_keep {ℓ} : {A : Type ℓ} → Option A → Option A → Option A
or_keep none old = old
or_keep (some a) old = some a

pub record Amendment : Type 0 where
  pub status : String
  pub served_model : Option String
  pub latency_ms : Option ℤ
  pub provider_country : Option String
  pub caller_country : Option String

abbrev pub amend_row : Amendment → RequestOutcome → RequestOutcome
amend_row a o =
    let located = country_known a.provider_country && country_known a.caller_country in
    record o {
      status = a.status;
      payload = record o.payload {
        status = a.status;
        served_model = or_keep a.served_model o.payload.served_model;
        latency_ms = or_keep a.latency_ms o.payload.latency_ms;
      };
      provider_country = if located then a.provider_country else none;
      caller_country = if located then a.caller_country else none;
    }

unfoldable pub amend_request_outcome : String → Option String → Amendment → Time → Db → Db
unfolding prune_outcomes
amend_request_outcome id consumer a now db =
    elim (first (λ o. o.request_id == id) db.request_outcomes) [
      | none ↦ db
      | some row ↦
          if is_foreign consumer row || not (is_in_flight row)
          then db
          else prune_outcomes now (record db {
            request_outcomes =
                update (λ o. o.request_id == id)
                  (λ o. record o {
                    status = (amend_row a row).status;
                    payload = (amend_row a row).payload;
                    provider_country = (amend_row a row).provider_country;
                    caller_country = (amend_row a row).caller_country;
                  })
                  db.request_outcomes;
          })
    ]

abbrev pub interrupted : RequestOutcome → RequestOutcome
interrupted o = record o {
  status = "interrupted";
  payload = record o.payload {
    status = "interrupted";
    reason = some "Coordinator restarted before completion was confirmed.";
  };
}

unfoldable pub interrupt_request_outcomes : Time → Db → Db
unfolding prune_outcomes
interrupt_request_outcomes now db =
    prune_outcomes now
      (record db { request_outcomes = update is_in_flight interrupted db.request_outcomes })

-- `min(max(limit, 1), 100)`
abbrev clamp_limit : ℕ → ℕ
clamp_limit n = min (max n 1) 100

abbrev owned : Option String → RequestOutcome → Bool
owned none o = true
owned (some c) o = elim o.consumer_id [ none ↦ false | some d ↦ d == c ]

-- The rows that `request_outcomes` answers from, each by its country columns where only completions are
-- asked for, else by its trace as `handed_out`.
unfoldable pub request_outcomes : Option String → ℕ → Bool → Time → Db → List RequestOutcome × Db
request_outcomes consumer limit completed now db =
    let db' = prune_outcomes now db in
    (
      take (clamp_limit limit) (
          sort_by newer (
            select (λ o. owned consumer o && (not completed || (o.status == "completed")))
              db'.request_outcomes)),
      db',
    )

-- The trace without its entry `_consumer_id`.
abbrev pub handed_out : Trace → Trace
handed_out t = record t { private_consumer = none }

unfoldable pub request_outcome : String → Option String → Time → Db → Option Trace × Db
request_outcome id consumer now db =
    let db' = prune_outcomes now db in
    (
      elim (first (λ o. o.request_id == id) db'.request_outcomes) [
        | none ↦ none
        | some row ↦ if is_foreign consumer row then none else some (handed_out row.payload)
      ],
      db',
    )

-- One entry of the public feed.
pub record PublicRow : Type 0 where
  pub timestamp_minute : ℕ
  pub status : String
  pub model : Option String
  pub provider_country : Option String
  pub caller_country : Option String
  pub input_tokens : Option ℤ
  pub output_tokens : Option ℤ
  pub cost_micro : Option ℤ
  pub latency_ms : Option ℤ

public_statuses : List String
public_statuses =
    "completed" ∷ "matched" ∷ "matched_from_queue" ∷ "interrupted" ∷ "failed"
    ∷ "no_compatible_provider" ∷ "no_provider_available" ∷ "model_not_available" ∷ "queue_full"
    ∷ "queue_timeout" ∷ "no_provider" ∷ []

-- The newest transaction of the request: `ORDER BY id DESC LIMIT 1`.
latest : List Transaction → Option Transaction
latest [] = none
latest (t ∷ ts) = elim (latest ts) [
  | none ↦ some t
  | some s ↦ if ltb t.id s.id then some s else some t
]

abbrev column {ℓ} : {A : Type ℓ} → Bool → (Transaction → Option A) → Option Transaction → Option A
column settled f none = none
column settled f (some t) = if settled then f t else none

unfoldable pub public_row : Bool → List Transaction → RequestOutcome → PublicRow
unfolding public_statuses latest
public_row geography transactions o =
    let settled = o.status == "completed" in
    let source =
      if geography && settled && country_known o.provider_country
      then o.provider_country
      else none in
    let target =
      if not (is_none source) && country_known o.caller_country then o.caller_country else none in
    let t = latest (select (λ t. t.request_id == o.request_id) transactions) in
    record {
      timestamp_minute = o.timestamp / second / 60 * 60;
      status = if elem o.status public_statuses then o.status else "other";
      model = column settled (λ t. t.served_model) t;
      provider_country = if is_none target then none else source;
      caller_country = target;
      input_tokens = column settled (λ t. some t.input_tokens) t;
      output_tokens = column settled (λ t. some t.output_tokens) t;
      cost_micro = column settled (λ t. some t.cost_micro) t;
      latency_ms = column settled (λ t. some t.latency_ms) t;
    }

-- The `requests` and `completions` windows of `public_network_activity`.
unfoldable pub public_window : Bool → Bool → Db → List PublicRow
public_window geography completed db = map (public_row geography db.transactions) (
    take 30 (
      sort_by newer (select (λ o. not completed || (o.status == "completed")) db.request_outcomes)))
