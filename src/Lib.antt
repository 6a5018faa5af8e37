-- ===== src/Lib.antt =====
-- The coordinator of inference-exchange: who may be matched with whom, what a request costs and who
-- is paid, and who holds which credential.
--
-- The parts and how they interact. A request comes in with an API key; the store resolves it to a
-- consumer (Store/Accounts: `validate_key`, `resolve_consumer`), the matching engine chooses a
-- provider (Matching: `compute_score`, `GreedyStrategy.match`), the store keeps its outcome
-- (Store/Outcomes) and charges it when it is done (Store/Billing: `charge_request`). Providers
-- connect with tokens that the store issues, claims, admits and revokes (Store/Providers,
-- Store/Credentials), on behalf of users (Store/Users). The code is in
-- inference_exchange/coordinator/.
--
-- Files. Prelude and its children: Boolean tests, lists, signed integers, sums of columns, a stable
-- sort, and the records of parameters `Floats` and `Host`. Countries and its children:
-- country_activity.py, its counters, their limits and the published snapshot. Handshake:
-- inference_exchange/shared/handshake.py. Store/Schema: the tables of store.py, a table being the
-- list of its rows. Store/Monad: a method under `serialized_write` or `_ownership_write` as a
-- function from the database to a result, rolled back when it raises. Store/Accounts, Billing,
-- Outcomes, Providers, Credentials, Users: the methods, under the names of the code. Matching:
-- matching/models.py and the greedy strategy of matching/strategy.py; Matching/Batch: the batch
-- auction of the same file; with `consider` and `settle` for the two halves of the loop's body, and
-- `serve` for the body. Their children hold proofs. Tests: concrete inputs.
--
-- Hub: provider_hub.py. `select_provider` is `select_at` once the level is parsed; it makes offers
-- of the routable providers and calls the greedy strategy on one order. `explain_no_match` is
-- `explain_at`, with the reason and without the text of its message. Hub/Pending: the queue,
-- `enqueue_request` and `_try_dispatch_queued`. Hub/Requests: requests in flight, their queues and
-- billing callbacks. Hub/Attestation: what a provider's report does to its standing. Controls:
-- operator_controls.py, the slots of an account. Limiter: rate_limiter.py. SignIn: `resolve_caller`
-- of routes_auth.py. Inference: the request of routes_inference.py and its checks;
-- Inference/Endpoint: `chat_completions` under `run_guarded`, cut at its waits: `chat_completions`
-- up to the first one, `resume_guarded` after the wait in the queue, `finish` when the response is
-- over. It composes SignIn, Limiter, Controls, Hub and the store's accounts; Inference/Gates and
-- Inference/Slots hold its proofs. Inference/Responses: `_stream_response` and `_collect_response`
-- as functions of what arrives on the response queue; a list of arrivals that ends early is a loop
-- that still waits. Reputation: reputation.py, a provider's scores, over any floats;
-- Reputation/Bounds holds its proofs. Throughput: tps_tracker.py, with the hardware table in
-- Throughput/Table; Throughput/Range holds its proofs. Events: event_bus.py; Events/History holds
-- its proofs. Audit: audit_log.py, the file as the list of its lines; Audit/Chain holds its proofs.
-- Attribution: model_attribution.py.
--
-- Conventions. A timestamp is a number of microseconds, and the clock and random names are
-- arguments. Amounts and token counts are unbounded signed integers, as in Python. Floats are a
-- parameter with their operations; theorems about scores assume that `<` is a strict order, as IEEE
-- comparison is. Every loop is structural recursion over a list, so there is no fuel.
--
-- Not modelled: of a chat completion, the billing callback, encryption and event publication; the
-- SQLite connection and its migrations (each method is one atomic step, as the lock makes it), list
-- views and reports, the other HTTP routes, the WebSocket protocol, cryptography, the provider
-- agent, the SDKs and the web front end.
pub mod Attribution
pub mod Audit
pub mod Controls
pub mod Countries
pub mod Events
pub mod Handshake
pub mod Hub
pub mod Inference
pub mod Limiter
pub mod Matching
pub mod Prelude
pub mod Reputation
pub mod SignIn
pub mod Store
pub mod Tests
pub mod Throughput
