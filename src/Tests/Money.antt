-- ===== src/Tests/Money.antt =====
-- A store with a consumer and a provider, and a request that one is charged for.
use inference_exchange.Prelude.{
  ◌+ℤ◌, ◌*ℤ◌, ◌≤ℤ◌, ◌≡◌, ◌≢◌, pos, refl, String, [], ◌∷◌, String_discrete, none, some, false,
  if◌then◌else◌, arith, text_ne,
}
use inference_exchange.Store.Schema.{Account, Transaction, Db, starting_balance}
use inference_exchange.Store.Accounts.{get_account, has_account, new_account}
use inference_exchange.Store.Billing.{Charge, charge_request, post_charge, split_costs}
use inference_exchange.Store.Billing.Ledger.{AccountsDistinct, balances, earned_column, earned_log}
use inference_exchange.Store.Billing.Effect.{
  Debits, Credits, post_charge_lem, charge_request_lem, charge_request-balances,
  charge_request-earned,
}
use inference_exchange.Tests.{thousandths}

abbrev account : String → Account
account id = new_account id id 0

abbrev pub db : Db
db = record {
  accounts = account "alice" ∷ account "bob" ∷ [];
  api_keys = [];
  transactions = [];
  request_outcomes = [];
  provider_history = [];
  provider_tokens = [];
  users = [];
  provider_nodes = [];
  ownership_actions = [];
  reference_prices = [];
  account_actions = [];
}

abbrev charge : Charge
charge = record {
  request_id = "r1";
  consumer_id = "alice";
  provider_id = "bob";
  model = "llama";
  input_tokens = pos 4000;
  output_tokens = pos 2000;
  cached_tokens = pos 1000;
  metadata = record {
    provider_name = "Bob";
    trust_level = "hardened";
    encrypted = false;
    preference = "cheapest";
    latency_ms = pos 900;
    ttft_ms = pos 100;
    tps = (pos 40, 0);
    queued = false;
    queue_wait_ms = pos 0;
    connection_id = "c1";
    requested_model = none;
    served_model = some "llama";
  };
}

alice_not_bob : ◌≢◌ {A = String} "alice" "bob"
unfolding String_discrete
alice_not_bob = text_ne "alice" "bob" refl

db-AccountsDistinct : AccountsDistinct db
db-AccountsDistinct id = ground (arith, alice_not_bob)

charge_request-balances_example :
    let (bill, db') = charge_request thousandths charge (pos 300) (pos 600) (pos 0) 7 db in
    balances db' +ℤ (if has_account "alice" db then bill.cost_micro else pos 0)
    ≡ balances db
      +ℤ (if has_account "bob" db then pos 0 else starting_balance)
      +ℤ bill.provider_earning_micro
charge_request-balances_example =
    charge_request-balances thousandths charge (pos 300) (pos 600) (pos 0) 7 db db-AccountsDistinct

charge_request_lem_example :
    let (bill, db') = charge_request thousandths charge (pos 300) (pos 600) (pos 0) 7 db in
    (bill.platform_fee_micro +ℤ bill.provider_earning_micro ≡ bill.cost_micro)
    × (pos 100 ≤ℤ bill.cost_micro)
    × (bill.cost_micro *ℤ pos 9 ≤ℤ bill.provider_earning_micro *ℤ pos 10)
    × ((t : Transaction) × (db'.transactions ≡ t ∷ [])
        × (t.cost_micro ≡ bill.cost_micro)
        × (t.provider_earning_micro ≡ bill.provider_earning_micro)
        × (t.platform_fee_micro ≡ bill.platform_fee_micro)
        × (t.request_id ≡ "r1")
        × (t.consumer_id ≡ "alice")
        × (t.provider_id ≡ "bob"))
charge_request_lem_example = charge_request_lem thousandths charge (pos 300) (pos 600) (pos 0) 7 db

charge_request-earned_example :
    let db' = (charge_request thousandths charge (pos 300) (pos 600) (pos 0) 7 db).1 in
    earned_column "bob" db' ≡ earned_log "bob" db'
unfolding String_discrete ◌+ℤ◌
charge_request-earned_example =
    charge_request-earned thousandths charge (pos 300) (pos 600) (pos 0) 7 db "bob"
      db-AccountsDistinct refl

post_charge_lem_example :
    let k = split_costs (pos 1200) (pos 100) (pos 2000) in
    let db' = post_charge charge k 7 db in
    Debits (account "alice") k.total_cost (pos 4000 +ℤ pos 2000) (get_account "alice" db')
    × Credits (account "bob") k.provider_earning (get_account "bob" db')
    × ((j : String) → j ≢ "alice" → j ≢ "bob" → get_account j db' ≡ get_account j db)
unfolding get_account String_discrete
post_charge_lem_example =
    post_charge_lem charge (split_costs (pos 1200) (pos 100) (pos 2000)) 7 db (account "alice")
      (account "bob") alice_not_bob refl refl
