-- ===== src/Store/Billing.antt =====
-- Billing: `charge_request` and `billing_summary` of inference_exchange/coordinator/store.py. Prices
-- are floats, so the operations of floats are a parameter; token counts and amounts are Python's
-- integers.
pub mod Ledger
pub mod Effect
use inference_exchange.Prelude.{
  ℕ, suc, zero, ℤ, pos, negsuc, ◌+ℤ◌, ◌-ℤ◌, ◌*ℤ◌, max_ℤ, floor_div, ltb, String, Bool, true, false,
  Option, none, some, List, [], ◌∷◌, ◌==◌, if◌then◌else◌, Floats, update, select, count, sum, total,
  text_eq, length, max,
}
use inference_exchange.Store.Schema.{Time, Real, Account, Transaction, Db, micro_per_dollar}
use inference_exchange.Store.Accounts.{ensure_account}

abbrev pub platform_fee_percent : ℤ
platform_fee_percent = pos 10

abbrev pub min_charge_micro : ℤ
min_charge_micro = pos 100

-- The keyword arguments that are only written to the transaction row.
pub record Metadata : Type 0 where
  pub provider_name : String
  pub trust_level : String
  pub encrypted : Bool
  pub preference : String
  pub latency_ms : ℤ
  pub ttft_ms : ℤ
  pub tps : Real
  pub queued : Bool
  pub queue_wait_ms : ℤ
  pub connection_id : String
  pub requested_model : Option String
  pub served_model : Option String

-- What one request costs and how the amount is split.
pub record Costs : Type 0 where
  pub input_cost : ℤ
  pub cache_cost : ℤ
  pub output_cost : ℤ
  pub total_cost : ℤ
  pub platform_fee : ℤ
  pub provider_earning : ℤ

-- The split of an amount that is at least the minimum charge.
unfoldable pub split_costs : ℤ → ℤ → ℤ → Costs
split_costs input cache output =
    let total_cost = max_ℤ (input +ℤ cache +ℤ output) min_charge_micro in
    let fee = floor_div (total_cost *ℤ platform_fee_percent) 100 in
    record {
      input_cost = input;
      cache_cost = cache;
      output_cost = output;
      total_cost = total_cost;
      platform_fee = fee;
      provider_earning = total_cost -ℤ fee;
    }

-- AUTOINCREMENT: one more than the largest id.
abbrev max_id : List Transaction → ℕ
max_id [] = 0
max_id (t ∷ ts) = max t.id (max_id ts)

abbrev pub next_id : List Transaction → ℕ
next_id ts = suc (max_id ts)

abbrev pub debit : ℤ → ℤ → Account → Account
debit cost tokens a = record a {
  balance_micro = a.balance_micro -ℤ cost;
  total_spent_micro = a.total_spent_micro +ℤ cost;
  requests_made = suc a.requests_made;
  tokens_consumed = a.tokens_consumed +ℤ tokens;
}

abbrev pub credit : ℤ → Account → Account
credit earning a = record a {
  balance_micro = a.balance_micro +ℤ earning;
  total_earned_micro = a.total_earned_micro +ℤ earning;
}

abbrev pub update_account : String → (Account → Account) → Db → Db
update_account id f db = record db { accounts = update (λ a. a.account_id == id) f db.accounts }

abbrev or_else : Option String → String → String
or_else none d = d
or_else (some s) d = s

-- The arguments of a charge but for prices.
pub record Charge : Type 0 where
  pub request_id : String
  pub consumer_id : String
  pub provider_id : String
  pub model : String
  pub input_tokens : ℤ
  pub output_tokens : ℤ
  pub cached_tokens : ℤ
  pub metadata : Metadata

abbrev pub transaction_row : ℕ → Charge → Costs → Time → Transaction
transaction_row id c k now =
    let m = c.metadata in
    record {
      id = id;
      request_id = c.request_id;
      consumer_id = c.consumer_id;
      provider_id = c.provider_id;
      connection_id = m.connection_id;
      provider_name = m.provider_name;
      model = c.model;
      requested_model = some (or_else m.requested_model c.model);
      served_model = m.served_model;
      input_tokens = c.input_tokens;
      output_tokens = c.output_tokens;
      cached_tokens = c.cached_tokens;
      cost_micro = k.total_cost;
      cost_input_micro = k.input_cost;
      cost_output_micro = k.output_cost;
      cost_cache_micro = k.cache_cost;
      provider_earning_micro = k.provider_earning;
      platform_fee_micro = k.platform_fee;
      trust_level = m.trust_level;
      encrypted = m.encrypted;
      preference = m.preference;
      latency_ms = m.latency_ms;
      ttft_ms = m.ttft_ms;
      tps = m.tps;
      queued = m.queued;
      queue_wait_ms = m.queue_wait_ms;
      timestamp = now;
    }

-- The writes of `charge_request`, one transaction: debit, provider account, credit, log.
unfoldable pub post_charge : Charge → Costs → Time → Db → Db
unfolding ensure_account
post_charge c k now db =
    let debited =
      update_account c.consumer_id (debit k.total_cost (c.input_tokens +ℤ c.output_tokens)) db in
    let ensured = ensure_account c.provider_id c.provider_id now debited in
    let credited = update_account c.provider_id (credit k.provider_earning) ensured in
    record credited {
      transactions = transaction_row (next_id db.transactions) c k now ∷ credited.transactions;
    }

pub record Bill : Type 0 where
  pub request_id : String
  pub cost_micro : ℤ
  pub provider_earning_micro : ℤ
  pub platform_fee_micro : ℤ

module _ (fl : Floats) where
  open fl use {Float, of_int, mul, div, lt, trunc}

  -- `int((tokens / 1_000_000) * rate * MICRO_PER_DOLLAR)`
  abbrev pub token_cost : ℤ → Float → ℤ
  token_cost tokens rate = trunc (
      mul (mul (div (of_int tokens) (of_int (pos 1_000_000))) rate) (of_int (pos micro_per_dollar)))

  unfoldable pub request_costs : ℤ → ℤ → ℤ → Float → Float → Float → Costs
  request_costs input_tokens output_tokens cached_tokens price_input price_output price_cache =
      let cache_rate = if lt (of_int (pos 0)) price_cache then price_cache else price_input in
      let fresh_input = max_ℤ (pos 0) (input_tokens -ℤ cached_tokens) in
      split_costs (token_cost fresh_input price_input) (token_cost cached_tokens cache_rate)
        (token_cost output_tokens price_output)

  unfoldable pub charge_request : Charge → Float → Float → Float → Time → Db → Bill × Db
  unfolding post_charge
  charge_request c price_input price_output price_cache now db =
      let k =
        request_costs c.input_tokens c.output_tokens c.cached_tokens price_input price_output
          price_cache in
      (
        record {
          request_id = c.request_id;
          cost_micro = k.total_cost;
          provider_earning_micro = k.provider_earning;
          platform_fee_micro = k.platform_fee;
        },
        post_charge c k now db,
      )

pub record BillingSummary : Type 0 where
  pub total_requests : ℕ
  pub total_volume_micro : ℤ
  pub total_tokens : ℤ
  pub accounts : ℕ

-- `billing_summary`, with the volume before its division into dollars.
unfoldable pub billing_summary : Db → BillingSummary
billing_summary db = record {
  total_requests = length db.transactions;
  total_volume_micro = total (λ t. t.cost_micro) db.transactions;
  total_tokens = total (λ t. t.input_tokens +ℤ t.output_tokens) db.transactions;
  accounts = length db.accounts;
}
