-- ===== src/Store/Schema.antt =====
-- The tables of inference_exchange/coordinator/store.py (`SCHEMA` with its migrations). A table is
-- the list of its rows, newest first; the code reads no order that it does not ask for by
-- ORDER BY. A timestamp is a number of microseconds.
use inference_exchange.Prelude.{ℕ, ℤ, pos, String, Bool, Option, List, Eq, ◌*◌}

-- A REAL that the store keeps and hands back and never computes with: a float is m / 2^k.
abbrev pub Real : Type 0
Real = ℤ × ℕ

abbrev pub Time : Type 0
Time = ℕ

abbrev pub second : ℕ
second = 1_000_000

pub record Account : Type 0 where
  pub account_id : String
  pub name : String
  pub balance_micro : ℤ
  pub total_spent_micro : ℤ
  pub total_earned_micro : ℤ
  pub requests_made : ℕ
  pub tokens_consumed : ℤ
  pub created_at : Time

pub record ApiKey : Type 0 where
  pub key_hash : String
  pub key_id : String
  pub consumer_id : String
  pub name : String
  pub created_at : Time
  pub last_used_at : Option Time
  pub requests_made : ℕ
  pub revoked_at : Option Time

pub record Transaction : Type 0 where
  pub id : ℕ
  pub request_id : String
  pub consumer_id : String
  pub provider_id : String
  pub connection_id : String
  pub provider_name : String
  pub model : String
  pub requested_model : Option String
  pub served_model : Option String
  pub input_tokens : ℤ
  pub output_tokens : ℤ
  pub cached_tokens : ℤ
  pub cost_micro : ℤ
  pub cost_input_micro : ℤ
  pub cost_output_micro : ℤ
  pub cost_cache_micro : ℤ
  pub provider_earning_micro : ℤ
  pub platform_fee_micro : ℤ
  pub trust_level : String
  pub encrypted : Bool
  pub preference : String
  pub latency_ms : ℤ
  pub ttft_ms : ℤ
  pub tps : Real
  pub queued : Bool
  pub queue_wait_ms : ℤ
  pub timestamp : Time

-- The trace of a request as the JSON payload of an outcome keeps it. `other` holds the entries
-- that no operation of the store reads or writes.
pub record Trace : Type 0 where
  pub status : String
  pub reason : Option String
  pub served_model : Option String
  pub latency_ms : Option ℤ
  -- the entry `_consumer_id`, which is never handed out
  pub private_consumer : Option String
  pub other : String

pub record RequestOutcome : Type 0 where
  pub request_id : String
  pub consumer_id : Option String
  pub timestamp : Time
  pub status : String
  pub payload : Trace
  pub provider_country : Option String
  pub caller_country : Option String

pub record ProviderHistory : Type 0 where
  pub provider_id : String
  pub provider_account_id : Option String
  pub session_id : Option String
  pub provider_name : String
  pub hardware : String
  pub trust_level : String
  pub price_output : Real
  pub measured_tps : Real
  pub connected_at : Time
  pub disconnected_at : Option Time

-- `issuance_source`: the two values that the code writes.
pub data Issuance : Type 0 where
  admin self_service : Issuance

unfoldable pub Issuance-discrete : Discrete Issuance
Issuance-discrete = hlevel

instance abbrev pub issuance_eq : Eq Issuance
issuance_eq = record { decide = Issuance-discrete }

pub record ProviderToken : Type 0 where
  pub token_hash : String
  pub token_id : String
  pub name : String
  pub billing_account_id : String
  pub node_id : Option String
  pub issuance_source : Issuance
  pub created_at : Time
  pub last_used_at : Option Time
  pub connections : ℕ
  pub revoked_at : Option Time

pub record User : Type 0 where
  pub user_id : String
  pub email : String
  pub password_hash : String
  pub name : String
  pub role : String
  pub created_at : Time
  pub last_login_at : Option Time
  pub github_id : Option String
  pub session_version : ℕ
  pub suspended_until : Option Time
  pub suspension_reason : String
  pub signup_country : Option String

pub record ProviderNode : Type 0 where
  pub node_id : String
  pub owner_user_id : String
  pub billing_account_id : String
  pub name : String
  pub created_at : Time
  pub declared_profile : String

-- A row of `provider_ownership_actions`.
pub record OwnershipAction : Type 0 where
  pub node_id : String
  pub billing_account_id : String
  pub owner_user_id : String
  pub actor_user_id : String
  pub action : String
  pub reason : String
  pub timestamp : Time

pub record ReferencePrice : Type 0 where
  pub source : String
  pub model_id : String
  pub display_name : String
  pub family : String
  pub family_key : String
  pub input_per_mtok : Real
  pub output_per_mtok : Real
  pub cache_per_mtok : Real
  pub context_length : ℤ
  pub fetched_at : Time

pub record AccountAction : Type 0 where
  pub user_id : String
  pub action : String
  pub reason : String
  pub suspended_until : Option Time
  pub actor : String
  pub timestamp : Time

pub record Db : Type 0 where
  pub accounts : List Account
  pub api_keys : List ApiKey
  pub transactions : List Transaction
  pub request_outcomes : List RequestOutcome
  pub provider_history : List ProviderHistory
  pub provider_tokens : List ProviderToken
  pub users : List User
  pub provider_nodes : List ProviderNode
  pub ownership_actions : List OwnershipAction
  pub reference_prices : List ReferencePrice
  pub account_actions : List AccountAction

-- Ten dollars of simulated credit: `10 * MICRO_PER_DOLLAR`.
abbrev pub starting_balance : ℤ
starting_balance = pos (10 * 1_000_000)

abbrev pub micro_per_dollar : ℕ
micro_per_dollar = 1_000_000
