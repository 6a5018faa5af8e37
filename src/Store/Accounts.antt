-- ===== src/Store/Accounts.antt =====
-- Accounts and API keys of inference_exchange/coordinator/store.py. The random parts of a new name
-- are arguments.
use text.Mathlib.Text.{starts_with}
use inference_exchange.Prelude.{
  Host, suc, pos, String, Bool, ◌&&◌, Option, none, some, List, ◌∷◌, ◌==◌, if◌then◌else◌, is_none,
  any, first, select, update, text_eq,
}
use inference_exchange.Store.Schema.{Time, Account, ApiKey, Db, starting_balance}
use inference_exchange.Store.Monad.{integrity, Write, ◌>>◌, done, ok, raised}

-- A row with the column defaults and the free starting credit.
abbrev pub new_account : String → String → Time → Account
new_account id name now = record {
  account_id = id;
  name = name;
  balance_micro = starting_balance;
  total_spent_micro = pos 0;
  total_earned_micro = pos 0;
  requests_made = 0;
  tokens_consumed = pos 0;
  created_at = now;
}

abbrev pub has_account : String → Db → Bool
has_account id db = any (λ a. a.account_id == id) db.accounts

-- `INSERT INTO accounts`: `account_id` is the primary key.
unfoldable pub insert_account : Account → Write (Unit {0})
insert_account a db =
    if has_account a.account_id db
    then raised integrity
    else ok (tt, record db { accounts = a ∷ db.accounts })

-- `INSERT OR IGNORE INTO accounts`
unfoldable pub ensure_account : String → String → Time → Db → Db
ensure_account id name now db = record db {
  accounts = if has_account id db then db.accounts else new_account id name now ∷ db.accounts;
}

-- `INSERT INTO api_keys`: `key_hash` is the primary key and `consumer_id` refers to an account.
unfoldable pub insert_api_key : ApiKey → Write (Unit {0})
insert_api_key k db =
    if any (λ j. j.key_hash == k.key_hash) db.api_keys
    then raised integrity
    else if has_account k.consumer_id db
    then ok (tt, record db { api_keys = k ∷ db.api_keys })
    else raised integrity

unfoldable pub get_account : String → Db → Option Account
get_account id db = first (λ a. a.account_id == id) db.accounts

unfoldable pub get_or_create_account : String → String → Time → Db → Option Account × Db
unfolding ensure_account get_account
get_or_create_account id name now db =
    let db' = ensure_account id name now db in (get_account id db', db')

abbrev pub key_prefix : String
key_prefix = "sk-ie-"

abbrev pub default_consumer_id : String
default_consumer_id = "default-consumer"

module _ (host : Host) where
  open host use {lower, slice_to, slice_from, sha256}

  abbrev pub new_api_key : String → String → String → Time → ApiKey
  new_api_key raw consumer_id name now = record {
    key_hash = sha256 raw;
    key_id = slice_to 8 (sha256 raw);
    consumer_id = consumer_id;
    name = name;
    created_at = now;
    last_used_at = none;
    requests_made = 0;
    revoked_at = none;
  }

  -- `raw` is `KEY_PREFIX + secrets.token_hex(16)`, made only where a key is created.
  unfoldable pub ensure_default_key : Bool → String → Time → Write (Option String)
  unfolding insert_api_key
  ensure_default_key is_production raw now db =
      if any (λ k. k.consumer_id == default_consumer_id) db.api_keys
      then ok (none, db)
      else if is_production
      then ok (none, db)
      else (do
        insert_api_key (new_api_key raw default_consumer_id "Default Key" now)
        done (some raw))
          db

  unfoldable pub create_api_key : String → String → String → Time → Write (String × String)
  unfolding insert_account insert_api_key
  create_api_key consumer_id raw name now = do
    insert_account (new_account consumer_id name now)
    insert_api_key (new_api_key raw consumer_id name now)
    done (raw, consumer_id)

  unfoldable pub create_api_key_for_user : String → String → String → Time → Write String
  unfolding insert_api_key
  create_api_key_for_user user_id raw name now = do
    insert_api_key (new_api_key raw user_id name now)
    done raw

  -- The row is the one read before its use is recorded.
  unfoldable pub validate_key : String → Time → Db → Option ApiKey × Db
  validate_key raw now db =
      if starts_with raw key_prefix
      then (elim (first (λ k. (k.key_hash == sha256 raw) && is_none k.revoked_at) db.api_keys) [
        | none ↦ (none, db)
        | some row ↦ (
          some row,
          record db {
            api_keys =
                update (λ k. k.key_hash == sha256 raw)
                  (λ k. record k { last_used_at = some now; requests_made = suc k.requests_made })
                  db.api_keys;
          },
        )
      ])
      else (none, db)

  abbrev bearer_key : String → String
  bearer_key authorization =
      if starts_with (lower authorization) "bearer "
      then slice_from 7 authorization
      else authorization

  abbrev consumer_of : Option ApiKey → String
  consumer_of none = default_consumer_id
  consumer_of (some k) = k.consumer_id

  unfoldable pub resolve_consumer : Option String → Time → Db → String × Db
  unfolding validate_key
  resolve_consumer none now db = (default_consumer_id, db)
  resolve_consumer (some authorization) now db =
      if authorization == ""
      then (default_consumer_id, db)
      else (let (row, db') = validate_key (bearer_key authorization) now db in
          (consumer_of row, db'))

-- Returns whether a row was changed (`cur.rowcount > 0`).
unfoldable pub revoke_api_key : String → String → Time → Db → Bool × Db
revoke_api_key user_id key_id now db =
    let hit =
      λ (k : ApiKey). (k.consumer_id == user_id) && (k.key_id == key_id) && is_none k.revoked_at in
    (
      any hit db.api_keys,
      record db { api_keys = update hit (λ k. record k { revoked_at = some now }) db.api_keys },
    )

unfoldable pub get_user_api_keys : String → Db → List ApiKey
get_user_api_keys user_id db =
    select (λ k. (k.consumer_id == user_id) && is_none k.revoked_at) db.api_keys

-- `reset_dev_balance`
unfoldable pub reset_dev_balance : String → Db → Db
reset_dev_balance consumer_id db = record db {
  accounts =
      update (λ a. a.account_id == consumer_id) (λ a. record a { balance_micro = starting_balance })
        db.accounts;
}
