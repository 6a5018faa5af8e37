-- ===== src/Store/Providers.antt =====
-- Provider credentials and node ownership of inference_exchange/coordinator/store.py. Names from
-- `secrets` are arguments. `_ownership_write` is one transaction (BEGIN IMMEDIATE), as
-- `serialized_write` is.

pub mod Limits
pub mod Sound
use text.Mathlib.Text.{starts_with}
use inference_exchange.Prelude.{
  Host, ℕ, suc, ℤ, pos, ◌+◌, ◌-◌, ◌*◌, String, Bool, true, false, ◌&&◌, ◌||◌, not, Option, none,
  some, List, [], ◌∷◌, map, ◌==◌, if◌then◌else◌, is_none, any, first, select, update, count,
  text_eq, nat_eq, ltb, leb,
}
use inference_exchange.Store.Schema.{
  Time, second, Account, ProviderToken, ProviderNode, OwnershipAction, User, Db, Issuance, admin,
  self_service, issuance_eq,
}
use inference_exchange.Store.Monad.{
  Error, ownership, integrity, Write, ◌>>=◌, ◌>>◌, done, raise_if, or_raise, execute, read, Result,
  ok, raised,
}
use inference_exchange.Store.Accounts.{insert_account, new_account}

abbrev pub token_prefix : String
token_prefix = "pt-ie-"

abbrev pub find_user : String → Db → Option User
find_user id db = first (λ u. u.user_id == id) db.users

-- `row["github_id"]` is neither NULL nor empty.
abbrev pub has_github : User → Bool
has_github u = elim u.github_id [ none ↦ false | some g ↦ not (g == "") ]

-- `suspended_until is not None and suspended_until > now`
abbrev pub is_suspended : Time → User → Bool
is_suspended now u = elim u.suspended_until [ none ↦ false | some t ↦ ltb now t ]

abbrev pub is_node : String → ProviderNode → Bool
is_node id n = n.node_id == id

-- `t.node_id = n.node_id` for a token's column, which may be NULL
abbrev pub of_node : ProviderToken → ProviderNode → Bool
of_node t n = elim t.node_id [ none ↦ false | some id ↦ n.node_id == id ]

-- The tokens that a join with the owner's nodes on `node_id` finds.
abbrev pub owned_by : String → Db → ProviderToken → Bool
owned_by owner db t = any (λ n. of_node t n && (n.owner_user_id == owner)) db.provider_nodes

-- The join on `node_id` and `billing_account_id`.
abbrev pub strictly_owned_by : String → Db → ProviderToken → Bool
strictly_owned_by owner db t =
    any
      (λ n.
        of_node t n && (n.billing_account_id == t.billing_account_id) && (n.owner_user_id == owner))
      db.provider_nodes

abbrev pub is_active_self_service : ProviderToken → Bool
is_active_self_service t = (t.issuance_source == self_service) && is_none t.revoked_at

-- `INSERT INTO provider_nodes`: both keys are unique, and the owner is a user.
unfoldable pub insert_node : ProviderNode → Write (Unit {0})
insert_node n db =
    if any (λ m. (m.node_id == n.node_id) || (m.billing_account_id == n.billing_account_id))
      db.provider_nodes
    then raised integrity
    else if any (λ u. u.user_id == n.owner_user_id) db.users
    then ok (tt, record db { provider_nodes = n ∷ db.provider_nodes })
    else raised integrity

-- `INSERT INTO provider_tokens`: the hash and the billing principal are unique, and so is the
-- token id among self-service tokens; a node named is a node that exists.
unfoldable pub insert_token : ProviderToken → Write (Unit {0})
insert_token t db =
    if any
      (λ s.
        (s.token_hash == t.token_hash)
        || (s.billing_account_id == t.billing_account_id)
        || ((s.token_id == t.token_id)
            && (s.issuance_source == self_service)
            && (t.issuance_source == self_service)))
      db.provider_tokens
    then raised integrity
    else if is_none t.node_id || any (of_node t) db.provider_nodes
    then ok (tt, record db { provider_tokens = t ∷ db.provider_tokens })
    else raised integrity

-- `INSERT INTO provider_ownership_actions`: the node exists.
unfoldable pub log_ownership : OwnershipAction → Write (Unit {0})
log_ownership a db =
    if any (is_node a.node_id) db.provider_nodes
    then ok (tt, record db { ownership_actions = a ∷ db.ownership_actions })
    else raised integrity

abbrev pub self_service_profile : String
self_service_profile = "apple-silicon-macos-gguf-metal-l0"

abbrev pub daily_issuance_limit : ℕ
daily_issuance_limit = 3

abbrev pub day : Time
day = 86400 * second

abbrev pub active_count : String → Db → ℕ
active_count owner db =
    count (λ t. owned_by owner db t && is_active_self_service t) db.provider_tokens

abbrev pub issued_since : Time → String → Db → ℕ
issued_since since owner db =
    count
      (λ t. owned_by owner db t && (t.issuance_source == self_service) && leb since t.created_at)
      db.provider_tokens

-- The random names of one enrolment.
pub record Fresh : Type 0 where
  pub raw : String
  pub node_id : String
  pub billing_account_id : String
  pub token_id : String

-- The checks of `enroll_provider_node` inside its transaction.
abbrev pub enroll_guards : String → Time → Db → Option Error
enroll_guards owner now db = elim (find_user owner db) [
  | none ↦ some (ownership "Authenticated IE user required" 403)
  | some user ↦
      if not (has_github user)
      then some (ownership "A linked GitHub identity is required" 403)
      else if is_suspended now user
      then some (ownership "Account suspended" 403)
      else if leb 1 (active_count owner db)
      then some (ownership "Active self-service provider node limit reached" 409)
      else if leb daily_issuance_limit (issued_since (now - day) owner db)
      then some (ownership "Daily provider enrollment limit reached" 429)
      else none
]

abbrev pub enrolled_node : Fresh → String → String → String → Time → ProviderNode
enrolled_node f owner name profile now = record {
  node_id = f.node_id;
  owner_user_id = owner;
  billing_account_id = f.billing_account_id;
  name = name;
  created_at = now;
  declared_profile = profile;
}

abbrev pub ownership_action :
    String → String → String → String → String → String → Time → OwnershipAction
ownership_action node account owner actor action reason now = record {
  node_id = node;
  billing_account_id = account;
  owner_user_id = owner;
  actor_user_id = actor;
  action = action;
  reason = reason;
  timestamp = now;
}

-- The checks of `claim_legacy_provider` inside its transaction, and the token that is claimed.
abbrev pub claim_guards : String → String → String → Time → Db → Result ProviderToken
claim_guards account owner actor now db =
    if is_none (find_user actor db)
    then raised (ownership "Authenticated administrator required" 403)
    else (elim (find_user owner db) [
      | none ↦ raised (ownership "IE user not found" 404)
      | some user ↦
          if not (has_github user)
          then raised (ownership "Owner must have a linked GitHub identity" 409)
          else if is_suspended now user
          then raised (ownership "Suspended users cannot claim provider nodes" 409)
          else (elim (first (λ t. t.billing_account_id == account) db.provider_tokens) [
            | none ↦ raised (ownership "Provider billing principal not found" 404)
            | some token ↦
                if not (is_none token.revoked_at)
                then raised (ownership "Revoked credentials cannot be claimed" 409)
                else if not (is_none token.node_id)
                    || any (λ n. n.billing_account_id == account) db.provider_nodes
                then raised (ownership "Provider billing principal is already claimed" 409)
                else ok token
          ])
    ])

-- `UPDATE provider_tokens SET node_id = ? WHERE token_hash = ? AND node_id IS NULL AND
-- revoked_at IS NULL`
abbrev pub claimable : String → ProviderToken → Bool
claimable hash t = (t.token_hash == hash) && is_none t.node_id && is_none t.revoked_at

unfoldable pub link_token : String → String → Write (Unit {0})
link_token hash node db =
    if count (claimable hash) db.provider_tokens == 1
    then ok (
      tt,
      record db {
        provider_tokens =
            update (claimable hash) (λ t. record t { node_id = some node }) db.provider_tokens;
      },
    )
    else raised (ownership "Provider claim changed concurrently" 409)

abbrev pub claimed_node : String → String → String → String → Time → ProviderNode
claimed_node node owner account name now = record {
  node_id = node;
  owner_user_id = owner;
  billing_account_id = account;
  name = name;
  created_at = now;
  declared_profile = "";
}

unfoldable pub claim_writes :
    ProviderToken → String → String → String → String → String → Time → Write String
claim_writes token node account owner actor reason now = do
  insert_node (claimed_node node owner account token.name now)
  link_token token.token_hash node
  log_ownership (ownership_action node account owner actor "claim" reason now)
  done node

module _ (host : Host) where
  open host use {strip, text_length, sha256, fullmatch}

  abbrev pub enrolled_token : Fresh → String → Time → ProviderToken
  enrolled_token f name now = record {
    token_hash = sha256 f.raw;
    token_id = f.token_id;
    name = name;
    billing_account_id = f.billing_account_id;
    node_id = some f.node_id;
    issuance_source = self_service;
    created_at = now;
    last_used_at = none;
    connections = 0;
    revoked_at = none;
  }

  -- The four writes of an enrolment that has passed its checks.
  unfoldable pub enroll_writes : Fresh → String → String → String → Time → Write (Unit {0})
  enroll_writes f owner name profile now = do
    insert_account (new_account f.billing_account_id name now)
    insert_node (enrolled_node f owner name profile now)
    insert_token (enrolled_token f name now)
    log_ownership (
        ownership_action f.node_id f.billing_account_id owner owner "enroll"
          "self-service L0 Apple Silicon enrollment" now)

  unfoldable pub enroll_provider_node :
      Fresh → String → String → String → Time → Write (String × String × String)
  enroll_provider_node f owner name profile now db =
      if not (fullmatch "[A-Za-z0-9][A-Za-z0-9 _.-]{0,63}" name)
      then raised (ownership "Invalid provider name" 400)
      else if not (profile == self_service_profile)
      then raised (ownership "Unsupported provider profile" 400)
      else (elim (enroll_guards owner now db) [
        | some e ↦ raised e
        | none ↦ (do enroll_writes f owner name profile now; done (f.node_id, f.token_id, f.raw)) db
      ])

  unfoldable pub claim_legacy_provider :
      String → String → String → String → String → Time → Write String
  claim_legacy_provider node account owner actor reason now db =
      let why = strip reason in
      if (why == "") || ltb 500 (text_length why)
      then raised (ownership "A reason of 1-500 characters is required" 400)
      else if not (starts_with account "provider-acct-")
      then raised (ownership "Provider billing principal not found" 404)
      else (elim (claim_guards account owner actor now db) [
        | raised e ↦ raised e
        | ok token ↦ claim_writes token node account owner actor why now db
      ])
