-- ===== src/Store/Credentials.antt =====
-- Provider credentials after their issue: validation, admission, revocation, and who owns what,
-- from inference_exchange/coordinator/store.py.
pub mod Revocation
use text.Mathlib.Text.{starts_with}
use inference_exchange.Prelude.{
  Host, ℕ, suc, ◌+◌, String, Bool, true, false, ◌&&◌, ◌||◌, not, Option, none, some, List, [], ◌∷◌,
  map, ◌==◌, if◌then◌else◌, is_none, any, first, select, update, count, text_eq, nat_eq, ltb, leb,
}
use inference_exchange.Store.Schema.{
  Time, ProviderToken, ProviderNode, OwnershipAction, User, Db, admin, self_service, issuance_eq,
}
use inference_exchange.Store.Monad.{Error, ownership, Write, ◌>>=◌, ◌>>◌, done, Result, ok, raised}
use inference_exchange.Store.Providers.{
  token_prefix, find_user, is_suspended, of_node, strictly_owned_by, insert_token, log_ownership,
  ownership_action, is_active_self_service,
}

-- A live token by its hash.
abbrev pub live_hash : String → ProviderToken → Bool
live_hash hash t = (t.token_hash == hash) && is_none t.revoked_at

module _ (host : Host) where
  open host use {slice_to, text_length, sha256}

  unfoldable pub create_provider_token : String → String → String → Time → Write String
  create_provider_token raw account name now = do
    insert_token (record {
      token_hash = sha256 raw;
      token_id = slice_to 8 (sha256 raw);
      name = name;
      billing_account_id = account;
      node_id = none;
      issuance_source = admin;
      created_at = now;
      last_used_at = none;
      connections = 0;
      revoked_at = none;
    })
    done raw

  -- The row is the one read before its use is recorded.
  unfoldable pub validate_provider_token : String → Time → Db → Option ProviderToken × Db
  validate_provider_token raw now db =
      if starts_with raw token_prefix
      then (elim (first (live_hash (sha256 raw)) db.provider_tokens) [
        | none ↦ (none, db)
        | some row ↦ (
          some row,
          record db {
            provider_tokens =
                update (λ t. t.token_hash == sha256 raw)
                  (λ t. record t { last_used_at = some now; connections = suc t.connections })
                  db.provider_tokens;
          },
        )
      ])
      else (none, db)

  -- The token that an owner may revoke.
  abbrev pub revocable : String → String → Db → ProviderToken → Bool
  revocable owner token_id db t =
      (t.token_id == token_id) && is_active_self_service t && strictly_owned_by owner db t

  abbrev or_empty : Option String → String
  or_empty none = ""
  or_empty (some s) = s

  unfoldable pub revoke_owned_self_service_credential : String → String → Time → Write Bool
  revoke_owned_self_service_credential owner token_id now db =
      if not (starts_with token_id "ptok-") || ltb 80 (text_length token_id)
      then ok (false, db)
      else (elim (first (revocable owner token_id db) db.provider_tokens) [
        | none ↦ ok (false, db)
        | some token ↦
            if count (live_hash token.token_hash) db.provider_tokens == 1
            then (do
              log_ownership (
                  ownership_action (or_empty token.node_id) token.billing_account_id owner owner
                    "revoke" "owner revoked self-service credential" now)
              done true)
                (record db {
                  provider_tokens =
                      update (live_hash token.token_hash) (λ t. record t { revoked_at = some now })
                        db.provider_tokens;
                })
            else raised (ownership "Credential changed during revocation" 409)
      ])

-- `revoke_provider_token`: returns whether a row was changed.
unfoldable pub revoke_provider_token : String → Time → Db → Bool × Db
revoke_provider_token token_id now db =
    let hit = λ (t : ProviderToken). (t.token_id == token_id) && is_none t.revoked_at in
    (
      any hit db.provider_tokens,
      record db {
        provider_tokens = update hit (λ t. record t { revoked_at = some now }) db.provider_tokens;
      },
    )

-- The node that a token's row joins with, on both columns.
abbrev pub node_of : ProviderToken → Db → Option ProviderNode
node_of t db =
    first (λ n. of_node t n && (n.billing_account_id == t.billing_account_id)) db.provider_nodes

-- What `provider_credential_is_active` says of a live token's row: an unclaimed token stands; a
-- claimed one needs its node and an owner who is not suspended.
abbrev pub owner_stands : Time → ProviderToken → Db → Bool
owner_stands now t db = elim (node_of t db) [
  | none ↦ false
  | some n ↦
      if n.owner_user_id == ""
      then false
      else (elim (find_user n.owner_user_id db) [ none ↦ true | some u ↦ not (is_suspended now u) ])
]

unfoldable pub provider_credential_is_active : String → String → Time → Db → Bool
provider_credential_is_active hash token_id now db =
    elim (first (λ t. live_hash hash t && (t.token_id == token_id)) db.provider_tokens) [
      | none ↦ false
      | some t ↦ if is_none t.node_id then true else owner_stands now t db
    ]

-- `get_provider_node_owner`
unfoldable pub get_provider_node_owner : String → String → Db → Option String
get_provider_node_owner node account db =
    elim (first (λ n. (n.node_id == node) && (n.billing_account_id == account)) db.provider_nodes) [
      | none ↦ none
      | some n ↦ some n.owner_user_id
    ]

-- `provider_billing_principals_for_owner`, as the list of the set's members.
unfoldable pub provider_billing_principals_for_owner : String → Db → List String
provider_billing_principals_for_owner owner db =
    map (λ n. n.billing_account_id) (select (λ n. n.owner_user_id == owner) db.provider_nodes)

-- `list_owned_self_service_credentials`, before its ORDER BY.
unfoldable pub list_owned_self_service_credentials : String → Db → List ProviderToken
list_owned_self_service_credentials owner db =
    select (λ t. strictly_owned_by owner db t && (t.issuance_source == self_service))
      db.provider_tokens
