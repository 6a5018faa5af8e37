-- ===== src/Tests/Tokens.antt =====
-- A store with one linked user, an administrator and a legacy credential.
use inference_exchange.Prelude.{
  ◌≡◌, refl, [], ◌∷◌, String, String_discrete, none, some, false, arith, inr,
}
use inference_exchange.Store.Schema.{ProviderToken, User, Db, admin, Issuance-discrete}
use inference_exchange.Store.Monad.{after}
use inference_exchange.Store.Accounts.{insert_account}
use inference_exchange.Store.Providers.{
  Fresh, enroll_provider_node, claim_legacy_provider, active_count, self_service_profile,
  enroll_writes, insert_node, insert_token, log_ownership,
}
use inference_exchange.Store.Providers.Limits.{IsSound}
use inference_exchange.Store.Providers.Sound.{
  enroll_provider_node-IsSound, claim_legacy_provider-IsSound,
}
use inference_exchange.Store.Credentials.{provider_credential_is_active, revoke_provider_token}
use inference_exchange.Store.Credentials.Revocation.{revoke_provider_token-inactive}
use inference_exchange.Tests.{host}

abbrev pub user : String → User
user id = record {
  user_id = id;
  email = id;
  password_hash = "";
  name = id;
  role = "user";
  created_at = 0;
  last_login_at = none;
  github_id = some id;
  session_version = 0;
  suspended_until = none;
  suspension_reason = "";
  signup_country = none;
}

abbrev legacy : ProviderToken
legacy = record {
  token_hash = "pt-ie-legacy";
  token_id = "pt-ie-le";
  name = "rack";
  billing_account_id = "provider-acct-1";
  node_id = none;
  issuance_source = admin;
  created_at = 0;
  last_used_at = none;
  connections = 0;
  revoked_at = none;
}

abbrev pub db : Db
db = record {
  accounts = [];
  api_keys = [];
  transactions = [];
  request_outcomes = [];
  provider_history = [];
  provider_tokens = legacy ∷ [];
  users = user "carol" ∷ user "root" ∷ [];
  provider_nodes = [];
  ownership_actions = [];
  reference_prices = [];
  account_actions = [];
}

abbrev fresh : Fresh
fresh = record {
  raw = "pt-ie-secret";
  node_id = "node-1";
  billing_account_id = "provider-acct-2";
  token_id = "ptok-1";
}

db-IsSound : IsSound db
unfolding String_discrete Issuance-discrete
db-IsSound = record { linked = (inr (refl, refl), tt); one_active = λ o. omega arith }

-- The enrolment goes through: carol has one active credential after it.
enroll-run :
    active_count "carol"
      (after db (enroll_provider_node host fresh "carol" "Mac" self_service_profile (9_000_000) db))
    ≡ 1
unfolding enroll_provider_node String_discrete enroll_writes insert_account insert_node insert_token
    log_ownership Issuance-discrete
enroll-run = refl

enroll_provider_node-IsSound_example :
    IsSound
      (after db (enroll_provider_node host fresh "carol" "Mac" self_service_profile (9_000_000) db))
enroll_provider_node-IsSound_example =
    enroll_provider_node-IsSound host fresh "carol" "Mac" self_service_profile (9_000_000) db
      db-IsSound

claim_legacy_provider-IsSound_example : IsSound (
    after db
      (claim_legacy_provider host "node-2" "provider-acct-1" "carol" "root" "moved" (9_000_000) db))
claim_legacy_provider-IsSound_example =
    claim_legacy_provider-IsSound host "node-2" "provider-acct-1" "carol" "root" "moved" (9_000_000)
      db db-IsSound

revoke_provider_token-inactive_example :
    provider_credential_is_active "pt-ie-legacy" "pt-ie-le" 20
      (revoke_provider_token "pt-ie-le" 10 db).1
    ≡ false
revoke_provider_token-inactive_example =
    revoke_provider_token-inactive "pt-ie-le" "pt-ie-legacy" 10 20 db
