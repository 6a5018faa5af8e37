-- ===== src/Store/Users.antt =====
-- Users, sign-in, suspension and deletion of inference_exchange/coordinator/store.py.
pub mod Standing
use inference_exchange.Prelude.{
  Host, ℕ, suc, ◌+◌, String, Bool, true, false, ◌||◌, not, Option, none, some, ◌∷◌, ◌==◌,
  if◌then◌else◌, is_none, any, first, update, delete, text_eq, leb,
}
use inference_exchange.Store.Schema.{Time, User, Db}
use inference_exchange.Store.Monad.{nodes_exist, value_error, Write, ◌>>◌, done, ok, raised}
use inference_exchange.Store.Accounts.{insert_account, new_account, insert_api_key, new_api_key}
use inference_exchange.Store.Providers.{find_user}

-- `github_id` is unique where it is not NULL.
abbrev same_github : User → User → Bool
same_github u v = elim u.github_id [
  | none ↦ false
  | some g ↦ elim v.github_id [ none ↦ false | some h ↦ g == h ]
]

-- `INSERT INTO users`; its IntegrityError is turned into a ValueError.
unfoldable pub insert_user : User → Write (Unit {0})
insert_user u db =
    if any (λ v. (v.user_id == u.user_id) || (v.email == u.email) || same_github v u) db.users
    then raised value_error
    else ok (tt, record db { users = u ∷ db.users })

abbrev update_user : String → (User → User) → Db → Db
update_user id f db = record db { users = update (λ u. u.user_id == id) f db.users }

abbrev pub new_user : String → String → String → String → Time → Option String → User
new_user id email password_hash name now country = record {
  user_id = id;
  email = email;
  password_hash = password_hash;
  name = name;
  role = "consumer";
  created_at = now;
  last_login_at = none;
  github_id = none;
  session_version = 0;
  suspended_until = none;
  suspension_reason = "";
  signup_country = country;
}

module _ (host : Host) where
  open host use {lower, strip, sha256}

  -- `local_part` is `email.split("@")[0]`, and `salted salt password` is f"{salt}:{password}".
  module _ (local_part : String → String) (salted : String → String → String) where
    abbrev display_name : String → String → String
    display_name name email = if name == "" then local_part email else name

    unfoldable pub create_user :
        String → String → String → String → String → String → Option String → Time → Write String
    create_user user_id salt raw_key email password name country now = do
      insert_user (
          new_user user_id (strip (lower email)) (salted salt (sha256 (salted salt password)))
            (display_name name email) now country)
      insert_account (new_account user_id (display_name name email) now)
      insert_api_key (new_api_key host raw_key user_id "Default Key" now)
      done raw_key

    -- `split_hash` is `stored.split(":", 1)` where a colon is there.
    unfoldable pub authenticate_user :
        (split_hash : String → Option (String × String))
        → String
        → String
        → Time
        → Db
        → Option User × Db
    authenticate_user split_hash email password now db =
        elim (first (λ u. u.email == strip (lower email)) db.users) [
          | none ↦ (none, db)
          | some row ↦ elim (split_hash row.password_hash) [
            | none ↦ (none, db)
            | some (salt, expected) ↦
                if sha256 (salted salt password) == expected
                then (
                  some row,
                  update_user row.user_id (λ u. record u { last_login_at = some now }) db,
                )
                else (none, db)
          ]
        ]

  -- The email of a GitHub account, or the placeholder that `noreply login` stands for.
  unfoldable pub upsert_github_user :
      (noreply : String → String)
      → String
      → String
      → String
      → String
      → String
      → Option String
      → Time
      → Write (User × Bool)
  upsert_github_user noreply user_id github_id login email name country now db =
      elim (first (λ u. elim u.github_id [ none ↦ false | some g ↦ g == github_id ]) db.users) [
        | some row ↦
            ok (
              (row, false),
              update_user row.user_id (λ u. record u { last_login_at = some now }) db,
            )
        | none ↦
            let address = strip (lower (if email == "" then noreply login else email)) in
            let shown = if name == "" then login else name in
            let row = record (new_user user_id address "" shown now country) {
              last_login_at = some now;
              github_id = some github_id;
            } in
            (do insert_user row; insert_account (new_account user_id shown now); done (row, true))
              db
      ]

unfoldable pub get_user : String → Db → Option User
get_user id db = find_user id db

unfoldable pub is_github_linked_user : String → Db → Bool
is_github_linked_user id db = elim (find_user id db) [
  | none ↦ false
  | some u ↦ elim u.github_id [ none ↦ false | some g ↦ not (g == "") ]
]

unfoldable pub get_session_version : String → Db → Option ℕ
get_session_version id db = elim (find_user id db) [ none ↦ none | some u ↦ some u.session_version ]

unfoldable pub bump_session_version : String → Db → Db
bump_session_version id = update_user id (λ u. record u { session_version = suc u.session_version })

-- `delete_user`
unfoldable pub delete_user : String → Write (Unit {0})
delete_user id db =
    if any (λ n. n.owner_user_id == id) db.provider_nodes
    then raised nodes_exist
    else ok (
      tt,
      record db {
        api_keys = delete (λ k. k.consumer_id == id) db.api_keys;
        request_outcomes =
            delete (λ o. elim o.consumer_id [ none ↦ false | some c ↦ c == id ])
              db.request_outcomes;
        users = delete (λ u. u.user_id == id) db.users;
        accounts = delete (λ a. a.account_id == id) db.accounts;
      },
    )

pub record Suspension : Type 0 where
  pub user_id : String
  pub reason : String
  pub permanent : Bool
  pub suspended_until : Option Time

-- `PERMANENT_SUSPENSION`: 1e18 seconds.
abbrev pub permanent_suspension : Time
permanent_suspension = 1_000_000_000_000_000_000_000_000

unfoldable pub get_suspension : String → Time → Db → Option Suspension
get_suspension id now db = elim (find_user id db) [
  | none ↦ none
  | some u ↦ elim u.suspended_until [
    | none ↦ none
    | some t ↦
        if leb t now
        then none
        else some (record {
          user_id = id;
          reason = u.suspension_reason;
          permanent = leb permanent_suspension t;
          suspended_until = if leb permanent_suspension t then none else some t;
        })
  ]
]

abbrev suspension_end : Time → Option Time → Time
suspension_end now none = permanent_suspension
suspension_end now (some d) = now + d

-- `suspend_user`; a duration of `none` is a ban for good.
unfoldable pub suspend_user :
    String → String → String → Option Time → Time → Db → Option Suspension × Db
unfolding get_user get_suspension
suspend_user id reason actor duration now db =
    if is_none (get_user id db)
    then (none, db)
    else (let until = suspension_end now duration in
        let db' =
          record (update_user id
            (λ u. record u {
              suspended_until = some until;
              suspension_reason = reason;
              session_version = suc u.session_version;
            })
            db) {
              account_actions =
                  record {
                    user_id = id;
                    action = if is_none duration then "ban" else "suspend";
                    reason = reason;
                    suspended_until = some until;
                    actor = actor;
                    timestamp = now;
                  }
                  ∷ db.account_actions;
            } in
        (get_suspension id now db', db'))

unfoldable pub unsuspend_user : String → String → String → Time → Db → Bool × Db
unsuspend_user id reason actor now db =
    if any (λ u. u.user_id == id) db.users
    then (
      true,
      record (update_user id (λ u. record u { suspended_until = none; suspension_reason = "" })
          db) {
            account_actions =
                record {
                  user_id = id;
                  action = "unsuspend";
                  reason = reason;
                  suspended_until = none;
                  actor = actor;
                  timestamp = now;
                }
                ∷ db.account_actions;
          },
    )
    else (false, db)
