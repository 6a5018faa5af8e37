-- ===== src/Store/Users/Standing.antt =====
-- What suspension and deletion in inference_exchange/coordinator/store.py do to a user's standing.
use inference_exchange.Prelude.{
  suc, ◌<◌, ◌≡◌, refl, String, true, false, Option, none, some, List, [], ◌∷◌, ◌==◌, text_eq, any,
  first, update, is_none, All, All-delete_test, arith, Bool-cases, inl, inr, Option-cases, ◌∙◌,
}
use mathlib.Core.Option
use inference_exchange.Store.Schema.{Time, User, ProviderNode, Db}
use inference_exchange.Store.Monad.{Result, ok, raised, nodes_exist}
use inference_exchange.Store.Providers.{find_user}
use inference_exchange.Store.Users.{
  delete_user, suspend_user, unsuspend_user, get_suspension, get_session_version, suspension_end,
  get_user,
}

first-user :
    (id : String) (f : User → User) (rows : List User)
    → ((u : User) → (f u).user_id ≡ u.user_id)
    → first (λ u. u.user_id == id) (update (λ u. u.user_id == id) f rows)
      ≡ Option.map f (first (λ u. u.user_id == id) rows)
first-user id f [] keep = refl
first-user id f (u ∷ rows) keep = ground (arith, keep u, first-user id f rows keep)

first-absent :
    (id : String) (rows : List User)
    → any (λ u. u.user_id == id) rows ≡ false
    → first (λ u. u.user_id == id) rows ≡ none
first-absent id [] h = refl
first-absent id (u ∷ rows) h = ground (arith, h, first-absent id rows)

All-unowned :
    (id : String) (nodes : List ProviderNode)
    → any (λ n. n.owner_user_id == id) nodes ≡ false
    → All (λ n. (n.owner_user_id == id) ≡ false) nodes
All-unowned id [] h = tt
All-unowned id (n ∷ nodes) h = (ground (arith, h), All-unowned id nodes (ground (arith, h)))

-- A suspension of a user who is there raises the session version by one and holds at every time
-- before its end, which is 10^18 seconds for a ban.
suspend_user_lem :
    (id reason actor : String) (duration : Option Time) (now later : Time) (db : Db) (u : User)
    → find_user id db ≡ some u
    → later < suspension_end now duration
    → let db' = (suspend_user id reason actor duration now db).1 in
      (get_session_version id db' ≡ some (suc u.session_version))
      × (is_none (get_suspension id later db') ≡ false)
unfolding suspend_user get_session_version get_suspension get_user
suspend_user_lem id reason actor duration now later db u h before =
    let kept : User → User = (λ v. record v {
      suspended_until = some (suspension_end now duration);
      suspension_reason = reason;
      session_version = suc v.session_version;
    }) in
    let k : first (λ v. v.user_id == id) (update (λ v. v.user_id == id) kept db.users)
        ≡ some (kept u) =
      first-user id kept db.users (λ v. refl) ∙ rw h in
    rw (h, suspend_user)
      (rw (k, get_session_version) refl, rw (k, get_suspension) ground (arith, before))

-- After a suspension is lifted the user is not suspended at any time.
pub unsuspend_user_lem :
    (id reason actor : String) (now later : Time) (db : Db)
    → get_suspension id later (unsuspend_user id reason actor now db).1 ≡ none
unfolding unsuspend_user get_suspension
unsuspend_user_lem id reason actor now later db =
    let lifted : User → User = (λ v. record v { suspended_until = none; suspension_reason = "" }) in
    elim (Bool-cases (any (λ u. u.user_id == id) db.users)) [
      | inl known ↦ rw known (elim (Option-cases (first (λ u. u.user_id == id) db.users)) [
        | inl e ↦
            let k : first (λ v. v.user_id == id) (update (λ v. v.user_id == id) lifted db.users)
                ≡ none =
              first-user id lifted db.users (λ v. refl) ∙ rw e in
            rw (k, get_suspension) refl
        | inr (u, e) ↦
            let k : first (λ v. v.user_id == id) (update (λ v. v.user_id == id) lifted db.users)
                ≡ some (lifted u) =
              first-user id lifted db.users (λ v. refl) ∙ rw e in
            rw (k, get_suspension) refl
      ])
      | inr unknown ↦
          rw (unknown, unsuspend_user) (rw (first-absent id db.users unknown, get_suspension) refl)
    ]

-- What a deletion leaves behind, or why it is refused.
abbrev pub Deletes : String → Db → Result (Unit {0} × Db) → Type 0
Deletes id db (raised e) =
    (e ≡ nodes_exist) × (any (λ n. n.owner_user_id == id) db.provider_nodes ≡ true)
Deletes id db (ok (_, db')) =
    All (λ n. (n.owner_user_id == id) ≡ false) db'.provider_nodes
    × All (λ u. (u.user_id == id) ≡ false) db'.users
    × All (λ a. (a.account_id == id) ≡ false) db'.accounts
    × All (λ k. (k.consumer_id == id) ≡ false) db'.api_keys

-- A deletion is refused only where the user owns a provider node; else no node of the user is
-- there, and no user, account or API key under the id is left.
pub delete_user-Deletes : (id : String) (db : Db) → Deletes id db (delete_user id db)
unfolding delete_user
delete_user-Deletes id db = elim (Bool-cases (any (λ n. n.owner_user_id == id) db.provider_nodes)) [
  | inl owns ↦ rw owns (refl, owns)
  | inr free ↦ rw free (
    All-unowned id db.provider_nodes free,
    All-delete_test (λ u. u.user_id == id) db.users,
    All-delete_test (λ a. a.account_id == id) db.accounts,
    All-delete_test (λ k. k.consumer_id == id) db.api_keys,
  )
]
