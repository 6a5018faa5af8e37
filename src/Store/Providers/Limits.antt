-- ===== src/Store/Providers/Limits.antt =====
-- The limits on self-service provider nodes in inference_exchange/coordinator/store.py, and proofs
-- about the single writes.
use inference_exchange.Prelude.{
  Host, ℕ, suc, ◌≤◌, ◌≡◌, refl, String, true, false, ◌&&◌, ◌||◌, some, List, [], ◌∷◌, ◌==◌,
  if◌then◌else◌, is_none, any, count, text_eq, nat_eq, All, arith, Bool-cases, ◌⊎◌, inl, inr,
}
use inference_exchange.Store.Schema.{
  Time, Account, OwnershipAction, ProviderToken, ProviderNode, Db, self_service, issuance_eq,
}
use inference_exchange.Store.Monad.{
  Write, Ensures, success, failure, Ensures-bind, Ensures-weaken, ◌>>◌,
}
use inference_exchange.Store.Providers.{
  of_node, is_node, is_active_self_service, active_count, Fresh, enroll_writes, enrolled_node,
  enrolled_token, insert_node, insert_token, log_ownership, ownership_action,
}
use inference_exchange.Store.Accounts.{insert_account, has_account, new_account}

-- A token names no node, or one that is there; a self-service token names one.
abbrev pub IsLinked : List ProviderNode → ProviderToken → Type 0
IsLinked nodes t =
    ((is_none t.node_id ≡ false) × (any (of_node t) nodes ≡ true))
    ⊎ ((is_none t.node_id ≡ true) × ((t.issuance_source == self_service) ≡ false))

pub record IsSound (db : Db) : Type 0 where
  pub linked : All (IsLinked db.provider_nodes) db.provider_tokens
  pub one_active : (owner : String) → active_count owner db ≤ 1

-- The owner's active credentials, over the two tables.
abbrev pub active_in : String → List ProviderNode → List ProviderToken → ℕ
active_in owner nodes tokens =
    count
      (λ t. any (λ n. of_node t n && (n.owner_user_id == owner)) nodes && is_active_self_service t)
      tokens

-- Adding a node with a new id hands no token that names an older node, or none, to its owner.
pub of_node-fresh :
    (t : ProviderToken) (n : ProviderNode) (nodes : List ProviderNode)
    → any (λ m. m.node_id == n.node_id) nodes ≡ false
    → any (of_node t) nodes ≡ true
    → of_node t n ≡ false
of_node-fresh t n [] fresh h = cc
of_node-fresh t n (m ∷ nodes) fresh h = ground (arith, of_node-fresh t n nodes)

active-new_node :
    (owner : String) (n : ProviderNode) (nodes : List ProviderNode) (tokens : List ProviderToken)
    → any (λ m. m.node_id == n.node_id) nodes ≡ false
    → All (IsLinked nodes) tokens
    → active_in owner (n ∷ nodes) tokens ≡ active_in owner nodes tokens
active-new_node owner n nodes [] fresh h = refl
active-new_node owner n nodes (t ∷ tokens) fresh (h, hs) =
    ground (arith, h, of_node-fresh t n nodes fresh, active-new_node owner n nodes tokens fresh hs)

pub IsLinked-new_node :
    (n : ProviderNode) (nodes : List ProviderNode) (tokens : List ProviderToken)
    → All (IsLinked nodes) tokens
    → All (IsLinked (n ∷ nodes)) tokens
IsLinked-new_node n nodes [] h = tt
IsLinked-new_node n nodes (t ∷ tokens) (inl (a, b), hs) =
    (inl (a, ground (arith, b)), IsLinked-new_node n nodes tokens hs)
IsLinked-new_node n nodes (t ∷ tokens) (inr h, hs) = (inr h, IsLinked-new_node n nodes tokens hs)

no-node_of_owner :
    (owner : String) (t : ProviderToken) (nodes : List ProviderNode)
    → any (of_node t) nodes ≡ false
    → any (λ m. of_node t m && (m.owner_user_id == owner)) nodes ≡ false
no-node_of_owner owner t [] h = refl
no-node_of_owner owner t (m ∷ nodes) h = ground (arith, no-node_of_owner owner t nodes)

-- A token of a new node adds one to its owner's active credentials, and to nobody else's.
active-enrolled :
    (owner : String) (n : ProviderNode) (t : ProviderToken) (nodes : List ProviderNode)
    (tokens : List ProviderToken)
    → t.node_id ≡ some n.node_id
    → is_active_self_service t ≡ true
    → any (λ m. m.node_id == n.node_id) nodes ≡ false
    → All (IsLinked nodes) tokens
    → active_in owner (n ∷ nodes) (t ∷ tokens) ≡ (
        if n.owner_user_id == owner
        then suc (active_in owner nodes tokens)
        else active_in owner nodes tokens)
active-enrolled owner n t nodes tokens e live fresh h =
    let other : any (of_node t) nodes ≡ false = rw e fresh in
    ground (
      arith,
      e,
      live,
      no-node_of_owner owner t nodes other,
      active-new_node owner n nodes tokens fresh h,
    )

active_after :
    (o : String) (n : ProviderNode) (t : ProviderToken) (nodes : List ProviderNode)
    (tokens : List ProviderToken)
    → t.node_id ≡ some n.node_id
    → is_active_self_service t ≡ true
    → any (λ m. m.node_id == n.node_id) nodes ≡ false
    → All (IsLinked nodes) tokens
    → active_in n.owner_user_id nodes tokens ≡ 0
    → active_in o nodes tokens ≤ 1
    → active_in o (n ∷ nodes) (t ∷ tokens) ≤ 1
active_after o n t nodes tokens e live fresh h zero_before one =
    ground (arith, zero_before, one, active-enrolled o n t nodes tokens e live fresh h)

fresh_node_id :
    (n : ProviderNode) (nodes : List ProviderNode)
    → any (λ m. (m.node_id == n.node_id) || (m.billing_account_id == n.billing_account_id)) nodes
      ≡ false
    → any (λ m. m.node_id == n.node_id) nodes ≡ false
fresh_node_id n [] h = refl
fresh_node_id n (m ∷ nodes) h = ground (arith, fresh_node_id n nodes)

-- What each insertion leaves of the two tables.
abbrev pub Tables : List ProviderNode → List ProviderToken → Db → Type 0
Tables nodes tokens db = (db.provider_nodes ≡ nodes) × (db.provider_tokens ≡ tokens)

insert_account-Tables :
    (a : Account) (db : Db)
    → Ensures (Tables db.provider_nodes db.provider_tokens) (insert_account a db)
unfolding insert_account
insert_account-Tables a db = elim (Bool-cases (has_account a.account_id db)) [
  | inl e ↦ rw e failure
  | inr e ↦ rw e (success (refl, refl))
]

pub insert_node-Tables :
    (n : ProviderNode) (nodes : List ProviderNode) (tokens : List ProviderToken) (db : Db)
    → Tables nodes tokens db
    → Ensures
        (λ db'. Tables (n ∷ nodes) tokens db' × (any (λ m. m.node_id == n.node_id) nodes ≡ false))
        (insert_node n db)
unfolding insert_node
insert_node-Tables n nodes tokens db (en, et) =
    elim (Bool-cases (
      any (λ m. (m.node_id == n.node_id) || (m.billing_account_id == n.billing_account_id))
        db.provider_nodes)) [
          | inl e ↦ rw e failure
          | inr e ↦ elim (Bool-cases (any (λ u. u.user_id == n.owner_user_id) db.users)) [
            | inl u ↦
                rw (e, u)
                  (success
                    ((ground (arith, en), et), rw (← en) (fresh_node_id n db.provider_nodes e)))
            | inr u ↦ rw (e, u) failure
          ]
        ]

-- A token whose node is there is inserted in front, or the insertion fails.
pub insert_token-Tables :
    (t : ProviderToken) (nodes : List ProviderNode) (tokens : List ProviderToken) (db : Db)
    → Tables nodes tokens db
    → Ensures (Tables nodes (t ∷ tokens)) (insert_token t db)
unfolding insert_token
insert_token-Tables t nodes tokens db (en, et) =
    elim (Bool-cases (
      any
        (λ s.
          (s.token_hash == t.token_hash)
          || (s.billing_account_id == t.billing_account_id)
          || ((s.token_id == t.token_id)
              && (s.issuance_source == self_service)
              && (t.issuance_source == self_service)))
        db.provider_tokens)) [
          | inl e ↦ rw e failure
          | inr e ↦ elim (Bool-cases (is_none t.node_id || any (of_node t) db.provider_nodes)) [
            | inl u ↦ rw (e, u) (success (en, ground (arith, et)))
            | inr u ↦ rw (e, u) failure
          ]
        ]

pub log_ownership-Tables :
    (a : OwnershipAction) (nodes : List ProviderNode) (tokens : List ProviderToken) (db : Db)
    → Tables nodes tokens db
    → Ensures (Tables nodes tokens) (log_ownership a db)
unfolding log_ownership
log_ownership-Tables a nodes tokens db h =
    elim (Bool-cases (any (is_node a.node_id) db.provider_nodes)) [
      | inl e ↦ rw e (success h)
      | inr e ↦ rw e failure
    ]

-- The invariant, read from the two tables.
pub IsSound-Tables :
    (nodes : List ProviderNode) (tokens : List ProviderToken) (db : Db)
    → All (IsLinked nodes) tokens
    → ((owner : String) → active_in owner nodes tokens ≤ 1)
    → Tables nodes tokens db
    → IsSound db
IsSound-Tables nodes tokens db linked one (en, et) = record {
  linked = rw (en, et) linked;
  one_active = λ owner. rw (en, et) (one owner);
}

module _ (host : Host) where
  enroll_writes-Tables :
      (f : Fresh) (owner name profile : String) (now : Time) (db : Db)
      → Ensures
          (λ db'.
            Tables
              (enrolled_node f owner name profile now ∷ db.provider_nodes)
              (enrolled_token host f name now ∷ db.provider_tokens)
              db'
            × (any (λ m. m.node_id == f.node_id) db.provider_nodes ≡ false))
          (enroll_writes host f owner name profile now db)
  unfolding enroll_writes
  enroll_writes-Tables f owner name profile now db =
      let n = enrolled_node f owner name profile now in
      let t = enrolled_token host f name now in
      let nodes = db.provider_nodes in
      let tokens = db.provider_tokens in
      let log = log_ownership (
        ownership_action f.node_id f.billing_account_id owner owner "enroll"
          "self-service L0 Apple Silicon enrollment" now) in
      let token : Write (Unit {0}) = insert_token t >> log in
      let node : Write (Unit {0}) = insert_node n >> token in
      Ensures-bind (insert_account (new_account f.billing_account_id name now)) (λ _. node) db
        (insert_account-Tables _ db)
        λ _ d1 h1.
          Ensures-bind (insert_node n) (λ _. token) d1 (insert_node-Tables n nodes tokens d1 h1)
            λ _ d2 h2.
              Ensures-bind (insert_token t) (λ _. log) d2
                (insert_token-Tables t (n ∷ nodes) tokens d2 h2.0)
                λ _ d3 h3.
                  Ensures-weaken (log_ownership-Tables _ (n ∷ nodes) (t ∷ tokens) d3 h3)
                    λ d4 h4. (h4, h2.1)

  -- With no active credential before, the enrolment's is the owner's only one.
  pub enroll_writes-IsSound :
      (f : Fresh) (owner name profile : String) (now : Time) (db : Db)
      → IsSound db
      → active_count owner db ≡ 0
      → Ensures IsSound (enroll_writes host f owner name profile now db)
  enroll_writes-IsSound f owner name profile now db s none_active =
      let n = enrolled_node f owner name profile now in
      let t = enrolled_token host f name now in
      let nodes = db.provider_nodes in
      Ensures-weaken (enroll_writes-Tables f owner name profile now db) λ db' h.
        IsSound-Tables (n ∷ nodes) (t ∷ db.provider_tokens) db'
          (inl (refl, ground arith), IsLinked-new_node n nodes db.provider_tokens s.linked)
          (λ o. omega (
            arith,
            active_after o n t nodes db.provider_tokens refl (ground arith) h.1 s.linked none_active
                (s.one_active o),
          ))
          h.0
