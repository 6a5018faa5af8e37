-- ===== src/Store/Providers/Sound.antt =====
-- Proofs about enrolment and claim in inference_exchange/coordinator/store.py.
use text.Mathlib.Text.{starts_with}
use inference_exchange.Prelude.{
  Host, ◌≤◌, ◌≡◌, refl, String, Bool, false, ◌||◌, not, Option, none, some, List, [], ◌∷◌, ◌==◌,
  any, update, count, text_eq, nat_eq, ltb, All, All-update, arith, Bool-cases, inl, inr,
}
use inference_exchange.Store.Schema.{Time, ProviderToken, ProviderNode, Db, issuance_eq}
use inference_exchange.Store.Monad.{
  Error, Result, ok, raised, after, Write, Ensures, success, failure, Ensures-bind, Ensures-after,
  Ensures-guard, ◌>>◌, done,
}
use inference_exchange.Store.Providers.{
  self_service_profile, active_count, Fresh, enroll_writes, enroll_provider_node, enroll_guards,
  insert_node, log_ownership, ownership_action, claim_writes, claim_legacy_provider, link_token,
  claimable, claimed_node,
}
use inference_exchange.Store.Providers.Limits.{
  IsLinked, IsSound, active_in, Tables, IsSound-Tables, enroll_writes-IsSound, insert_node-Tables,
  log_ownership-Tables, of_node-fresh,
}

guards-none :
    (owner : String) (now : Time) (db : Db)
    → enroll_guards owner now db ≡ none
    → active_count owner db ≡ 0
guards-none owner now db h = ground (arith, h)

module _ (host : Host) where
  enroll-checked :
      (f : Fresh) (owner name profile : String) (now : Time) (db : Db) (g : Option Error)
      → enroll_guards owner now db ≡ g
      → IsSound db
      → Ensures {A = String × String × String} IsSound (elim g [
        | some e ↦ raised e
        | none ↦
            (do enroll_writes host f owner name profile now; done (f.node_id, f.token_id, f.raw)) db
      ])
  enroll-checked f owner name profile now db (some e) h s = failure
  enroll-checked f owner name profile now db none h s =
      Ensures-bind (enroll_writes host f owner name profile now)
        (λ _. done (f.node_id, f.token_id, f.raw)) db
        (enroll_writes-IsSound host f owner name profile now db s (guards-none owner now db h))
        (λ _ d h. success h)

  enroll-Ensures :
      (f : Fresh) (owner name profile : String) (now : Time) (db : Db)
      → IsSound db
      → Ensures IsSound (enroll_provider_node host f owner name profile now db)
  unfolding enroll_provider_node
  enroll-Ensures f owner name profile now db s =
      Ensures-guard (not (host.fullmatch "[A-Za-z0-9][A-Za-z0-9 _.-]{0,63}" name)) _ _ λ _.
        Ensures-guard (not (profile == self_service_profile)) _ _
          λ _. enroll-checked f owner name profile now db _ refl s

  -- Where every token names a stored node or none, self-service tokens name one, and no owner has
  -- two active self-service credentials, an enrolment, whether it returns or raises, leaves it so.
  pub enroll_provider_node-IsSound :
      (f : Fresh) (owner name profile : String) (now : Time) (db : Db)
      → IsSound db
      → IsSound (after db (enroll_provider_node host f owner name profile now db))
  enroll_provider_node-IsSound f owner name profile now db s =
      Ensures-after db s (enroll-Ensures f owner name profile now db s)

IsLinked-one :
    (n : ProviderNode) (nodes : List ProviderNode) (t : ProviderToken)
    → IsLinked nodes t
    → IsLinked (n ∷ nodes) t
IsLinked-one n nodes t (inl (a, b)) = inl (a, ground (arith, b))
IsLinked-one n nodes t (inr h) = inr h

-- The tokens that a claim links to its new node are not self-service ones.
claimed-IsLinked :
    (hash : String) (n : ProviderNode) (nodes : List ProviderNode) (tokens : List ProviderToken)
    → All (IsLinked nodes) tokens
    → All
        (IsLinked (n ∷ nodes))
        (update (claimable hash) (λ t. record t { node_id = some n.node_id }) tokens)
claimed-IsLinked hash n nodes tokens h =
    All-update (IsLinked nodes) (IsLinked (n ∷ nodes)) (claimable hash) _ tokens h
      (λ t l e. inl (refl, ground arith)) (λ t l e. IsLinked-one n nodes t l)

claimed-active :
    (owner hash : String) (n : ProviderNode) (nodes : List ProviderNode)
    (tokens : List ProviderToken)
    → any (λ m. m.node_id == n.node_id) nodes ≡ false
    → All (IsLinked nodes) tokens
    → active_in owner
        (n ∷ nodes)
        (update (claimable hash) (λ t. record t { node_id = some n.node_id }) tokens)
      ≡ active_in owner nodes tokens
claimed-active owner hash n nodes [] fresh h = refl
claimed-active owner hash n nodes (t ∷ tokens) fresh (h, hs) =
    ground
      (arith, h, of_node-fresh t n nodes fresh, claimed-active owner hash n nodes tokens fresh hs)

-- Revoking credentials links none and makes none active.
revoked-IsLinked :
    (q : ProviderToken → Bool) (now : Time) (nodes : List ProviderNode)
    (tokens : List ProviderToken)
    → All (IsLinked nodes) tokens
    → All (IsLinked nodes) (update q (λ t. record t { revoked_at = some now }) tokens)
revoked-IsLinked q now nodes tokens h =
    All-update (IsLinked nodes) (IsLinked nodes) q _ tokens h (λ t l e. l) (λ t l e. l)

revoked-active :
    (owner : String) (q : ProviderToken → Bool) (now : Time) (nodes : List ProviderNode)
    (tokens : List ProviderToken)
    → active_in owner nodes (update q (λ t. record t { revoked_at = some now }) tokens)
      ≤ active_in owner nodes tokens
revoked-active owner q now nodes [] = omega arith
revoked-active owner q now nodes (t ∷ tokens) =
    ground (arith, revoked-active owner q now nodes tokens)

pub revoke-IsSound :
    (q : ProviderToken → Bool) (now : Time) (nodes : List ProviderNode)
    (tokens : List ProviderToken) (db : Db)
    → All (IsLinked nodes) tokens
    → ((owner : String) → active_in owner nodes tokens ≤ 1)
    → Tables nodes (update q (λ t. record t { revoked_at = some now }) tokens) db
    → IsSound db
revoke-IsSound q now nodes tokens db linked one h =
    IsSound-Tables nodes _ db (revoked-IsLinked q now nodes tokens linked)
      (λ o. omega (arith, one o, revoked-active o q now nodes tokens)) h

-- Linking the claimable token with its new node, the other table as it is.
link_token-Ensures :
    (hash : String) (n : ProviderNode) (nodes : List ProviderNode) (tokens : List ProviderToken)
    (db : Db)
    → Tables nodes tokens db
    → Ensures
        (Tables nodes (update (claimable hash) (λ t. record t { node_id = some n.node_id }) tokens))
        (link_token hash n.node_id db)
unfolding link_token
link_token-Ensures hash n nodes tokens db (en, et) =
    elim (Bool-cases (count (claimable hash) db.provider_tokens == 1)) [
      | inl e ↦ rw e (success (en, ground (arith, et)))
      | inr e ↦ rw e failure
    ]

claim_writes-Ensures :
    (token : ProviderToken) (node account owner actor reason : String) (now : Time) (db : Db)
    → IsSound db
    → Ensures IsSound (claim_writes token node account owner actor reason now db)
unfolding claim_writes
claim_writes-Ensures token node account owner actor reason now db s =
    let n = claimed_node node owner account token.name now in
    let nodes = db.provider_nodes in
    let tokens = db.provider_tokens in
    let log = log_ownership (ownership_action node account owner actor "claim" reason now) in
    let logged : Write String = log >> done node in
    let linked : Write String = link_token token.token_hash node >> logged in
    Ensures-bind (insert_node n) (λ _. linked) db
      (insert_node-Tables n nodes tokens db (refl, refl))
      λ _ d1 h1.
        Ensures-bind (link_token token.token_hash node) (λ _. logged) d1
          (link_token-Ensures token.token_hash n (n ∷ nodes) tokens d1 h1.0)
          λ _ d2 h2.
            Ensures-bind log (λ _. done node) d2 (log_ownership-Tables _ (n ∷ nodes) _ d2 h2)
              λ _ d3 h3. success (
                IsSound-Tables (n ∷ nodes) _ d3
                  (claimed-IsLinked token.token_hash n nodes tokens s.linked)
                  (λ o. omega (
                    arith,
                    s.one_active o,
                    claimed-active o token.token_hash n nodes tokens h1.1 s.linked,
                  ))
                  h3)

claim-checked :
    (node account owner actor reason : String) (now : Time) (db : Db) (r : Result ProviderToken)
    → IsSound db
    → Ensures {A = String} IsSound (elim r [
      | raised e ↦ raised e
      | ok token ↦ claim_writes token node account owner actor reason now db
    ])
claim-checked node account owner actor reason now db (raised e) s = failure
claim-checked node account owner actor reason now db (ok token) s =
    claim_writes-Ensures token node account owner actor reason now db s

claim-Ensures :
    (host : Host) (node account owner actor reason : String) (now : Time) (db : Db)
    → IsSound db
    → Ensures IsSound (claim_legacy_provider host node account owner actor reason now db)
unfolding claim_legacy_provider
claim-Ensures host node account owner actor reason now db s =
    let why = host.strip reason in
    Ensures-guard ((why == "") || ltb 500 (host.text_length why)) _ _ λ _.
      Ensures-guard (not (starts_with account "provider-acct-")) _ _
        λ _. claim-checked node account owner actor why now db _ s

-- Where every token names a stored node or none, self-service tokens name one, and no owner has
-- two active self-service credentials, a claim of a legacy credential, whether it returns or
-- raises, leaves it so.
pub claim_legacy_provider-IsSound :
    (host : Host) (node account owner actor reason : String) (now : Time) (db : Db)
    → IsSound db
    → IsSound (after db (claim_legacy_provider host node account owner actor reason now db))
claim_legacy_provider-IsSound host node account owner actor reason now db s =
    Ensures-after db s (claim-Ensures host node account owner actor reason now db s)
