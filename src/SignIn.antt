-- ===== src/SignIn.antt =====
-- Who a request comes from, in inference_exchange/coordinator/routes_auth.py.
use inference_exchange.Prelude.{
  Host, ℕ, ◌*◌, ◌≤◌, ltb, ◌≡◌, refl, sym, ◌∙◌, subst, String, Bool, true, not, ◌&&◌, Option, none,
  some, List, [], ◌∷◌, ◌==◌, text_eq, nat_eq, if◌then◌else◌, is_none, arith, Option-cases,
  Bool-cases, inl, inr, In, first, ◌⊎◌, ap,
}
use text.Mathlib.Text.{starts_with}
use Prim.Native.String.{◌++◌ as ◌<>◌}
use inference_exchange.Store.Schema.{Db, Time, ApiKey, second}
use inference_exchange.Store.Accounts.{validate_key, default_consumer_id, key_prefix}
use inference_exchange.Store.Users.{get_suspension, get_session_version, Suspension}

-- What the routes read of a request; a header or cookie that is missing is the empty text.
pub record Headers : Type 0 where
  pub session_cookie : String
  pub authorization : String

-- The payload of a session token, with `exp` in seconds. An entry that is missing is "" or 0.
pub record Session : Type 0 where
  pub user_id : String
  pub version : ℕ
  pub exp : ℕ

-- What `verify_jwt` calls of the libraries.
pub record Jwt : Type 0 where
  -- `token.split(".")`
  pub split_dots : String → List String
  -- `_b64url(hmac.new(_JWT_SECRET.encode(), text.encode(), hashlib.sha256).digest())`
  pub signature : String → String
  -- `json.loads(_b64url_decode(body))`, with `none` where it raises
  pub decode_payload : String → Option Session

-- The consumer's id, or the exception that is raised.
pub data Caller : Type 0 where
  caller_is : String → Caller
  invalid_credentials : Caller
  account_suspended : Suspension → Caller

module _ (host : Host) (jwt : Jwt) where
  open host use {lower, strip, slice_from}

  -- `verify_jwt`, on the parts of the token.
  unfoldable verify_parts : Time → List String → Option Session
  verify_parts now [] = none
  verify_parts now (header ∷ []) = none
  verify_parts now (header ∷ body ∷ []) = none
  verify_parts now (header ∷ body ∷ sig ∷ []) =
      if sig == jwt.signature (header <> ("." <> body))
      then elim (jwt.decode_payload body) [
        | none ↦ none
        | some s ↦ if ltb (s.exp * second) now then none else some s
      ]
      else none
  verify_parts now (header ∷ body ∷ sig ∷ part ∷ parts) = none

  unfoldable verify_jwt : String → Time → Option Session
  unfolding verify_parts
  verify_jwt token now = verify_parts now (jwt.split_dots token)

  -- A token of three parts, the third of which signs the others, with a payload that has not
  -- expired.
  abbrev pub Verified : String → Time → Session → Type 0
  Verified token now s =
      (header : String) × (body : String) × (jwt.split_dots token
        ≡ header ∷ body ∷ jwt.signature (header <> ("." <> body)) ∷ [])
      × (jwt.decode_payload body ≡ some s)
      × (now ≤ s.exp * second)

  -- The token that `resolve_user_from_request` reads.
  unfoldable pub session_token : Headers → String
  session_token r =
      if not (r.session_cookie == "")
      then r.session_cookie
      else if starts_with (lower r.authorization) "bearer "
          && not (starts_with (slice_from 7 r.authorization) "sk-ie-")
      then slice_from 7 r.authorization
      else ""

  unfoldable pub resolve_user : Headers → Time → Db → Option String
  unfolding session_token verify_jwt
  resolve_user r now db =
      if session_token r == "" then none else elim (verify_jwt (session_token r) now) [
        | none ↦ none
        | some s ↦ elim (get_session_version s.user_id db) [
          | none ↦ none
          | some v ↦ if s.version == v then some s.user_id else none
        ]
      ]

  unfoldable pub check_not_suspended : String → Time → Db → Caller
  check_not_suspended id now db = elim (get_suspension id now db) [
    | none ↦ caller_is id
    | some s ↦ account_suspended s
  ]

  -- The API key in an authorization header.
  abbrev pub credential : String → String
  credential authorization =
      if starts_with (lower authorization) "bearer "
      then strip (slice_from 7 authorization)
      else authorization

  -- The end of `resolve_caller`, for a credential that is an API key.
  unfoldable pub resolve_key : String → Time → Db → Caller × Db
  resolve_key raw now db =
      let (row, db') = validate_key host raw now db in
      elim row [
        | none ↦ (invalid_credentials, db')
        | some k ↦ (check_not_suspended k.consumer_id now db', db')
      ]

  -- `resolve_caller`, with the database after the key's counters are updated.
  unfoldable pub resolve_caller : Headers → Time → Db → Caller × Db
  resolve_caller r now db = elim (resolve_user r now db) [
    | some id ↦ (check_not_suspended id now db, db)
    | none ↦
        if strip r.authorization == ""
        then (if r.session_cookie == ""
            then (caller_is default_consumer_id, db)
            else (invalid_credentials, db))
        else resolve_key (credential (strip r.authorization)) now db
  ]

  -- A session of the account's present version, or an API key of it that is not revoked.
  pub data Authenticated (r : Headers) (now : Time) (db : Db) (id : String) : Type 0 where
    by_session :
        (s : Session)
        → Verified (session_token r) now s
        → s.user_id ≡ id
        → get_session_version id db ≡ some s.version
        → Authenticated r now db id
    by_key :
        (k : ApiKey)
        → In k db.api_keys
        → k.key_hash ≡ host.sha256 (credential (strip r.authorization))
        → k.revoked_at ≡ none
        → k.consumer_id ≡ id
        → Authenticated r now db id

  -- How a caller may be known.
  abbrev pub Known : Headers → Time → Db → Caller → Type 0
  Known r now db (caller_is id) =
      ((id ≡ default_consumer_id) × (strip r.authorization ≡ "") × (r.session_cookie ≡ ""))
      ⊎ ((get_suspension id now db ≡ none) × Authenticated r now db id)
  Known r now db invalid_credentials = Unit
  Known r now db (account_suspended s) =
      (id : String) × (get_suspension id now db ≡ some s) × Authenticated r now db id

  check_not_suspended-Known :
      (r : Headers) (now : Time) (db db' : Db) (id : String)
      → get_suspension id now db' ≡ get_suspension id now db
      → Authenticated r now db id
      → Known r now db (check_not_suspended id now db')
  unfolding check_not_suspended
  check_not_suspended-Known r now db db' id same a =
      elim (Option-cases (get_suspension id now db')) [
        | inl e ↦ rw (e, check_not_suspended) (inr (sym same ∙ e, a))
        | inr (s, e) ↦ rw (e, check_not_suspended) (id, sym same ∙ e, a)
      ]

  first_passes :
      (p : ApiKey → Bool) (ks : List ApiKey) (k : ApiKey)
      → first p ks ≡ some k
      → In k ks × (p k ≡ true)
  first_passes p [] k h = absurd (cc h)
  first_passes p (x ∷ ks) k h = elim (Bool-cases (p x)) [
    | inl e ↦
        let q : some x ≡ some k = rw e at h in
        let same : x ≡ k = cc q in (inl same, subst (λ y. p y ≡ true) same e)
    | inr e ↦ let (m, f) = first_passes p ks k (rw e at h) in (inr m, f)
  ]

  verify_parts-Verified :
      (now : Time) (parts : List String) (s : Session)
      → verify_parts now parts ≡ some s
      → (header : String) × (body : String) × (parts
          ≡ header ∷ body ∷ jwt.signature (header <> ("." <> body)) ∷ [])
        × (jwt.decode_payload body ≡ some s)
        × (now ≤ s.exp * second)
  unfolding verify_parts
  verify_parts-Verified now [] s h = absurd (cc h)
  verify_parts-Verified now (a ∷ []) s h = absurd (cc h)
  verify_parts-Verified now (a ∷ b ∷ []) s h = absurd (cc h)
  verify_parts-Verified now (a ∷ b ∷ c ∷ d ∷ ps) s h = absurd (cc h)
  verify_parts-Verified now (header ∷ body ∷ sig ∷ []) s h =
      elim (Bool-cases (sig == jwt.signature (header <> ("." <> body)))) [
        | inr forged ↦ absurd (let k : none ≡ some s = rw forged at h in cc k)
        | inl signed ↦ elim (Option-cases (jwt.decode_payload body)) [
          | inl e ↦ absurd (let k : none ≡ some s = rw (signed, e) at h in cc k)
          | inr (t, e) ↦ elim (Bool-cases (ltb (t.exp * second) now)) [
            | inl late ↦ absurd (let k : none ≡ some s = rw (signed, e, late) at h in cc k)
            | inr fresh ↦
                let k : some t ≡ some s = rw (signed, e, fresh) at h in
                let same : t ≡ s = cc k in
                let genuine : sig ≡ jwt.signature (header <> ("." <> body)) =
                  ground (arith, signed) in
                (
                  header,
                  body,
                  ap (λ g. header ∷ body ∷ g ∷ []) genuine,
                  e ∙ ap some same,
                  subst (λ z. now ≤ z.exp * second) same (ground (arith, fresh)),
                )
          ]
        ]
      ]

  resolve_user-by_session :
      (r : Headers) (now : Time) (db : Db) (id : String)
      → resolve_user r now db ≡ some id
      → Authenticated r now db id
  unfolding resolve_user
  resolve_user-by_session r now db id h = elim (Bool-cases (session_token r == "")) [
    | inl empty ↦ absurd (let k : none ≡ some id = rw (empty, resolve_user) at h in cc)
    | inr given ↦ elim (Option-cases (verify_jwt (session_token r) now)) [
      | inl e ↦ absurd (let k : none ≡ some id = rw (given, e, resolve_user) at h in cc)
      | inr (s, e) ↦ elim (Option-cases (get_session_version s.user_id db)) [
        | inl f ↦ absurd (let k : none ≡ some id = rw (given, e, f, resolve_user) at h in cc)
        | inr (v, f) ↦ elim (Bool-cases (s.version == v)) [
          | inl same ↦
              let k : some s.user_id ≡ some id = rw (given, e, f, same, resolve_user) at h in
              let owner : s.user_id ≡ id = cc k in
              let current : s.version ≡ v = ground (arith, same) in
              by_session s (verify_parts-Verified now (jwt.split_dots (session_token r)) s e) owner
                (subst (λ i. get_session_version i db ≡ some s.version) owner
                  (f ∙ ap some (sym current)))
          | inr stale ↦
              absurd (let k : none ≡ some id = rw (given, e, f, stale, resolve_user) at h in cc)
        ]
      ]
    ]
  ]

  validate_key-live :
      (raw : String) (now : Time) (db : Db) (k : ApiKey)
      → (validate_key host raw now db).0 ≡ some k
      → In k db.api_keys × (k.key_hash ≡ host.sha256 raw) × (k.revoked_at ≡ none)
  unfolding validate_key
  validate_key-live raw now db k h =
      let live : ApiKey → Bool = λ x. (x.key_hash == host.sha256 raw) && is_none x.revoked_at in
      elim (Bool-cases (starts_with raw key_prefix)) [
        | inr odd ↦ absurd (let q : none ≡ some k = rw (odd, validate_key) at h in cc)
        | inl known ↦ elim (Option-cases (first live db.api_keys)) [
          | inl e ↦ absurd (let q : none ≡ some k = rw (known, e, validate_key) at h in cc)
          | inr (row, e) ↦
              let q : some row ≡ some k = rw (known, e, validate_key) at h in
              let same : row ≡ k = cc q in
              let (m, passes) = first_passes live db.api_keys k (e ∙ ap some same) in
              (m, ground (arith, passes), ground (arith, passes))
        ]
      ]

  validate_key-suspension :
      (raw : String) (now later : Time) (db : Db) (id : String)
      → get_suspension id later (validate_key host raw now db).1 ≡ get_suspension id later db
  unfolding validate_key get_suspension
  validate_key-suspension raw now later db id =
      let live : ApiKey → Bool = λ x. (x.key_hash == host.sha256 raw) && is_none x.revoked_at in
      elim (Bool-cases (starts_with raw key_prefix)) [
        | inr odd ↦ rw (odd, validate_key) refl
        | inl known ↦ elim (Option-cases (first live db.api_keys)) [
          | inl e ↦ rw (known, e, validate_key) refl
          | inr (row, e) ↦ rw (known, e, validate_key) refl
        ]
      ]

  resolve_key-Known :
      (r : Headers) (now : Time) (db : Db)
      → Known r now db (resolve_key (credential (strip r.authorization)) now db).0
  unfolding resolve_key
  resolve_key-Known r now db =
      let raw = credential (strip r.authorization) in
      elim (Option-cases (validate_key host raw now db).0) [
        | inl e ↦ rw (e, resolve_key) tt
        | inr (k, e) ↦
            let (m, hash, live) = validate_key-live raw now db k e in
            rw (e, resolve_key)
              (check_not_suspended-Known r now db (validate_key host raw now db).1 k.consumer_id
                (validate_key-suspension raw now now db k.consumer_id) (by_key k m hash live refl))
      ]

  -- A caller who is resolved to an account either sends no credential and no session cookie and is
  -- the anonymous account, or is not suspended and holds a key of the account that is not revoked
  -- or a session token of the account's present version, of three parts, signed over the first two
  -- and not expired; a caller who is refused as suspended holds one of these and is suspended.
  pub resolve_caller-Known :
      (r : Headers) (now : Time) (db : Db) → Known r now db (resolve_caller r now db).0
  unfolding resolve_caller
  resolve_caller-Known r now db = elim (Option-cases (resolve_user r now db)) [
    | inr (id, e) ↦
        rw (e, resolve_caller)
          (check_not_suspended-Known r now db db id refl (resolve_user-by_session r now db id e))
    | inl e ↦ elim (Bool-cases (strip r.authorization == "")) [
      | inl empty ↦ elim (Bool-cases (r.session_cookie == "")) [
        | inl bare ↦
            rw (e, empty, bare, resolve_caller)
              (inl (refl, ground (arith, empty), ground (arith, bare)))
        | inr cookie ↦ rw (e, empty, cookie, resolve_caller) tt
      ]
      | inr given ↦ rw (e, given, resolve_caller) (resolve_key-Known r now db)
    ]
  ]
