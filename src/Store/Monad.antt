-- ===== src/Store/Monad.antt =====
-- Operations of the store as transactions: `serialized_write` and `_ownership_write` run the
-- whole method under the lock and commit it once, or roll all of it back when it raises.
use inference_exchange.Prelude.{
  ℕ, String, Bool, true, false, Option, none, some, ◌≡◌, refl, if◌then◌else◌,
}
use inference_exchange.Store.Schema.{Db}

pub data Error : Type 0 where
  -- `sqlite3.IntegrityError`: a primary key, UNIQUE or foreign key constraint fails
  integrity : Error
  -- `ProviderOwnershipError(message, status_code)`
  ownership : String → ℕ → Error
  -- `ProviderNodesExist`
  nodes_exist : Error
  -- `ValueError`
  value_error : Error

pub data Result {ℓ} (A : Type ℓ) : Type ℓ where
  ok : A → Result A
  raised : Error → Result A

-- A write that raises hands no database back: the caller's is the one before the call.
abbrev pub Write : Type 0 → Type 0
Write A = Db → Result (A × Db)

infixl 5 ◌>>=◌ ◌>>◌
abbrev pub ◌>>=◌ : {A B : Type 0} → Write A → (A → Write B) → Write B
◌>>=◌ m f db = elim (m db) [ ok (a, db') ↦ f a db' | raised e ↦ raised e ]

abbrev pub ◌>>◌ : {A B : Type 0} → Write A → Write B → Write B
m >> k = m >>= λ _. k

abbrev pub done : {A : Type 0} → A → Write A
done a db = ok (a, db)

abbrev pub raise : {A : Type 0} → Error → Write A
raise e db = raised e

abbrev pub raise_if : Bool → Error → Write (Unit {0})
raise_if true e db = raised e
raise_if false e db = ok (tt, db)

abbrev pub or_raise : {A : Type 0} → Option A → Error → Write A
or_raise none e db = raised e
or_raise (some a) e db = ok (a, db)

abbrev pub read : {A : Type 0} → (Db → A) → Write A
read f db = ok (f db, db)

abbrev pub execute : (Db → Db) → Write (Unit {0})
execute f db = ok (tt, f db)

-- The database after a call: an exception rolls back.
abbrev pub after : {A : Type 0} → Db → Result (A × Db) → Db
after db (ok (a, db')) = db'
after db (raised e) = db

-- What a successful run leaves behind.
pub data Ensures {A : Type 0} (P : Db → Type 0) : Result (A × Db) → Type 0 where
  success : {a : A} {db : Db} → P db → Ensures P (ok (a, db))
  failure : {e : Error} → Ensures P (raised e)

pub Ensures-bind :
    {A B : Type 0} {Q P : Db → Type 0} (m : Write A) (f : A → Write B) (db : Db)
    → Ensures Q (m db)
    → ((a : A) (db' : Db) → Q db' → Ensures P (f a db'))
    → Ensures P ((m >>= f) db)
Ensures-bind {A} {B} {Q} {P} m f db h g = go (m db) h
  where
    go :
        (r : Result (A × Db))
        → Ensures Q r
        → Ensures P
            (elim r as (λ _. Result (B × Db)) [ ok (a, db') ↦ f a db' | raised e ↦ raised e ])
    go _ (success {a = a} {db = db'} q) = g a db' q
    go _ failure = failure

pub Ensures-weaken :
    {A : Type 0} {Q P : Db → Type 0} {r : Result (A × Db)}
    → Ensures Q r
    → ((db : Db) → Q db → P db)
    → Ensures P r
Ensures-weaken (success {db = db} q) h = success (h db q)
Ensures-weaken failure h = failure

-- A property of the database survives a call that ensures it: a failed call is rolled back.
pub Ensures-after :
    {A : Type 0} {P : Db → Type 0} (db : Db) {r : Result (A × Db)}
    → P db
    → Ensures P r
    → P (after db r)
Ensures-after db h (success q) = q
Ensures-after db h failure = h

-- A guard that raises: the rest runs only where the test fails.
pub Ensures-guard :
    {A : Type 0} {P : Db → Type 0} (b : Bool) (e : Error) (r : Result (A × Db))
    → (b ≡ false → Ensures P r)
    → Ensures P (if b then raised e else r)
Ensures-guard true e r h = failure
Ensures-guard false e r h = h refl
