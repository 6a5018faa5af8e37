-- ===== src/Store/Billing/Ledger.antt =====
-- The money of inference_exchange/coordinator/store.py: what a charge does to balances, to the
-- running totals of the accounts, and to the transaction log.
use inference_exchange.Prelude.{
  ℤ, pos, negsuc, ◌+ℤ◌, ◌-ℤ◌, ◌*ℤ◌, ◌≤ℤ◌, max_ℤ, floor_div, ◌≤◌, ◌≡◌, refl, int_laws, String, List,
  [], ◌∷◌, ◌==◌, if◌then◌else◌, any, count, sum, total, update, text_eq, arith, Bool-cases, ◌∙◌,
  total-update_absent, +ℤ_comm, ap, String_discrete, inl, inr, sum-update_none, sum-update_one,
  total-update_one, count-update, any-count, count-any,
}
use inference_exchange.Store.Schema.{Account, Db, Time, starting_balance}
use inference_exchange.Store.Accounts.{ensure_account, has_account}
use inference_exchange.Store.Billing.{
  Charge, Costs, split_costs, post_charge, update_account, debit, credit,
}

-- `account_id` is the primary key.
abbrev pub AccountsDistinct : Db → Type 0
AccountsDistinct db = (id : String) → count (λ a. a.account_id == id) db.accounts ≤ 1

-- The column sums that the ledger keeps for an identity, and what the log says of it.
abbrev pub earned_column : String → Db → ℤ
earned_column id db = sum (λ a. a.account_id == id) (λ a. a.total_earned_micro) db.accounts

abbrev pub earned_log : String → Db → ℤ
earned_log id db = sum (λ t. t.provider_id == id) (λ t. t.provider_earning_micro) db.transactions

abbrev pub balances : Db → ℤ
balances db = total (λ a. a.balance_micro) db.accounts

-- The fee on an amount, and what it leaves.
abbrev fee_of : ℤ → ℤ
fee_of t = floor_div (t *ℤ pos 10) 100

fee_of_bounds :
    (t : ℤ)
    → pos 100 ≤ℤ t
    → (fee_of t +ℤ (t -ℤ fee_of t) ≡ t)
      × (pos 10 ≤ℤ fee_of t)
      × (fee_of t *ℤ pos 10 ≤ℤ t)
      × (t *ℤ pos 9 ≤ℤ (t -ℤ fee_of t) *ℤ pos 10)
unfolding ◌*ℤ◌ ◌-ℤ◌ ◌+ℤ◌
fee_of_bounds (pos n) h = (ground arith, ground arith, ground arith, ground arith)
fee_of_bounds (negsuc n) h = absurd (omega arith)

max_min_charge : (t : ℤ) → (pos 100 ≤ℤ max_ℤ t (pos 100)) × (t ≤ℤ max_ℤ t (pos 100))
max_min_charge t = ground arith

-- For any input, cache and output costs: fee and earning add up to the total, the total is at
-- least 100 and at least the sum of the parts, the fee is at least 10 and at most a tenth of the
-- total, and the provider keeps nine tenths or more.
pub split_costs_lem :
    (i c o : ℤ)
    → let k = split_costs i c o in
      (k.platform_fee +ℤ k.provider_earning ≡ k.total_cost)
      × (pos 100 ≤ℤ k.total_cost)
      × (i +ℤ c +ℤ o ≤ℤ k.total_cost)
      × (pos 10 ≤ℤ k.platform_fee)
      × (k.platform_fee *ℤ pos 10 ≤ℤ k.total_cost)
      × (k.total_cost *ℤ pos 9 ≤ℤ k.provider_earning *ℤ pos 10)
unfolding split_costs
split_costs_lem i c o =
    let m = max_min_charge (i +ℤ c +ℤ o) in
    let f = fee_of_bounds (max_ℤ (i +ℤ c +ℤ o) (pos 100)) m.0 in (f.0, m.0, m.1, f.1, f.2, f.3)

-- The account of the provider is there, once, when the credit is made.
ensure-count :
    (id name : String) (now : Time) (db : Db)
    → AccountsDistinct db
    → count (λ a. a.account_id == id) (ensure_account id name now db).accounts ≡ 1
unfolding ensure_account
ensure-count id name now db h = elim (Bool-cases (has_account id db)) [
  | inl old ↦ rw old (omega (arith, h id, count-any (λ a. a.account_id == id) db.accounts old))
  | inr new ↦ rw new (ground (arith, any-count (λ a. a.account_id == id) db.accounts new))
]

ensure-earned :
    (id name j : String) (now : Time) (db : Db)
    → earned_column j (ensure_account id name now db) ≡ earned_column j db
unfolding ensure_account
ensure-earned id name j now db = grind (int_laws)

ensure-AccountsDistinct :
    (id name : String) (now : Time) (db : Db)
    → AccountsDistinct db
    → AccountsDistinct (ensure_account id name now db)
unfolding ensure_account
ensure-AccountsDistinct id name now db h j =
    ground (arith, h j, any-count (λ a. a.account_id == id) db.accounts)

debit-earned :
    (id j : String) (k t : ℤ) (db : Db)
    → earned_column j (update_account id (debit k t) db) ≡ earned_column j db
debit-earned id j k t db = sum-update_none _ _ _ (debit k t) db.accounts (λ a. refl) (λ a p q. refl)

update-AccountsDistinct :
    (id : String) (f : Account → Account) (db : Db)
    → ((a : Account) → (f a).account_id ≡ a.account_id)
    → AccountsDistinct db
    → AccountsDistinct (update_account id f db)
update-AccountsDistinct id f db keep h j = omega (
  arith,
  h j,
  count-update (λ a. a.account_id == j) (λ a. a.account_id == id) f db.accounts
      (λ a. ap (λ i. i == j) (keep a)),
)

-- With the provider's row there once, a credit moves its column by the earning, and no other's.
credit-earned :
    (id j : String) (e : ℤ) (db : Db)
    → count (λ a. a.account_id == id) db.accounts ≡ 1
    → earned_column j (update_account id (credit e) db)
      ≡ (if id == j then e +ℤ earned_column j db else earned_column j db)
credit-earned id j e db h = elim (String_discrete id j) [
  | yes same ↦ ground (
    arith,
    same,
    sum-update_one (λ a. a.account_id == id) (λ a. a.total_earned_micro) (credit e) e db.accounts
        (λ a. refl) (λ a. refl) h,
    +ℤ_comm e (earned_column id db),
  )
  | no other ↦ ground (
    arith,
    other,
    sum-update_none (λ a. a.account_id == j) (λ a. a.total_earned_micro) (λ a. a.account_id == id)
        (credit e) db.accounts (λ a. refl) (λ a p q. absurd (other (ground arith))),
  )
]

-- Every account's `total_earned_micro` moves by exactly the earning that the log row records.
pub earned-post_charge :
    (c : Charge) (k : Costs) (now : Time) (db : Db) (id : String)
    → AccountsDistinct db
    → earned_column id db ≡ earned_log id db
    → earned_column id (post_charge c k now db) ≡ earned_log id (post_charge c k now db)
unfolding post_charge
earned-post_charge c k now db id u h =
    let d =
      update_account c.consumer_id (debit k.total_cost (c.input_tokens +ℤ c.output_tokens)) db in
    let e = ensure_account c.provider_id c.provider_id now d in
    ground (
      arith,
      h,
      debit-earned c.consumer_id id k.total_cost (c.input_tokens +ℤ c.output_tokens) db,
      ensure-earned c.provider_id c.provider_id id now d,
      credit-earned c.provider_id id k.provider_earning e (
          ensure-count c.provider_id c.provider_id now d
            (update-AccountsDistinct c.consumer_id _ db (λ a. refl) u)),
    )

-- A charge never makes two accounts share an id where none did before.
pub post_charge-AccountsDistinct :
    (c : Charge) (k : Costs) (now : Time) (db : Db)
    → AccountsDistinct db
    → AccountsDistinct (post_charge c k now db)
unfolding post_charge
post_charge-AccountsDistinct c k now db u =
    let d =
      update_account c.consumer_id (debit k.total_cost (c.input_tokens +ℤ c.output_tokens)) db in
    let e = ensure_account c.provider_id c.provider_id now d in
    update-AccountsDistinct c.provider_id (credit k.provider_earning) e (λ a. refl)
      (ensure-AccountsDistinct c.provider_id c.provider_id now d
        (update-AccountsDistinct c.consumer_id _ db (λ a. refl) u))

-- What a debit takes out of the sum of balances: nothing where the consumer has no account.
debit-balances :
    (id : String) (k t : ℤ) (db : Db)
    → AccountsDistinct db
    → balances (update_account id (debit k t) db) +ℤ (if has_account id db then k else pos 0)
      ≡ balances db
debit-balances id k t db u = elim (Bool-cases (has_account id db)) [
  | inl known ↦ rw known (
      grind (
        int_laws,
        u id,
        count-any (λ a. a.account_id == id) db.accounts known,
        total-update_one (λ a. a.account_id == id) (λ a. a.balance_micro) (debit k t) (pos 0 -ℤ k)
            db.accounts (λ a. omega int_laws),
      ))
  | inr missing ↦ rw missing (
      grind (
        int_laws,
        total-update_absent (λ a. a.account_id == id) (λ a. a.balance_micro) (debit k t) db.accounts
            (any-count (λ a. a.account_id == id) db.accounts missing),
      ))
]

ensure-balances :
    (id name : String) (now : Time) (db : Db)
    → balances (ensure_account id name now db)
      ≡ balances db +ℤ (if has_account id db then pos 0 else starting_balance)
unfolding ensure_account
ensure-balances id name now db = elim (Bool-cases (has_account id db)) [
  | inl known ↦ rw known (omega int_laws)
  | inr missing ↦ rw missing (omega int_laws)
]

pub any-update :
    (id j : String) (f : Account → Account) (rows : List Account)
    → ((a : Account) → (f a).account_id ≡ a.account_id)
    → any (λ a. a.account_id == id) (update (λ a. a.account_id == j) f rows)
      ≡ any (λ a. a.account_id == id) rows
any-update id j f [] keep = refl
any-update id j f (a ∷ rows) keep = ground (arith, keep a, any-update id j f rows keep)

balance_chain :
    (credited ensured debited before cost start earning : ℤ)
    → credited ≡ ensured +ℤ earning
    → ensured ≡ debited +ℤ start
    → debited +ℤ cost ≡ before
    → credited +ℤ cost ≡ before +ℤ start +ℤ earning
balance_chain credited ensured debited before cost start earning p q r =
    rw (p, q, ← r) (omega int_laws)

-- The only money a charge takes out of the sum of balances is the platform's fee, if the consumer
-- has an account; the starting credit of a new provider account is the only money it adds. Where
-- the consumer has no account nobody is debited, and the earning is new money.
pub balances-post_charge :
    (c : Charge) (k : Costs) (now : Time) (db : Db)
    → AccountsDistinct db
    → balances (post_charge c k now db)
        +ℤ (if has_account c.consumer_id db then k.total_cost else pos 0)
      ≡ balances db
        +ℤ (if has_account c.provider_id db then pos 0 else starting_balance)
        +ℤ k.provider_earning
unfolding post_charge
balances-post_charge c k now db u =
    let t = c.input_tokens +ℤ c.output_tokens in
    let d = update_account c.consumer_id (debit k.total_cost t) db in
    let ud = update-AccountsDistinct c.consumer_id _ db (λ a. refl) u in
    let e = ensure_account c.provider_id c.provider_id now d in
    let s1 = debit-balances c.consumer_id k.total_cost t db u in
    let s2 = ensure-balances c.provider_id c.provider_id now d in
    let s3 =
      any-update c.provider_id c.consumer_id (debit k.total_cost t) db.accounts (λ a. refl) in
    let s4 =
      total-update_one (λ a. a.account_id == c.provider_id) (λ a. a.balance_micro)
        (credit k.provider_earning) k.provider_earning e.accounts (λ a. refl)
        (ensure-count c.provider_id c.provider_id now d ud) in
    balance_chain _ _ _ _ _ _ _ s4
      (s2 ∙ ap (λ b. balances d +ℤ (if b then pos 0 else starting_balance)) s3) s1
