-- ===== src/Store/Billing/Effect.antt =====
-- What `charge_request` of inference_exchange/coordinator/store.py does account by account, and
-- how its bill and its log row agree.
use inference_exchange.Prelude.{
  ℤ, suc, Option, pos, ◌+ℤ◌, ◌-ℤ◌, ◌*ℤ◌, ◌≤ℤ◌, ◌≡◌, ◌≢◌, refl, String, some, List, [], ◌∷◌, ◌==◌,
  if◌then◌else◌, first, any, true, ◌∙◌, update, text_eq, arith, Floats,
}
use mathlib.Core.Option
use inference_exchange.Store.Schema.{Account, Transaction, Db, Time, starting_balance}
use inference_exchange.Store.Accounts.{get_account, has_account}
use inference_exchange.Store.Billing.{
  Charge, Costs, post_charge, charge_request, request_costs, debit, credit, transaction_row,
  next_id, split_costs,
}
use inference_exchange.Store.Billing.Ledger.{
  split_costs_lem, AccountsDistinct, earned_column, earned_log, earned-post_charge, balances,
  balances-post_charge, any-update,
}

first-update :
    (id j : String) (f : Account → Account) (rows : List Account)
    → ((a : Account) → (f a).account_id ≡ a.account_id)
    → first (λ a. a.account_id == j) (update (λ a. a.account_id == id) f rows) ≡ (
        if id == j
        then Option.map f (first (λ a. a.account_id == j) rows)
        else first (λ a. a.account_id == j) rows)
first-update id j f [] keep = ground arith
first-update id j f (a ∷ rows) keep = ground (arith, keep a, first-update id j f rows keep)

any-first :
    (j : String) (rows : List Account) (a : Account)
    → first (λ b. b.account_id == j) rows ≡ some a
    → any (λ b. b.account_id == j) rows ≡ true
any-first j [] a h = cc
any-first j (b ∷ rows) a h = ground (arith, any-first j rows a)

-- One account after a charge whose provider has an account.
get_account-post_charge :
    (c : Charge) (k : Costs) (now : Time) (db : Db) (b : Account) (j : String)
    → get_account c.provider_id db ≡ some b
    → get_account j (post_charge c k now db) ≡ (
        let old =
          if c.consumer_id == j
          then Option.map
              (debit k.total_cost (c.input_tokens +ℤ c.output_tokens))
              (get_account j db)
          else get_account j db in
        if c.provider_id == j then Option.map (credit k.provider_earning) old else old)
unfolding post_charge get_account
get_account-post_charge c k now db b j hb =
    let f = debit k.total_cost (c.input_tokens +ℤ c.output_tokens) in
    let rows = update (λ a. a.account_id == c.consumer_id) f db.accounts in
    let known =
      any-update c.provider_id c.consumer_id f db.accounts (λ a. refl)
      ∙ any-first c.provider_id db.accounts b hb in
    rw known (
      first-update c.provider_id j (credit k.provider_earning) rows (λ a. refl)
      ∙ rw (first-update c.consumer_id j f db.accounts (λ a. refl)))

-- What a consumer's row is after a charge.
abbrev pub Debits : Account → ℤ → ℤ → Option Account → Type 0
Debits a cost tokens found =
    (a' : Account) × (found ≡ some a')
    × (a'.balance_micro ≡ a.balance_micro -ℤ cost)
    × (a'.total_spent_micro ≡ a.total_spent_micro +ℤ cost)
    × (a'.requests_made ≡ suc a.requests_made)
    × (a'.tokens_consumed ≡ a.tokens_consumed +ℤ tokens)
    × (a'.total_earned_micro ≡ a.total_earned_micro)
    × (a'.account_id ≡ a.account_id)

-- What a provider's row is after a charge.
abbrev pub Credits : Account → ℤ → Option Account → Type 0
Credits b earning found =
    (b' : Account) × (found ≡ some b')
    × (b'.balance_micro ≡ b.balance_micro +ℤ earning)
    × (b'.total_earned_micro ≡ b.total_earned_micro +ℤ earning)
    × (b'.total_spent_micro ≡ b.total_spent_micro)
    × (b'.requests_made ≡ b.requests_made)
    × (b'.tokens_consumed ≡ b.tokens_consumed)
    × (b'.account_id ≡ b.account_id)

-- A charge between two different accounts that both exist takes the total cost from the consumer's
-- balance, adds it to the total spent, counts one request more and adds the tokens; it adds the
-- earning to the provider's balance and earned total; the other amounts of the two stay, and no
-- third account changes.
pub post_charge_lem :
    (c : Charge) (k : Costs) (now : Time) (db : Db) (a b : Account)
    → c.consumer_id ≢ c.provider_id
    → get_account c.consumer_id db ≡ some a
    → get_account c.provider_id db ≡ some b
    → let db' = post_charge c k now db in
      Debits a k.total_cost (c.input_tokens +ℤ c.output_tokens) (get_account c.consumer_id db')
      × Credits b k.provider_earning (get_account c.provider_id db')
      × ((j : String)
          → j ≢ c.consumer_id
          → j ≢ c.provider_id
          → get_account j db' ≡ get_account j db)
post_charge_lem c k now db a b ne ha hb = (
  (
    debit k.total_cost (c.input_tokens +ℤ c.output_tokens) a,
    ground (arith, ne, ha, get_account-post_charge c k now db b c.consumer_id hb),
    refl,
    refl,
    refl,
    refl,
    refl,
    refl,
  ),
  (
    credit k.provider_earning b,
    ground (arith, ne, hb, get_account-post_charge c k now db b c.provider_id hb),
    refl,
    refl,
    refl,
    refl,
    refl,
    refl,
  ),
  λ j nc np. ground (arith, nc, np, get_account-post_charge c k now db b j hb),
)

module _ (fl : Floats) where
  open fl use {Float}

  -- The fee and the earning of a bill add up to its cost, which is at least 100 micro-dollars;
  -- nine tenths of the cost or more go to the provider; and exactly one transaction is logged,
  -- with the bill's amounts and the request's identities.
  pub charge_request_lem :
      (c : Charge) (pi po pc : Float) (now : Time) (db : Db)
      → let (bill, db') = charge_request fl c pi po pc now db in
        (bill.platform_fee_micro +ℤ bill.provider_earning_micro ≡ bill.cost_micro)
        × (pos 100 ≤ℤ bill.cost_micro)
        × (bill.cost_micro *ℤ pos 9 ≤ℤ bill.provider_earning_micro *ℤ pos 10)
        × ((t : Transaction) × (db'.transactions ≡ t ∷ db.transactions)
            × (t.cost_micro ≡ bill.cost_micro)
            × (t.provider_earning_micro ≡ bill.provider_earning_micro)
            × (t.platform_fee_micro ≡ bill.platform_fee_micro)
            × (t.request_id ≡ c.request_id)
            × (t.consumer_id ≡ c.consumer_id)
            × (t.provider_id ≡ c.provider_id))
  unfolding charge_request request_costs post_charge split_costs
  charge_request_lem c pi po pc now db =
      let k = request_costs fl c.input_tokens c.output_tokens c.cached_tokens pi po pc in
      let s = split_costs_lem k.input_cost k.cache_cost k.output_cost in
      (
        s.0,
        s.1,
        s.5,
        (
          transaction_row (next_id db.transactions) c k now,
          refl,
          refl,
          refl,
          refl,
          refl,
          refl,
          refl,
        ),
      )

  -- Where account ids are distinct, a charge changes the sum of all balances by the earning that
  -- it pays and by the starting credit of a provider account that it opens, less the cost where
  -- the consumer has an account.
  pub charge_request-balances :
      (c : Charge) (pi po pc : Float) (now : Time) (db : Db)
      → AccountsDistinct db
      → let (bill, db') = charge_request fl c pi po pc now db in
        balances db' +ℤ (if has_account c.consumer_id db then bill.cost_micro else pos 0)
        ≡ balances db
          +ℤ (if has_account c.provider_id db then pos 0 else starting_balance)
          +ℤ bill.provider_earning_micro
  unfolding charge_request
  charge_request-balances c pi po pc now db u =
      balances-post_charge c
        (request_costs fl c.input_tokens c.output_tokens c.cached_tokens pi po pc) now db u

  -- Where account ids are distinct and an account's earned total equals the sum of its earnings in
  -- the transaction log, a charge keeps it so.
  pub charge_request-earned :
      (c : Charge) (pi po pc : Float) (now : Time) (db : Db) (id : String)
      → AccountsDistinct db
      → earned_column id db ≡ earned_log id db
      → let db' = (charge_request fl c pi po pc now db).1 in
        earned_column id db' ≡ earned_log id db'
  unfolding charge_request
  charge_request-earned c pi po pc now db id u h =
      earned-post_charge c
        (request_costs fl c.input_tokens c.output_tokens c.cached_tokens pi po pc) now db id u h
