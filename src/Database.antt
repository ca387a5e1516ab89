-- ===== src/Database.antt =====
-- The database as the services use it through the Prisma client. The client and PostgreSQL are not
-- part of the repository: they are the parameter `Client`, of which the laws say what a query writes.
mod Catalog
mod Rows
pub mod Memory
pub mod Returns
pub mod Triples
pub mod Leaves
pub mod Succeeds
unfoldable pub use Catalog.*
unfoldable pub use Rows.*
use ops_marketplace_server.Order
use ops_marketplace_server.Base.{
  ◌≡◌, ◌⊎◌, Bool, true, false, ◌&&◌, if◌then◌else◌, is_some, Option, none, some, List, [], ◌∷◌,
  push, String, ◌==◌, ℤ, ◌+ℤ◌, pos, Result, ok, err, Action, Void, throw, throw_if, pure, ◌>>=◌,
  ◌>>◌,
}

-- A refused create may leave the transaction as it was or given up: PostgreSQL gives it up, and the
-- services are written as if it did not. The commit of a transaction that was given up rolls back;
-- `reports_rollback` says whether the client then throws.
pub record Client : Type 1 where
  pub State : Type 0
  pub seen : State → Tables
  pub reports_rollback : Bool
  pub refused : State → State
  pub put_account : String → Account → State → State
  pub create_account : String → Account → State → State
  pub put_entry : Entry → State → State
  pub put_payout : String → PayoutRow → State → State
  pub put_payment : PaymentRow → State → State
  pub put_order : String → OrderRow → State → State
  pub put_refund : RefundRow → State → State
  pub clear_banks : String → State → State
  pub create_bank : BankRow → State → State
  pub mark_bank : String → State → State
  pub remove_bank : String → State → State
  pub put_goods : Goods → State → State
  pub refused_lem : (s : State) → (refused s ≡ s) ⊎ ((seen (refused s)).is_open ≡ false)
  pub put_account_lem :
      (k : String) (a : Account) (s : State)
      → seen (put_account k a s) ≡ record (seen s) { accounts = put_row k a (seen s).accounts }
  pub create_account_lem :
      (k : String) (a : Account) (s : State)
      → seen (create_account k a s) ≡ record (seen s) {
        accounts = put_row k a (seen s).accounts;
        account_ids = put_index a.owner_id a.type k (seen s).account_ids;
      }
  pub put_entry_lem :
      (e : Entry) (s : State)
      → seen (put_entry e s) ≡ record (seen s) { entries = push (seen s).entries e }
  pub put_payout_lem :
      (k : String) (p : PayoutRow) (s : State)
      → seen (put_payout k p s) ≡ record (seen s) { payouts = put_row k p (seen s).payouts }
  pub put_payment_lem :
      (p : PaymentRow) (s : State)
      → seen (put_payment p s) ≡ record (seen s) { payments = put_payment_row p (seen s).payments }
  pub put_order_lem :
      (k : String) (o : OrderRow) (s : State)
      → seen (put_order k o s) ≡ record (seen s) { orders = put_row k o (seen s).orders }
  pub put_refund_lem :
      (r : RefundRow) (s : State)
      → seen (put_refund r s) ≡ record (seen s) { refunds = put_refund_row r (seen s).refunds }
  pub clear_banks_lem :
      (user : String) (s : State)
      → seen (clear_banks user s)
        ≡ record (seen s) { bank_rows = clear_defaults user (seen s).bank_rows }
  pub create_bank_lem :
      (r : BankRow) (s : State)
      → seen (create_bank r s) ≡ record (seen s) { bank_rows = push (seen s).bank_rows r }
  pub mark_bank_lem :
      (id : String) (s : State)
      → seen (mark_bank id s) ≡ record (seen s) { bank_rows = mark_default id (seen s).bank_rows }
  pub remove_bank_lem :
      (id : String) (s : State)
      → seen (remove_bank id s) ≡ record (seen s) { bank_rows = delete_bank id (seen s).bank_rows }
  pub put_goods_lem : (g : Goods) (s : State) → seen (put_goods g s) ≡ record (seen s) { goods = g }

-- What the services throw, and what the client throws.
pub data Error : Type 0 where
  account_exists account_missing entry_missing payout_missing payment_missing : Error
  order_missing refund_missing shop_missing : Error
  only_sellers bank_account_missing bank_account_is_default amount_not_positive balance_not_ready :
      Error
  balance_insufficient payout_not_pending : Error
  refund_not_requested order_not_paid refund_exists refund_amount_invalid : Error
  payment_not_pending cod_not_processed cod_only payment_id_missing : Error
  webhook_target_missing payment_of_other_shop : Error
  cart_missing cart_item_missing product_missing address_missing user_required : Error
  cart_is_empty product_unavailable not_enough_stock address_required coupon_unavailable : Error
  payment_method_invalid address_unreadable order_not_pending shop_required : Error
  amount_too_large id_empty amount_negative : Error
  order_error : Order.Error → Error
  unique_violation record_missing aborted : Error

-- The row of an entry with these three, which the schema makes unique.
unfoldable pub find_entry : String → String → Category → List Entry → Option Entry
unfolding same_category
find_entry account_id transaction_id category [] = none
find_entry account_id transaction_id category (e ∷ es) =
    if e.account_id == account_id
      && (e.transaction_id == transaction_id && same_category e.category category)
    then some e
    else find_entry account_id transaction_id category es

unfoldable pub find_entry_by_id : String → List Entry → Option Entry
find_entry_by_id id [] = none
find_entry_by_id id (e ∷ es) = if e.id == id then some e else find_entry_by_id id es

module _ (C : Client) where
  abbrev pub Query : Type 0 → Type 0
  Query A = Action C.State Error A

  -- A query, which a transaction that was given up refuses.
  unfoldable pub query : {A : Type 0} → (Tables → A) → Query A
  query f s = if (C.seen s).is_open then (ok (f (C.seen s)), s) else (err aborted, s)

  unfoldable pub write : (C.State → C.State) → Query Void
  write f s = if (C.seen s).is_open then (ok tt, f s) else (err aborted, s)

  -- A write to the tables of goods.
  unfoldable pub edit : (Goods → Goods) → Query Void
  unfolding write
  edit f = write (λ s. C.put_goods (f (C.seen s).goods) s)

  -- A query by the client that is not the transaction's: it reads what was there before it began.
  unfoldable pub outside : {A : Type 0} → C.State → (Tables → A) → Query A
  outside before f s = (ok (f (C.seen before)), s)

  -- `$transaction(async (tx) => ...)`.
  unfoldable pub transaction : {A : Type 0} → (C.State → Query A) → Query A
  transaction body s =
      let (r, s') = body s s in
      elim r [
        | err e ↦ (err e, s)
        | ok a ↦
            if (C.seen s').is_open
            then (ok a, s')
            else (if C.reports_rollback then err aborted else ok a, s)
      ]

  -- `tx.ledgerEntry.create`.
  unfoldable pub create_entry : Entry → Query Void
  unfolding find_entry
  create_entry e s =
      if (C.seen s).is_open
      then (if is_some (find_entry e.account_id e.transaction_id e.category (C.seen s).entries)
          then (err unique_violation, C.refused s)
          else (ok tt, C.put_entry e s))
      else (err aborted, s)

  -- `tx.ledgerAccount.update` with `balance: { increment }`, on the row that it finds.
  abbrev pub add_to : String → ℤ → Option Account → Query Account
  add_to id n none = throw record_missing
  add_to id n (some a) = do
    write (C.put_account id (record a { balance = a.balance +ℤ n }))
    pure (record a { balance = a.balance +ℤ n })

  unfoldable pub increment : String → ℤ → Query Account
  increment id n = do row ← query (λ t. t.accounts id); add_to id n row

  -- `ledgerAccount.create` with a zero balance, under the id that the database chooses.
  abbrev pub open_at : String → Option String → AccountType → Option Account → Query Void
  open_at id owner type none =
      write (C.create_account id (record { owner_id = owner; type = type; balance = pos 0 }))
  open_at id owner type (some a) = throw unique_violation

  unfoldable pub open_account : String → Option String → AccountType → Query Void
  open_account id owner type = do row ← query (λ t. t.accounts id); open_at id owner type row

  -- `tx.ledgerAccount.upsert` with an empty update: the id of the account.
  abbrev pub upsert_found : String → String → AccountType → Option String → Query String
  upsert_found new_id owner type none = do open_account new_id (some owner) type; pure new_id
  upsert_found new_id owner type (some id) = pure id

  unfoldable pub upsert_account : String → String → AccountType → Query String
  upsert_account new_id owner type = do
    found ← query (λ t. t.account_ids owner type)
    upsert_found new_id owner type found

  -- The private `createLedgerEntryIfMissing` of the services: whether the entry was created.
  unfoldable pub create_entry_if_missing : Entry → Query Bool
  unfolding create_entry
  create_entry_if_missing e s =
      let (r, s') = create_entry e s in
      elim r [
        | ok a ↦ (ok true, s')
        | err x ↦ elim x [ unique_violation ↦ (ok false, s') | y ↦ (err y, s') ]
      ]

  -- An entry, and if it was created its amount in the balance of its account; `f` is what is made of
  -- the account then, and `m` what is done if the entry was there.
  abbrev pub post_rest : {A : Type 0} → Entry → (Account → A) → Query A → Bool → Query A
  post_rest e f m true = do
    updated ← increment e.account_id (signed e.type e.amount)
    pure (f updated)
  post_rest e f m false = m

  unfoldable pub post_then : {A : Type 0} → Entry → (Account → A) → Query A → Query A
  post_then e f m = do created ← create_entry_if_missing e; post_rest e f m created

  unfoldable pub post_if_missing : Entry → Query Void
  unfolding post_then
  post_if_missing e = post_then e (λ a. tt) (pure tt)

  -- A row, or the error of one that is not there.
  abbrev pub or_throw : {A : Type 0} → Error → Option A → Query A
  or_throw e none = throw e
  or_throw e (some a) = pure a
