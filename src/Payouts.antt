-- ===== src/Payouts.antt =====
-- src/modules/payout/payouts.service.ts over any database: the balance of a seller and the requests
-- for payouts. An amount is a whole number of hundredths; the ids of new rows are arguments. The lists are
-- not modelled; the bank accounts of a seller are in Banks.
mod Withdrawal
pub mod Banks
pub mod Books
pub mod Effects
pub mod Failure
use ops_marketplace_server.Base.{
  ℤ, pos, ◌-ℤ◌, leb_ℤ, ltb_ℤ, Bool, true, false, ◌&&◌, ◌||◌, not, if◌then◌else◌, is_empty_text,
  Option, none, some, String, ◌==◌, ok, err, Void, throw, throw_if, pure, ◌>>=◌, ◌>>◌,
}
use ops_marketplace_server.Ids.{Date}
use ops_marketplace_server.Payout.{PayoutStatus, equals}
use ops_marketplace_server.Database.{
  find_bank, find_default, BankRow, Client, Query, Tables, Account, seller_balance,
  seller_available, Entry, debit, credit, payout, PayoutRow, Error, only_sellers,
  bank_account_missing, amount_not_positive, balance_not_ready, balance_insufficient,
  payout_missing, payout_not_pending, unique_violation, query, outside, write, transaction,
  increment, create_entry, post_if_missing, find_account_of, or_throw,
}

-- What getSellerBalance returns, but for the ids of the two accounts.
pub record SellerBalance : Type 0 where
  pub available : ℤ
  pub pending : ℤ
  pub total : ℤ

-- `Number(account?.balance ?? 0)`.
abbrev pub balance_or_zero : Option (String × Account) → ℤ
balance_or_zero none = pos 0
balance_or_zero (some (id, a)) = a.balance

-- `Math.max(n, 0)`.
abbrev pub at_least_zero : ℤ → ℤ
at_least_zero n = if leb_ℤ n (pos 0) then pos 0 else n

pub record CreatePayout : Type 0 where
  pub amount : ℤ
  pub bank_account_id : Option String

pub record UpdatePayout : Type 0 where
  pub status : PayoutStatus
  pub reference : Option String

-- `dto.reference || payout.reference`.
abbrev pub or_old : Option String → Option String → Option String
or_old none old = old
or_old (some t) old = if is_empty_text t then old else some t

-- The row after the update of a payout, of which `old` is the reference that was read.
abbrev pub updated_row : UpdatePayout → Option String → Date → PayoutRow → PayoutRow
updated_row dto old now row = record row {
  status = dto.status;
  reference = or_old dto.reference old;
  paid_at = if equals dto.status PayoutStatus.paid then some now else row.paid_at;
}

-- The two entries of a payout: what the request takes, and what a failure should give back.
abbrev pub debit_entry : String → String → String → ℤ → Entry
debit_entry entry_id account_id payout_id amount = record {
  id = entry_id;
  account_id = account_id;
  amount = amount;
  type = debit;
  reference = payout_id;
  transaction_id = payout_id;
  category = payout;
}

abbrev pub credit_entry : String → String → String → ℤ → Entry
credit_entry entry_id account_id payout_id amount =
    record (debit_entry entry_id account_id payout_id amount) { type = credit }

module _ (C : Client) where
  unfoldable pub assert_seller_shop : String → Query C String
  assert_seller_shop seller_id = do
    shop ← query C (λ t. t.owner_shops seller_id)
    or_throw C only_sellers shop

  unfoldable pub get_seller_balance : String → Query C SellerBalance
  get_seller_balance seller_id = do
    shop ← assert_seller_shop seller_id
    available_account ← query C (find_account_of seller_id seller_available)
    total_account ← query C (find_account_of seller_id seller_balance)
    let available = balance_or_zero available_account
    let total = balance_or_zero total_account
    pure (record {
      available = available;
      pending = at_least_zero (total -ℤ available);
      total = total;
    })

  -- `findFirst` by the id and the user.
  abbrev pub of_seller : String → Option BankRow → Option BankRow
  of_seller seller_id none = none
  of_seller seller_id (some r) = if r.user_id == seller_id then some r else none

  abbrev pub account_no_of : Option BankRow → Option String
  account_no_of none = none
  account_no_of (some r) = some r.account_no

  -- `dto.bankAccountId ? getBankAccount : getDefaultBankAccount`: the number of the account.
  abbrev pub bank_account : Option String → String → Tables → Option String
  bank_account none seller_id t = account_no_of (find_default seller_id t.bank_rows)
  bank_account (some id) seller_id t =
      if is_empty_text id
      then account_no_of (find_default seller_id t.bank_rows)
      else account_no_of (of_seller seller_id (find_bank id t.bank_rows))

  -- `tx.payout.create`.
  abbrev pub insert_payout : String → PayoutRow → Option PayoutRow → Query C Void
  insert_payout id row none = write C (C.put_payout id row)
  insert_payout id row (some old) = throw unique_violation

  -- The last two queries of `createPayout`: the balance, then the entry.
  unfoldable pub withdraw : Entry → Query C Account
  withdraw e = do
    updated ← increment C e.account_id (pos 0 -ℤ e.amount)
    create_entry C e
    pure updated

  -- The body of the transaction of `createPayout`: the balance after the request.
  unfoldable pub payout_body : String → String → String → String → CreatePayout → String → Query C ℤ
  payout_body payout_id entry_id seller_id account_no dto account_id = do
    old ← query C (λ t. t.payouts payout_id)
    insert_payout payout_id
        (record {
          user_id = seller_id;
          amount = dto.amount;
          status = PayoutStatus.pending;
          reference = some account_no;
          paid_at = none;
        })
        old
    updated ← withdraw (debit_entry entry_id account_id payout_id dto.amount)
    pure updated.balance

  -- The rest of `createPayout` after the account of the seller is found.
  unfoldable pub request_from :
      String → String → String → String → CreatePayout → String × Account → Query C ℤ
  request_from payout_id entry_id seller_id account_no dto account = do
    throw_if (ltb_ℤ account.1.balance dto.amount) balance_insufficient
    transaction C (λ before. payout_body payout_id entry_id seller_id account_no dto account.0)

  -- The rest of `createPayout` after the bank account is found.
  unfoldable pub request_to : String → String → String → CreatePayout → String → Query C ℤ
  unfolding request_from
  request_to payout_id entry_id seller_id dto account_no = do
    throw_if (leb_ℤ dto.amount (pos 0)) amount_not_positive
    found ← query C (find_account_of seller_id seller_available)
    account ← or_throw C balance_not_ready found
    request_from payout_id entry_id seller_id account_no dto account

  -- The bank account, and the rest.
  abbrev pub request_bank : String → String → String → CreatePayout → Option String → Query C ℤ
  request_bank payout_id entry_id seller_id dto bank = do
    account_no ← or_throw C bank_account_missing bank
    request_to payout_id entry_id seller_id dto account_no

  unfoldable pub create_payout : String → String → String → CreatePayout → Query C ℤ
  create_payout payout_id entry_id seller_id dto = do
    shop ← assert_seller_shop seller_id
    bank ← query C (bank_account dto.bank_account_id seller_id)
    request_bank payout_id entry_id seller_id dto bank

  -- `findFirst` by the id and the user.
  abbrev pub of_user : String → Option PayoutRow → Option PayoutRow
  of_user seller_id none = none
  of_user seller_id (some row) = if row.user_id == seller_id then some row else none

  unfoldable pub get_payout : String → String → Query C PayoutRow
  get_payout payout_id seller_id = do
    shop ← assert_seller_shop seller_id
    row ← query C (λ t. of_user seller_id (t.payouts payout_id))
    or_throw C payout_missing row

  -- `tx.payout.updateMany` on the row if it is pending: whether it was claimed.
  abbrev pub claim : String → UpdatePayout → Option String → Date → Option PayoutRow → Query C Bool
  claim payout_id dto old now none = pure false
  claim payout_id dto old now (some row) =
      if equals row.status PayoutStatus.pending
      then (do write C (C.put_payout payout_id (updated_row dto old now row)); pure true)
      else pure false

  -- A failed payout gives its amount back.
  abbrev pub give_back : String → String → ℤ → Option (String × Account) → Query C Void
  give_back entry_id payout_id amount none = pure tt
  give_back entry_id payout_id amount (some (account_id, a)) =
      post_if_missing C (credit_entry entry_id account_id payout_id amount)

  unfoldable pub after_claim :
      String → String → String → ℤ → PayoutStatus → C.State → PayoutRow → Bool → Query C PayoutRow
  after_claim entry_id payout_id seller_id amount status before updated false = pure updated
  after_claim entry_id payout_id seller_id amount status before updated true =
      if equals status PayoutStatus.failed
      then (do
        found ← outside C before (find_account_of seller_id seller_available)
        give_back entry_id payout_id amount found
        pure updated)
      else pure updated

  -- The rest of the transaction after the claim.
  unfoldable pub update_claimed :
      String → String → String → ℤ → PayoutStatus → C.State → Bool → Query C PayoutRow
  update_claimed entry_id payout_id seller_id amount status before claimed = do
    found ← query C (λ t. t.payouts payout_id)
    updated ← or_throw C payout_missing found
    after_claim entry_id payout_id seller_id amount status before updated claimed

  unfoldable pub update_body :
      String → String → String → UpdatePayout → Date → PayoutRow → C.State → Query C PayoutRow
  update_body entry_id payout_id seller_id dto now row before = do
    current ← query C (λ t. t.payouts payout_id)
    claimed ← claim payout_id dto row.reference now current
    update_claimed entry_id payout_id seller_id row.amount dto.status before claimed

  -- The rest of `updatePayoutStatus` after the payout is found.
  unfoldable pub update_found :
      String → String → String → UpdatePayout → Date → PayoutRow → Query C PayoutRow
  update_found entry_id payout_id seller_id dto now row = do
    throw_if (not (equals row.status PayoutStatus.pending)) payout_not_pending
    transaction C (update_body entry_id payout_id seller_id dto now row)

  unfoldable pub update_payout_status :
      String → String → String → UpdatePayout → Date → Query C PayoutRow
  update_payout_status entry_id payout_id seller_id dto now = do
    row ← get_payout payout_id seller_id
    update_found entry_id payout_id seller_id dto now row
