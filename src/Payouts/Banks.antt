-- ===== src/Payouts/Banks.antt =====
-- The bank accounts of a seller in payouts.service.ts.
pub mod Counts
pub mod Defaults
pub mod Creation
use ops_marketplace_server.Base.{
  Bool, true, false, Option, none, some, List, [], ◌∷◌, String, Void, throw, throw_if, pure, ◌>>=◌,
  ◌>>◌,
}
use ops_marketplace_server.Database.{
  Client, Query, Tables, BankRow, find_bank, Error, bank_account_missing, bank_account_is_default,
  unique_violation, record_missing, query, write, transaction, or_throw,
}
use ops_marketplace_server.Payouts.{assert_seller_shop, of_seller}

pub record CreateBankAccount : Type 0 where
  pub bank_name : String
  pub account_no : String
  pub account_name : String
  pub is_default : Bool

module _ (C : Client) where
  abbrev pub clear_if : Bool → String → Query C Void
  clear_if true seller_id = write C (C.clear_banks seller_id)
  clear_if false seller_id = pure tt

  -- `bankAccount.create` under the id that the database chooses.
  abbrev pub insert_bank : BankRow → Option BankRow → Query C Void
  insert_bank row none = write C (C.create_bank row)
  insert_bank row (some old) = throw unique_violation

  abbrev pub row_of : String → String → CreateBankAccount → BankRow
  row_of new_id seller_id dto = record {
    id = new_id;
    user_id = seller_id;
    bank_name = dto.bank_name;
    account_no = dto.account_no;
    account_name = dto.account_name;
    is_default = dto.is_default;
  }

  abbrev pub store_bank : BankRow → Option BankRow → Query C BankRow
  store_bank row old = do insert_bank row old; pure row

  unfoldable pub create_bank_account : String → String → CreateBankAccount → Query C BankRow
  create_bank_account new_id seller_id dto = do
    shop ← assert_seller_shop C seller_id
    clear_if dto.is_default seller_id
    old ← query C (λ t. find_bank new_id t.bank_rows)
    store_bank (row_of new_id seller_id dto) old

  unfoldable pub get_bank_account : String → String → Query C BankRow
  get_bank_account account_id seller_id = do
    row ← query C (λ t. of_seller C seller_id (find_bank account_id t.bank_rows))
    or_throw C bank_account_missing row

  -- `tx.bankAccount.update` throws on a row that is not there.
  abbrev pub mark_found : String → Option BankRow → Query C BankRow
  mark_found account_id none = throw record_missing
  mark_found account_id (some r) = do
    write C (C.mark_bank account_id)
    pure (record r { is_default = true })

  unfoldable pub default_body : String → String → Query C BankRow
  default_body account_id seller_id = do
    write C (C.clear_banks seller_id)
    row ← query C (λ t. find_bank account_id t.bank_rows)
    mark_found account_id row

  unfoldable pub set_default_bank_account : String → String → Query C BankRow
  set_default_bank_account account_id seller_id = do
    shop ← assert_seller_shop C seller_id
    account ← get_bank_account account_id seller_id
    transaction C (λ before. default_body account_id seller_id)

  unfoldable pub delete_bank_account : String → String → Query C BankRow
  delete_bank_account account_id seller_id = do
    shop ← assert_seller_shop C seller_id
    account ← get_bank_account account_id seller_id
    throw_if account.is_default bank_account_is_default
    write C (C.remove_bank account_id)
    pure account
