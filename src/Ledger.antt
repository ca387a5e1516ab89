-- ===== src/Ledger.antt =====
-- src/modules/ledger/ledger.service.ts over any database. The ids that the database chooses for new
-- rows are arguments, `new_id`. The two paged listings of entries are not modelled.
pub mod Keeps
pub mod Posting
pub mod Balance
pub mod Books
pub mod Same
use ops_marketplace_server.Base.{
  ℤ, ◌≡◌, Bool, true, false, if◌then◌else◌, get_or, is_some, Option, none, some, String, concat, ok,
  err, throw, throw_if, pure, ◌>>=◌, ◌>>◌,
}
use ops_marketplace_server.Database.{
  or_throw, Client, Account, AccountType, Entry, EntryType, debit, credit, Category, signed, Error,
  account_exists, account_missing, entry_missing, Query, query, transaction, post_then,
  open_account, find_entry, find_entry_by_id,
}

pub record RecordEntry : Type 0 where
  pub account_id : String
  pub amount : ℤ
  pub type : EntryType
  pub reference : String
  pub transaction_id : String
  pub category : Category

-- The row that `recordEntry` asks the database to create.
abbrev pub entry_of : String → RecordEntry → Entry
entry_of new_id dto = record {
  id = new_id;
  account_id = dto.account_id;
  amount = dto.amount;
  type = dto.type;
  reference = dto.reference;
  transaction_id = dto.transaction_id;
  category = dto.category;
}

abbrev pub reverse_type : EntryType → EntryType
reverse_type debit = credit
reverse_type credit = debit

-- The row that `reverseEntry` asks for.
abbrev pub reverse_of : String → Entry → Entry
reverse_of new_id e = record {
  id = new_id;
  account_id = e.account_id;
  amount = e.amount;
  type = reverse_type e.type;
  reference = concat "REVERSE:" e.reference;
  transaction_id = concat "REV-" e.transaction_id;
  category = e.category;
}

module _ (C : Client) where
  unfoldable pub create_account : String → Option String → AccountType → Query C (Unit {0})
  unfolding query
  create_account new_id owner_id type = do
    existing ← query C (λ t. t.account_ids (get_or owner_id "") type)
    throw_if (is_some existing) account_exists
    open_account C new_id owner_id type

  unfoldable pub get_account : String → Query C Account
  unfolding query
  get_account id = do row ← query C (λ t. t.accounts id); or_throw C account_missing row

  unfoldable pub get_account_by_type_and_owner : Option String → AccountType → Query C String
  unfolding query
  get_account_by_type_and_owner owner_id type = do
    row ← query C (λ t. t.account_ids (get_or owner_id "") type)
    or_throw C account_missing row

  unfoldable pub get_balance : String → Query C ℤ
  unfolding get_account
  get_balance id = do a ← get_account id; pure a.balance

  -- What is returned when the entry was there: it, and the account as it is.
  unfoldable pub read_existing :
      String → String → Category → Query C (Option Entry × Option Account)
  read_existing account_id transaction_id category = do
    current ← query C (λ t. t.accounts account_id)
    found ← query C (λ t. find_entry account_id transaction_id category t.entries)
    pure (found, current)

  -- The body of the transaction of `recordEntry`.
  unfoldable pub record_body : String → RecordEntry → Query C (Option Entry × Option Account)
  record_body new_id dto =
      post_then C (entry_of new_id dto) (λ updated. (some (entry_of new_id dto), some updated))
        (read_existing dto.account_id dto.transaction_id dto.category)

  unfoldable pub record_entry : String → RecordEntry → Query C (Option Entry × Option Account)
  unfolding get_account
  record_entry new_id dto = do
    account ← get_account dto.account_id
    transaction C (λ before. record_body new_id dto)

  -- The body of the transaction of `reverseEntry`, on the entry that was found.
  unfoldable pub reverse_body : String → Entry → Query C (Option Entry × Option Account)
  reverse_body new_id e =
      post_then C (reverse_of new_id e) (λ updated. (some (reverse_of new_id e), some updated))
        (read_existing e.account_id (concat "REV-" e.transaction_id) e.category)

  -- What is done with the entry that is to be reversed.
  abbrev pub reverse_found : String → Option Entry → Query C (Option Entry × Option Account)
  reverse_found new_id none = throw entry_missing
  reverse_found new_id (some e) = transaction C (λ before. reverse_body new_id e)

  unfoldable pub reverse_entry : String → String → Query C (Option Entry × Option Account)
  unfolding query find_entry_by_id
  reverse_entry new_id entry_id = do
    row ← query C (λ t. find_entry_by_id entry_id t.entries)
    reverse_found new_id row
