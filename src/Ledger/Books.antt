-- ===== src/Ledger/Books.antt =====
-- The calls of ledger.service.ts on books that balance.
use ops_marketplace_server.Base.{
  bind_holds, if_holds, ◌≡◌, refl, get_or, is_some, Option, none, some, String, concat, Result, ok,
  err, throw_if, pure, ◌>>=◌, ◌>>◌,
}
use ops_marketplace_server.Database.{
  Client, Account, AccountType, Category, Entry, Error, aborted, account_exists, account_missing,
  query, write, transaction, open_at, open_account, or_throw, find_entry, find_entry_by_id,
}
use ops_marketplace_server.Ledger.{
  RecordEntry, entry_of, reverse_of, create_account, get_account, record_body, record_entry,
  reverse_body, reverse_found, reverse_entry, read_existing,
}
use ops_marketplace_server.Ledger.Keeps.{
  Always, Always-read, Always-or_throw, Always-throw_if, transaction-Keeps,
}
use ops_marketplace_server.Ledger.Balance.{
  IsBalanced, Balances, read-Balances, post-Balances, create_account-Balances,
}

module _ (C : Client) where
  abbrev pub Books : C.State → Type 0
  Books s = IsBalanced (C.seen s)

  open_at-Books :
      (o : Option Account) (id : String) (owner : Option String) (type : AccountType) (s : C.State)
      → (C.seen s).accounts id ≡ o
      → Books s
      → Books (open_at C id owner type o s).1
  unfolding write
  open_at-Books none id owner type s row p =
      if_holds {A = Result Error (Unit {0}) × C.State} (λ r. Books r.1) (C.seen s).is_open
        (ok tt, _) (err aborted, s) (create_account-Balances C id owner type s row p) p
  open_at-Books (some a) id owner type s row p = p

  open_account-Books :
      (id : String) (owner : Option String) (type : AccountType)
      → Always C Books (open_account C id owner type)
  unfolding open_account query
  open_account-Books id owner type s p =
      if_holds {A = Result Error (Option Account) × C.State}
        (λ r.
          let r' : Result Error (Unit {0}) × C.State =
            elim r.0 as (λ _. Result Error (Unit {0}) × C.State) [
              | ok o ↦ open_at C id owner type o r.1
              | err e ↦ (err e, r.1)
            ] in
          Books r'.1)
        (C.seen s).is_open (ok ((C.seen s).accounts id), s) (err aborted, s)
        (open_at-Books ((C.seen s).accounts id) id owner type s refl p) p

  pub create_account-Books :
      (new_id : String) (owner : Option String) (type : AccountType)
      → Always C Books (create_account C new_id owner type)
  unfolding create_account
  create_account-Books new_id owner type =
      Always-read C Books (λ t. t.account_ids (get_or owner "") type)
        (λ existing. throw_if (is_some existing) account_exists >> open_account C new_id owner type)
        (λ existing.
          Always-throw_if C Books (is_some existing) account_exists
            (open_account C new_id owner type) (open_account-Books new_id owner type))

  read_existing-Balances :
      (account_id transaction_id : String) (category : Category)
      → Balances C (read_existing C account_id transaction_id category)
  unfolding read_existing
  read_existing-Balances account_id transaction_id category =
      read-Balances C (λ t. t.accounts account_id)
        (λ current.
          query C (λ t. find_entry account_id transaction_id category t.entries) >>= λ found.
          pure (found, current))
        (λ current.
          read-Balances C (λ t. find_entry account_id transaction_id category t.entries)
            (λ found. pure (found, current)) (λ found s p. p))

  record_body-Books :
      (new_id : String) (dto : RecordEntry)
      → Always C Books (transaction C (λ before. record_body C new_id dto))
  unfolding record_body
  record_body-Books new_id dto =
      transaction-Keeps C IsBalanced (λ before. record_body C new_id dto)
        (λ before.
          post-Balances C (entry_of new_id dto) (λ a. (some (entry_of new_id dto), some a))
            (read_existing C dto.account_id dto.transaction_id dto.category)
            (read_existing-Balances dto.account_id dto.transaction_id dto.category))

  get_account-Books : (id : String) → Always C Books (get_account C id)
  unfolding get_account
  get_account-Books id =
      Always-read C Books (λ t. t.accounts id) (or_throw C account_missing)
        (λ row. Always-or_throw C Books account_missing row)

  pub record_entry-Books :
      (new_id : String) (dto : RecordEntry) → Always C Books (record_entry C new_id dto)
  unfolding record_entry
  record_entry-Books new_id dto s p =
      let p' = get_account-Books dto.account_id s p in
      bind_holds Books (get_account C dto.account_id)
        (λ a. transaction C (λ before. record_body C new_id dto)) s p'
        (λ a. record_body-Books new_id dto (get_account C dto.account_id s).1 p')

  reverse_found-Books :
      (new_id : String) (o : Option Entry) → Always C Books (reverse_found C new_id o)
  unfolding reverse_body
  reverse_found-Books new_id none = λ s p. p
  reverse_found-Books new_id (some e) =
      transaction-Keeps C IsBalanced (λ before. reverse_body C new_id e)
        (λ before.
          post-Balances C (reverse_of new_id e) (λ a. (some (reverse_of new_id e), some a))
            (read_existing C e.account_id (concat "REV-" e.transaction_id) e.category)
            (read_existing-Balances e.account_id (concat "REV-" e.transaction_id) e.category))

  pub reverse_entry-Books :
      (new_id entry_id : String) → Always C Books (reverse_entry C new_id entry_id)
  unfolding reverse_entry reverse_body
  reverse_entry-Books new_id entry_id =
      Always-read C Books (λ t. find_entry_by_id entry_id t.entries) (reverse_found C new_id)
        (reverse_found-Books new_id)
