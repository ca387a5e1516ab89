-- ===== src/Payouts/Books.antt =====
-- The calls of payouts.service.ts on books that balance.
use ops_marketplace_server.Base.{
  ℤ, pos, leb_ℤ, ltb_ℤ, Bool, true, false, not, Option, none, some, String, pure, ◌>>=◌, ◌>>◌,
}
use ops_marketplace_server.Ids.{Date}
use ops_marketplace_server.Payout.{PayoutStatus, equals}
use ops_marketplace_server.Database.{
  Client, Tables, Account, seller_available, PayoutRow, only_sellers, bank_account_missing,
  amount_not_positive, balance_not_ready, balance_insufficient, payout_missing, payout_not_pending,
  query, outside, write, transaction, find_account_of, post_if_missing, or_throw,
}
use ops_marketplace_server.Ledger.Keeps.{
  Always, Always-bind, Always-read, Always-found, Always-or_throw, Always-throw_if, Keeps-bind,
  Keeps-if, transaction-Keeps,
}
use ops_marketplace_server.Ledger.Balance.{
  IsBalanced, Balances, read-Balances, write-Balances, outside-Balances, or_throw-Balances,
  post-Balances,
}
use ops_marketplace_server.Payouts.{
  CreatePayout, UpdatePayout, updated_row, debit_entry, credit_entry, bank_account, insert_payout,
  withdraw, payout_body, request_from, request_to, request_bank, update_claimed, update_found,
  assert_seller_shop, create_payout, of_user, get_payout, claim, give_back, after_claim,
  update_body, update_payout_status,
}
use ops_marketplace_server.Payouts.Withdrawal.{withdraw-Balances}

module _ (C : Client) where
  abbrev Books : C.State → Type 0
  Books s = IsBalanced (C.seen s)

  put_payout-Balances : (id : String) (row : PayoutRow) → Balances C (write C (C.put_payout id row))
  put_payout-Balances id row = write-Balances C (C.put_payout id row) (λ s p. rw C.put_payout_lem p)

  insert-Balances :
      (id : String) (row : PayoutRow) (old : Option PayoutRow)
      → Balances C (insert_payout C id row old)
  insert-Balances id row none = put_payout-Balances id row
  insert-Balances id row (some old) = λ s p. tt

  body-Balances :
      (payout_id entry_id seller_id account_no : String) (dto : CreatePayout) (account_id : String)
      → Balances C (payout_body C payout_id entry_id seller_id account_no dto account_id)
  unfolding payout_body
  body-Balances payout_id entry_id seller_id account_no dto account_id =
      let row : PayoutRow = record {
        user_id = seller_id;
        amount = dto.amount;
        status = PayoutStatus.pending;
        reference = some account_no;
        paid_at = none;
      } in
      let take = withdraw C (debit_entry entry_id account_id payout_id dto.amount) in
      let rest = λ (u : Unit {0}). take >>= λ updated. pure updated.balance in
      read-Balances C (λ t. t.payouts payout_id) (λ old. insert_payout C payout_id row old >>= rest)
        (λ old.
          Keeps-bind Books (insert_payout C payout_id row old) rest
            (insert-Balances payout_id row old)
            (λ u.
              Keeps-bind Books take (λ updated. pure updated.balance)
                (withdraw-Balances C entry_id account_id payout_id dto.amount) (λ updated s p. p)))

  shop-Books : (seller_id : String) → Always C Books (assert_seller_shop C seller_id)
  unfolding assert_seller_shop
  shop-Books seller_id =
      Always-read C Books (λ t. t.owner_shops seller_id) (or_throw C only_sellers)
        (Always-or_throw C Books only_sellers)

  request_from-Books :
      (payout_id entry_id seller_id account_no : String) (dto : CreatePayout)
      (account : String × Account)
      → Always C Books (request_from C payout_id entry_id seller_id account_no dto account)
  unfolding request_from
  request_from-Books payout_id entry_id seller_id account_no dto account =
      Always-throw_if C Books (ltb_ℤ account.1.balance dto.amount) balance_insufficient
        (transaction C
          (λ before. payout_body C payout_id entry_id seller_id account_no dto account.0))
        (transaction-Keeps C IsBalanced
          (λ before. payout_body C payout_id entry_id seller_id account_no dto account.0)
          (λ before. body-Balances payout_id entry_id seller_id account_no dto account.0))

  request_to-Books :
      (payout_id entry_id seller_id : String) (dto : CreatePayout) (account_no : String)
      → Always C Books (request_to C payout_id entry_id seller_id dto account_no)
  unfolding request_to
  request_to-Books payout_id entry_id seller_id dto account_no =
      let rest = request_from C payout_id entry_id seller_id account_no dto in
      Always-throw_if C Books (leb_ℤ dto.amount (pos 0)) amount_not_positive
        (query C (find_account_of seller_id seller_available) >>= λ found.
          or_throw C balance_not_ready found >>= rest)
        (Always-read C Books (find_account_of seller_id seller_available)
          (λ found. or_throw C balance_not_ready found >>= rest)
          (λ found.
            Always-found C Books balance_not_ready found rest
              (request_from-Books payout_id entry_id seller_id account_no dto)))

  pub create_payout-Books :
      (payout_id entry_id seller_id : String) (dto : CreatePayout)
      → Always C Books (create_payout C payout_id entry_id seller_id dto)
  unfolding create_payout
  create_payout-Books payout_id entry_id seller_id dto =
      Always-bind C Books (assert_seller_shop C seller_id)
        (λ shop.
          query C (bank_account C dto.bank_account_id seller_id)
          >>= request_bank C payout_id entry_id seller_id dto)
        (shop-Books seller_id)
        (λ shop.
          Always-read C Books (bank_account C dto.bank_account_id seller_id)
            (request_bank C payout_id entry_id seller_id dto)
            (λ bank.
              Always-found C Books bank_account_missing bank
                (request_to C payout_id entry_id seller_id dto)
                (request_to-Books payout_id entry_id seller_id dto)))

  claim-Balances :
      (payout_id : String) (dto : UpdatePayout) (old : Option String) (now : Date)
      (o : Option PayoutRow)
      → Balances C (claim C payout_id dto old now o)
  claim-Balances payout_id dto old now none = λ s p. p
  claim-Balances payout_id dto old now (some row) =
      let put = write C (C.put_payout payout_id (updated_row dto old now row)) in
      Keeps-if Books (equals row.status PayoutStatus.pending) (put >> pure true) (pure false)
        (Keeps-bind Books put (λ _. pure true)
          (put_payout-Balances payout_id (updated_row dto old now row)) (λ u s p. p))
        (λ s p. p)

  give_back-Balances :
      (entry_id payout_id : String) (amount : ℤ) (o : Option (String × Account))
      → Balances C (give_back C entry_id payout_id amount o)
  unfolding post_if_missing
  give_back-Balances entry_id payout_id amount none = λ s p. p
  give_back-Balances entry_id payout_id amount (some (account_id, a)) =
      post-Balances C (credit_entry entry_id account_id payout_id amount) (λ _. tt) (pure tt)
        (λ s p. p)

  after_claim-Balances :
      (entry_id payout_id seller_id : String) (amount : ℤ) (status : PayoutStatus)
      (before : C.State) (updated : PayoutRow) (claimed : Bool)
      → Balances C (after_claim C entry_id payout_id seller_id amount status before updated claimed)
  unfolding after_claim
  after_claim-Balances entry_id payout_id seller_id amount status before updated false = λ s p. p
  after_claim-Balances entry_id payout_id seller_id amount status before updated true =
      let find = outside C before (find_account_of seller_id seller_available) in
      let back = λ (found : Option (String × Account)).
        give_back C entry_id payout_id amount found >> pure updated in
      Keeps-if Books (equals status PayoutStatus.failed) (find >>= back) (pure updated)
        (Keeps-bind Books find back
          (outside-Balances C before (find_account_of seller_id seller_available))
          (λ found.
            Keeps-bind Books (give_back C entry_id payout_id amount found) (λ _. pure updated)
              (give_back-Balances entry_id payout_id amount found) (λ u s p. p)))
        (λ s p. p)

  claimed-Balances :
      (entry_id payout_id seller_id : String) (amount : ℤ) (status : PayoutStatus)
      (before : C.State) (claimed : Bool)
      → Balances C (update_claimed C entry_id payout_id seller_id amount status before claimed)
  unfolding update_claimed
  claimed-Balances entry_id payout_id seller_id amount status before claimed =
      let rest = λ (updated : PayoutRow).
        after_claim C entry_id payout_id seller_id amount status before updated claimed in
      read-Balances C (λ t. t.payouts payout_id) (λ found. or_throw C payout_missing found >>= rest)
        (λ found.
          Keeps-bind Books (or_throw C payout_missing found) rest
            (or_throw-Balances C payout_missing found)
            (λ updated.
              after_claim-Balances entry_id payout_id seller_id amount status before updated
                claimed))

  update_found-Books :
      (entry_id payout_id seller_id : String) (dto : UpdatePayout) (now : Date) (row : PayoutRow)
      → Always C Books (update_found C entry_id payout_id seller_id dto now row)
  unfolding update_found update_body
  update_found-Books entry_id payout_id seller_id dto now row =
      let rest = λ (before : C.State).
        update_claimed C entry_id payout_id seller_id row.amount dto.status before in
      Always-throw_if C Books (not (equals row.status PayoutStatus.pending)) payout_not_pending
        (transaction C (update_body C entry_id payout_id seller_id dto now row))
        (transaction-Keeps C IsBalanced (update_body C entry_id payout_id seller_id dto now row)
          (λ before.
            read-Balances C (λ t. t.payouts payout_id)
              (λ current. claim C payout_id dto row.reference now current >>= rest before)
              (λ current.
                Keeps-bind Books (claim C payout_id dto row.reference now current) (rest before)
                  (claim-Balances payout_id dto row.reference now current)
                  (claimed-Balances entry_id payout_id seller_id row.amount dto.status before))))

  get_payout-Books :
      (payout_id seller_id : String) → Always C Books (get_payout C payout_id seller_id)
  unfolding get_payout
  get_payout-Books payout_id seller_id =
      let find = λ (t : Tables). of_user C seller_id (t.payouts payout_id) in
      Always-bind C Books (assert_seller_shop C seller_id)
        (λ shop. query C find >>= or_throw C payout_missing) (shop-Books seller_id)
        (λ shop.
          Always-read C Books find (or_throw C payout_missing)
            (Always-or_throw C Books payout_missing))

  pub update_payout-Books :
      (entry_id payout_id seller_id : String) (dto : UpdatePayout) (now : Date)
      → Always C Books (update_payout_status C entry_id payout_id seller_id dto now)
  unfolding update_payout_status
  update_payout-Books entry_id payout_id seller_id dto now =
      Always-bind C Books (get_payout C payout_id seller_id)
        (update_found C entry_id payout_id seller_id dto now) (get_payout-Books payout_id seller_id)
        (update_found-Books entry_id payout_id seller_id dto now)
