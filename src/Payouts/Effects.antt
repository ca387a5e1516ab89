-- ===== src/Payouts/Effects.antt =====
-- What createPayout of payouts.service.ts does to the books when it returns.
use ops_marketplace_server.Base.{
  arith, bind_err, bind_ok, ℤ, pos, ◌+ℤ◌, ◌-ℤ◌, leb_ℤ, ltb_ℤ, ◌≡◌, refl, sym, subst, ◌∙◌, inl, inr,
  true, false, eq_refl, Option, none, some, push, String, ok, pure, ◌>>=◌, ◌>>◌,
}
use ops_marketplace_server.Payout.{PayoutStatus}
use ops_marketplace_server.Database.{
  Client, Query, Tables, Account, AccountType, seller_available, put_row, PayoutRow, only_sellers,
  bank_account_missing, amount_not_positive, balance_not_ready, balance_insufficient, query,
  transaction, increment, create_entry, find_account_of, or_throw,
}
use ops_marketplace_server.Database.Returns.{
  Returns, returned, more, or_throw-Returns, bind-Returns, query-Returns, write-Returns,
  throw_if-Returns, found-Returns, transaction-Returns,
}
use ops_marketplace_server.Ledger.Posting.{increment-some}
use ops_marketplace_server.Payouts.{
  CreatePayout, debit_entry, assert_seller_shop, bank_account, insert_payout, withdraw, payout_body,
  request_from, request_to, request_bank, create_payout,
}
use ops_marketplace_server.Payouts.Withdrawal.{create_cases}

-- The tables after a request: the payout, the entry that takes its amount, and the balance without it.
abbrev pub requested_tables :
    String → String → String → String → CreatePayout → String × Account → Tables → Tables
requested_tables payout_id entry_id seller_id account_no dto (account_id, a) t = record t {
  payouts =
      put_row payout_id
        (record {
          user_id = seller_id;
          amount = dto.amount;
          status = PayoutStatus.pending;
          reference = some account_no;
          paid_at = none;
        })
        t.payouts;
  accounts =
      put_row account_id (record a { balance = a.balance +ℤ (pos 0 -ℤ dto.amount) }) t.accounts;
  entries = push t.entries (debit_entry entry_id account_id payout_id dto.amount);
}

pub find_account_of_lem :
    (owner : String) (type : AccountType) (t : Tables) (id : String) (a : Account)
    → find_account_of owner type t ≡ some (id, a)
    → t.accounts id ≡ some a
unfolding find_account_of
find_account_of_lem owner type t id a e = grind arith

find_account_of-index :
    (owner : String) (type : AccountType) (t : Tables) (id : String) (a : Account)
    → find_account_of owner type t ≡ some (id, a)
    → t.account_ids owner type ≡ some id
unfolding find_account_of
find_account_of-index owner type t id a e = grind arith

-- The account of the request is there after it, with the amount taken.
pub find_account_of-requested :
    (payout_id entry_id seller_id account_no : String) (dto : CreatePayout) (type : AccountType)
    (t : Tables) (id : String) (a : Account)
    → find_account_of seller_id type t ≡ some (id, a)
    → find_account_of seller_id type
        (requested_tables payout_id entry_id seller_id account_no dto (id, a) t)
      ≡ some (id, record a { balance = a.balance +ℤ (pos 0 -ℤ dto.amount) })
unfolding find_account_of
find_account_of-requested payout_id entry_id seller_id account_no dto type t id a e =
    rw (find_account_of, find_account_of-index seller_id type t id a e, eq_refl id) refl

module _ (C : Client) where
  -- The withdrawal of a request: the balance, then the entry.
  withdraw-Returns :
      (Q : Account → C.State → Type 0) (entry_id account_id payout_id : String) (amount : ℤ)
      (s : C.State) {a : Account}
      → (C.seen s).is_open ≡ true
      → (C.seen s).accounts account_id ≡ some a
      → let a' = record a { balance = a.balance +ℤ (pos 0 -ℤ amount) } in
        Q a' (
          C.put_entry
            (debit_entry entry_id account_id payout_id amount)
            (C.put_account account_id a' s))
        → Returns Q (withdraw C (debit_entry entry_id account_id payout_id amount) s)
  unfolding withdraw
  withdraw-Returns Q entry_id account_id payout_id amount s {a} live row h =
      let n = pos 0 -ℤ amount in
      let e = debit_entry entry_id account_id payout_id amount in
      let a' = record a { balance = a.balance +ℤ n } in
      let rest = λ (updated : Account). create_entry C e >> pure updated in
      let first =
        bind_ok (increment C account_id n) rest (increment-some C s live account_id n row) in
      elim (create_cases C e (C.put_account account_id a' s)) [
        | inl (x, u, refusal) ↦
            subst (λ r. Returns Q r)
              (sym (first ∙ bind_err (create_entry C e) (λ _. pure a') refusal)) tt
        | inr created ↦
            subst (λ r. Returns Q r)
              (sym (first ∙ bind_ok (create_entry C e) (λ _. pure a') created)) h
      ]

  -- What a request returns, and the tables after it.
  abbrev pub Requested :
      String
      → String
      → String
      → String
      → CreatePayout
      → String × Account
      → C.State
      → ℤ
      → C.State
      → Type 0
  Requested payout_id entry_id seller_id account_no dto account s n s' =
      (n ≡ account.1.balance +ℤ (pos 0 -ℤ dto.amount))
      × (C.seen s'
          ≡ requested_tables payout_id entry_id seller_id account_no dto account (C.seen s))

  insert-Returns :
      {B : Type 0} (Q : B → C.State → Type 0) (id : String) (row : PayoutRow)
      (old : Option PayoutRow) (k : Query C B) (s : C.State)
      → ((C.seen s).is_open ≡ true → Returns Q (k (C.put_payout id row s)))
      → Returns Q ((insert_payout C id row old >> k) s)
  insert-Returns Q id row none k s h = write-Returns C Q (C.put_payout id row) (λ _. k) s h
  insert-Returns Q id row (some x) k s h = tt

  body-Returns :
      (payout_id entry_id seller_id account_no : String) (dto : CreatePayout) (account_id : String)
      (a : Account) (s : C.State)
      → (C.seen s).accounts account_id ≡ some a
      → Returns
          (λ n s'.
            ((C.seen s').is_open ≡ true)
            × Requested payout_id entry_id seller_id account_no dto (account_id, a) s n s')
          (payout_body C payout_id entry_id seller_id account_no dto account_id s)
  unfolding payout_body
  body-Returns payout_id entry_id seller_id account_no dto account_id a s row =
      let p : PayoutRow = record {
        user_id = seller_id;
        amount = dto.amount;
        status = PayoutStatus.pending;
        reference = some account_no;
        paid_at = none;
      } in
      let Q = λ (n : ℤ) (s' : C.State).
        ((C.seen s').is_open ≡ true)
        × Requested payout_id entry_id seller_id account_no dto (account_id, a) s n s' in
      let take = withdraw C (debit_entry entry_id account_id payout_id dto.amount) in
      let rest = take >>= λ updated. pure updated.balance in
      query-Returns C Q (λ t. t.payouts payout_id) (λ old. insert_payout C payout_id p old >> rest)
        s
        (λ live. insert-Returns Q payout_id p ((C.seen s).payouts payout_id) rest s (λ _.
          bind-Returns Q take (λ updated. pure updated.balance) (C.put_payout payout_id p s)
            (withdraw-Returns (λ b u. Q b.balance u) entry_id account_id payout_id dto.amount
              (C.put_payout payout_id p s) {a = a} (rw C.put_payout_lem live)
              (rw C.put_payout_lem row)
              (rw (C.put_entry_lem, C.put_account_lem, C.put_payout_lem) (live, (refl, refl))))))

  -- A request that returned: it was guarded, and made the payout, the entry and the balance.
  abbrev pub Made : String → String → String → CreatePayout → C.State → ℤ → C.State → Type 0
  Made payout_id entry_id seller_id dto s n s' =
      (account_no : String) × ((bank_account C dto.bank_account_id seller_id (C.seen s)
          ≡ some account_no)
        × ((account : String × Account) × ((find_account_of seller_id seller_available (C.seen s)
                ≡ some account)
              × ((leb_ℤ dto.amount (pos 0) ≡ false)
                  × ((ltb_ℤ account.1.balance dto.amount ≡ false)
                      × Requested payout_id entry_id seller_id account_no dto account s n s')))))

  request-Returns :
      (payout_id entry_id seller_id : String) (dto : CreatePayout) (s : C.State)
      (account_no : String)
      → bank_account C dto.bank_account_id seller_id (C.seen s) ≡ some account_no
      → Returns
          (Made payout_id entry_id seller_id dto s)
          (request_to C payout_id entry_id seller_id dto account_no s)
  unfolding request_to request_from
  request-Returns payout_id entry_id seller_id dto s account_no is_no =
      let Q = Made payout_id entry_id seller_id dto s in
      let find = find_account_of seller_id seller_available in
      let from = request_from C payout_id entry_id seller_id account_no dto in
      let found = λ (o : Option (String × Account)). or_throw C balance_not_ready o >>= from in
      throw_if-Returns C Q (leb_ℤ dto.amount (pos 0)) amount_not_positive (query C find >>= found) s
        (λ positive. query-Returns C Q find found s (λ _.
          found-Returns C Q balance_not_ready (find (C.seen s)) from s (λ (id, a) there.
            let body =
              λ (before : C.State). payout_body C payout_id entry_id seller_id account_no dto id in
            throw_if-Returns C Q (ltb_ℤ a.balance dto.amount) balance_insufficient
              (transaction C body) s
              (λ enough. transaction-Returns C Q body s (
                more
                  (λ n u.
                    ((C.seen u).is_open ≡ true)
                    × Requested payout_id entry_id seller_id account_no dto (id, a) s n u)
                  (λ n u. ((C.seen u).is_open ≡ true) × Q n u) (body s s)
                  (λ n u h.
                    (h.0, (account_no, (is_no, ((id, a), (there, (positive, (enough, h.1))))))))
                  (body-Returns payout_id entry_id seller_id account_no dto id a s
                    (find_account_of_lem seller_id seller_available (C.seen s) id a there)))))))

  Made-Returns :
      (payout_id entry_id seller_id : String) (dto : CreatePayout) (s : C.State)
      → Returns
          (Made payout_id entry_id seller_id dto s)
          (create_payout C payout_id entry_id seller_id dto s)
  unfolding create_payout assert_seller_shop
  Made-Returns payout_id entry_id seller_id dto s =
      let Q = Made payout_id entry_id seller_id dto s in
      let bank = bank_account C dto.bank_account_id seller_id in
      let request = request_bank C payout_id entry_id seller_id dto in
      let rest = query C bank >>= request in
      bind-Returns Q (assert_seller_shop C seller_id) (λ _. rest) s
        (query-Returns C (λ _ u. Returns Q (rest u)) (λ t. t.owner_shops seller_id)
          (or_throw C only_sellers) s
          (λ _.
            or_throw-Returns C (λ _ u. Returns Q (rest u)) only_sellers
              ((C.seen s).owner_shops seller_id) s
              (λ shop _. query-Returns C Q bank request s (λ _.
                found-Returns C Q bank_account_missing (bank (C.seen s))
                  (request_to C payout_id entry_id seller_id dto) s
                  (request-Returns payout_id entry_id seller_id dto s)))))

-- Over every database: if createPayout returns, the seller has the bank account and a balance that is
-- ready, the amount is positive and at most that balance; the number it returns is the balance less the
-- amount; and the tables are as before, but for a pending payout of the amount, the entry that
-- takes the amount, and the balance of that account, which is what was returned.
pub create_payout_lem :
    (C : Client) (payout_id entry_id seller_id : String) (dto : CreatePayout) (s : C.State) {n : ℤ}
    {s' : C.State}
    → create_payout C payout_id entry_id seller_id dto s ≡ (ok n, s')
    → Made C payout_id entry_id seller_id dto s n s'
create_payout_lem C payout_id entry_id seller_id dto s e =
    returned (Made C payout_id entry_id seller_id dto s)
      (Made-Returns C payout_id entry_id seller_id dto s) e
