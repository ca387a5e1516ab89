-- ===== src/Payouts/Failure.antt =====
-- What updatePayoutStatus of payouts.service.ts does to the ledger after createPayout.
use ops_marketplace_server.Base.{
  Bool-cases, ℤ, pos, ◌+ℤ◌, ◌-ℤ◌, ◌≡◌, refl, Bool, true, false, not, ◌&&◌, Bool-cases, inl, inr,
  push, List, [], ◌∷◌, Option, none, some, String, ◌==◌, eq_refl, ok, pure, ◌>>=◌, ◌>>◌,
}
use ops_marketplace_server.Ids.{Date}
use ops_marketplace_server.Payout.{PayoutStatus, equals}
use ops_marketplace_server.Database.{
  same_category, Client, Tables, Account, seller_available, Entry, payout, PayoutRow, only_sellers,
  payout_missing, payout_not_pending, query, outside, write, transaction, find_entry,
  find_account_of, post_if_missing, or_throw,
}
use ops_marketplace_server.Ledger.Keeps.{
  Keeps, Always, Keeps-bind, Keeps-if, Always-bind, Always-read, Always-or_throw, Always-throw_if,
}
use ops_marketplace_server.Ledger.Same.{
  SameLedger, SameLedger-refl, Stays, read-Stays, or_throw-Stays, write-Stays, post-Stays,
  transaction-Stays,
}
use ops_marketplace_server.Payouts.Effects.{find_account_of-requested, create_payout_lem}
use ops_marketplace_server.Payouts.{
  UpdatePayout, CreatePayout, updated_row, credit_entry, debit_entry, assert_seller_shop, of_user,
  get_payout, claim, give_back, after_claim, update_claimed, update_body, update_found,
  update_payout_status, create_payout,
}

module _ (C : Client) (old : Tables) where
  put_payout-Stays :
      (id : String) (row : PayoutRow) → Keeps (Stays C old) (write C (C.put_payout id row))
  put_payout-Stays id row = write-Stays C old (C.put_payout id row) (λ s p. rw C.put_payout_lem p)

  claim-Stays :
      (payout_id : String) (dto : UpdatePayout) (ref : Option String) (now : Date)
      (o : Option PayoutRow)
      → Keeps (Stays C old) (claim C payout_id dto ref now o)
  claim-Stays payout_id dto ref now none = λ s p. p
  claim-Stays payout_id dto ref now (some row) =
      let put = write C (C.put_payout payout_id (updated_row dto ref now row)) in
      Keeps-if (Stays C old) (equals row.status PayoutStatus.pending) (put >> pure true)
        (pure false)
        (Keeps-bind (Stays C old) put (λ _. pure true)
          (put_payout-Stays payout_id (updated_row dto ref now row)) (λ u s p. p))
        (λ s p. p)

  module _ (payout_id seller_id account_id : String) {a : Account} {x : Entry}
      (owns : find_account_of seller_id seller_available old ≡ some (account_id, a))
      (taken : find_entry account_id payout_id payout old.entries ≡ some x) where
    give_back-Stays :
        (entry_id : String) (amount : ℤ) (o : Option (String × Account))
        → o ≡ some (account_id, a)
        → Keeps (Stays C old) (give_back C entry_id payout_id amount o)
    unfolding post_if_missing
    give_back-Stays entry_id amount o is_it = rw is_it (
        post-Stays C old (credit_entry entry_id account_id payout_id amount) (λ _. tt) (pure tt)
          taken (λ s p. p))

    same_account :
        (t : Tables)
        → SameLedger old t
        → find_account_of seller_id seller_available t ≡ some (account_id, a)
    unfolding find_account_of
    same_account t p = rw (p.0, p.1.0) owns

    after_claim-Stays :
        (entry_id : String) (amount : ℤ) (status : PayoutStatus) (before : C.State)
        (updated : PayoutRow) (claimed : Bool)
        → SameLedger old (C.seen before)
        → Keeps
            (Stays C old)
            (after_claim C entry_id payout_id seller_id amount status before updated claimed)
    unfolding after_claim outside
    after_claim-Stays entry_id amount status before updated false p = λ s p. p
    after_claim-Stays entry_id amount status before updated true p =
        let back = λ (found : Option (String × Account)).
          give_back C entry_id payout_id amount found >> pure updated in
        let find = find_account_of seller_id seller_available in
        Keeps-if (Stays C old) (equals status PayoutStatus.failed) (outside C before find >>= back)
          (pure updated)
          (Keeps-bind (Stays C old) (give_back C entry_id payout_id amount (find (C.seen before)))
            (λ _. pure updated)
            (give_back-Stays entry_id amount (find (C.seen before))
              (same_account (C.seen before) p))
            (λ u s p. p))
          (λ s p. p)

    update_claimed-Stays :
        (entry_id : String) (amount : ℤ) (status : PayoutStatus) (before : C.State) (claimed : Bool)
        → SameLedger old (C.seen before)
        → Keeps
            (Stays C old)
            (update_claimed C entry_id payout_id seller_id amount status before claimed)
    unfolding update_claimed
    update_claimed-Stays entry_id amount status before claimed p =
        let rest = λ (updated : PayoutRow).
          after_claim C entry_id payout_id seller_id amount status before updated claimed in
        read-Stays C old (λ t. t.payouts payout_id)
          (λ found. or_throw C payout_missing found >>= rest)
          (λ found.
            Keeps-bind (Stays C old) (or_throw C payout_missing found) rest
              (or_throw-Stays C old payout_missing found)
              (λ updated. after_claim-Stays entry_id amount status before updated claimed p))

    update_found_same :
        (entry_id : String) (dto : UpdatePayout) (now : Date) (row : PayoutRow)
        → Always C
            (λ s. SameLedger old (C.seen s))
            (update_found C entry_id payout_id seller_id dto now row)
    unfolding update_found update_body
    update_found_same entry_id dto now row =
        let rest = update_claimed C entry_id payout_id seller_id row.amount dto.status in
        let body = update_body C entry_id payout_id seller_id dto now row in
        Always-throw_if C (λ s. SameLedger old (C.seen s))
          (not (equals row.status PayoutStatus.pending)) payout_not_pending (transaction C body)
          (transaction-Stays C old body (λ before p.
            read-Stays C old (λ t. t.payouts payout_id)
              (λ current. claim C payout_id dto row.reference now current >>= rest before)
              (λ current.
                Keeps-bind (Stays C old) (claim C payout_id dto row.reference now current)
                  (rest before) (claim-Stays payout_id dto row.reference now current)
                  (λ claimed.
                    update_claimed-Stays entry_id row.amount dto.status before claimed p))))

    update_same :
        (entry_id : String) (dto : UpdatePayout) (now : Date)
        → Always C
            (λ s. SameLedger old (C.seen s))
            (update_payout_status C entry_id payout_id seller_id dto now)
    unfolding update_payout_status get_payout assert_seller_shop
    update_same entry_id dto now =
        let P = λ (s : C.State). SameLedger old (C.seen s) in
        let find = λ (t : Tables). of_user C seller_id (t.payouts payout_id) in
        Always-bind C P (get_payout C payout_id seller_id)
          (update_found C entry_id payout_id seller_id dto now)
          (Always-bind C P (assert_seller_shop C seller_id)
            (λ shop. query C find >>= or_throw C payout_missing)
            (Always-read C P (λ t. t.owner_shops seller_id) (or_throw C only_sellers)
              (Always-or_throw C P only_sellers))
            (λ shop.
              Always-read C P find (or_throw C payout_missing)
                (Always-or_throw C P payout_missing)))
          (update_found_same entry_id dto now)

-- Over every database: if the entries have one of the seller's available account with the payout's id
-- and the category of payouts, which createPayout makes, then updatePayoutStatus changes no account and
-- no entry, also when it marks the payout as failed: the amount is never given back.
pub update_payout_keeps_ledger :
    (C : Client) (entry_id payout_id seller_id account_id : String) (dto : UpdatePayout)
    (now : Date) (s : C.State) {a : Account} {x : Entry}
    → find_account_of seller_id seller_available (C.seen s) ≡ some (account_id, a)
    → find_entry account_id payout_id payout (C.seen s).entries ≡ some x
    → SameLedger
        (C.seen s)
        (C.seen (update_payout_status C entry_id payout_id seller_id dto now s).1)
update_payout_keeps_ledger C entry_id payout_id seller_id account_id dto now s owns taken =
    update_same C (C.seen s) payout_id seller_id account_id owns taken entry_id dto now s
      (SameLedger-refl (C.seen s))

entry_there :
    (e : Entry) (es : List Entry)
    → (x : Entry) × (find_entry e.account_id e.transaction_id payout
          (push es (record e { category = payout }))
        ≡ some x)
unfolding find_entry same_category
entry_there e [] =
    (record e { category = payout }, rw (eq_refl e.account_id, eq_refl e.transaction_id) refl)
entry_there e (y ∷ ys) =
    elim (Bool-cases (
      y.account_id == e.account_id
      && (y.transaction_id == e.transaction_id && same_category y.category payout))) [
        | inl same ↦ (y, rw same refl)
        | inr other ↦ let (x, found) = entry_there e ys in (x, rw other found)
      ]

-- Over every database: after a call of createPayout that returned, no call of updatePayoutStatus on
-- that payout by that seller changes an account or an entry: a payout that is marked as failed does not
-- give its amount back.
pub failed_payout_keeps_ledger :
    (C : Client) (payout_id entry_id seller_id : String) (request : CreatePayout) (s : C.State)
    {n : ℤ} {s' : C.State} (new_id : String) (dto : UpdatePayout) (now : Date)
    → create_payout C payout_id entry_id seller_id request s ≡ (ok n, s')
    → SameLedger
        (C.seen s')
        (C.seen (update_payout_status C new_id payout_id seller_id dto now s').1)
failed_payout_keeps_ledger C payout_id entry_id seller_id request s {n = n} {s' = s'} new_id dto now
      e =
    let (account_no, (is_no, ((account_id, a), (there, (positive, (enough, (is_n, after))))))) =
      create_payout_lem C payout_id entry_id seller_id request s e in
    let (x, taken) =
      entry_there (debit_entry entry_id account_id payout_id request.amount) (C.seen s).entries in
    update_payout_keeps_ledger C new_id payout_id seller_id account_id dto now s'
      {a = record a { balance = a.balance +ℤ (pos 0 -ℤ request.amount) }} {x = x}
      (rw after (
        find_account_of-requested payout_id entry_id seller_id account_no request seller_available
          (C.seen s) account_id a there))
      (rw after taken)
