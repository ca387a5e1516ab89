-- ===== src/Payouts/Withdrawal.antt =====
-- The two queries by which createPayout of payouts.service.ts takes the amount of a request.
use ops_marketplace_server.Base.{
  bind_ok, bind_err, Bool-cases, Option-cases, ℤ, pos, ◌+ℤ◌, ◌-ℤ◌, ◌≡◌, refl, sym, subst, ◌∙◌, ◌⊎◌,
  inl, inr, false, is_some, String, Result, ok, err, pure, ◌>>◌,
}
use ops_marketplace_server.Database.{
  Client, Tables, Account, Entry, Error, aborted, unique_violation, query, increment, add_to,
  create_entry, find_entry,
}
use ops_marketplace_server.Ledger.Keeps.{Then}
use ops_marketplace_server.Ledger.Posting.{increment-none, increment-some}
use ops_marketplace_server.Ledger.Balance.{IsBalanced, Balances, post_row-IsBalanced}
use ops_marketplace_server.Payouts.{debit_entry, withdraw}

module _ (C : Client) where
  abbrev Books : C.State → Type 0
  Books s = IsBalanced (C.seen s)

  -- `tx.ledgerEntry.create` where its violation is not caught.
  pub create_cases :
      (e : Entry) (s : C.State)
      → ((x : Error) × (s' : C.State) × (create_entry C e s ≡ (err x, s')))
        ⊎ (create_entry C e s ≡ (ok tt, C.put_entry e s))
  unfolding create_entry
  create_cases e s = elim (Bool-cases (C.seen s).is_open) [
    | inr closed ↦ inl (aborted, s, rw closed refl)
    | inl live ↦
        elim (Bool-cases
          (is_some (find_entry e.account_id e.transaction_id e.category (C.seen s).entries))) [
            | inl old ↦ inl (unique_violation, C.refused s, rw (live, old) refl)
            | inr new ↦ inr (rw (live, new) refl)
          ]
  ]

  query_closed :
      {A : Type 0} (f : Tables → A) (s : C.State)
      → (C.seen s).is_open ≡ false
      → query C f s ≡ (err aborted, s)
  unfolding query
  query_closed f s closed = rw closed refl

  increment_closed :
      (id : String) (n : ℤ) (s : C.State)
      → (C.seen s).is_open ≡ false
      → increment C id n s ≡ (err aborted, s)
  unfolding increment
  increment_closed id n s closed =
      bind_err (query C (λ t. t.accounts id)) (add_to C id n)
        (query_closed (λ t. t.accounts id) s closed)

  module _ (entry_id account_id payout_id : String) (amount : ℤ) where
    -- The entry of the withdrawal, and the account after it.
    abbrev taken : Entry
    taken = debit_entry entry_id account_id payout_id amount

    abbrev left_of : Account → Account
    left_of a = record a { balance = a.balance +ℤ (pos 0 -ℤ amount) }

    pub withdraw-Balances : Balances C (withdraw C taken)
    unfolding withdraw
    withdraw-Balances s p =
        let Holds = λ (r : Result Error Account × C.State). Then Books r.0 r.1 in
        let n = pos 0 -ℤ amount in
        let rest = λ (updated : Account). create_entry C taken >> pure updated in
        elim (Bool-cases (C.seen s).is_open) [
          | inr closed ↦
              subst Holds
                (sym (
                  bind_err (increment C account_id n) rest
                    (increment_closed account_id n s closed)))
                tt
          | inl live ↦ elim (Option-cases ((C.seen s).accounts account_id)) [
            | inl row ↦
                subst Holds
                  (sym (
                    bind_err (increment C account_id n) rest
                      (increment-none C s live account_id n row)))
                  tt
            | inr (a, row) ↦
                let s' = C.put_account account_id (left_of a) s in
                let first =
                  bind_ok (increment C account_id n) rest
                    (increment-some C s live account_id n row) in
                elim (create_cases taken s') [
                  | inl (x, u, refusal) ↦
                      subst Holds
                        (sym
                          (first ∙ bind_err (create_entry C taken) (λ _. pure (left_of a)) refusal))
                        tt
                  | inr created ↦
                      subst Holds
                        (sym
                          (first ∙ bind_ok (create_entry C taken) (λ _. pure (left_of a)) created))
                        (rw (C.put_entry_lem, C.put_account_lem)
                          (post_row-IsBalanced taken a (C.seen s) row live p))
                ]
          ]
        ]
