-- ===== src/Payouts/Banks/Defaults.antt =====
-- That a user has at most one default bank account, over the calls of payouts.service.ts.
use ops_marketplace_server.Base.{
  ◌+◌, ◌≤◌, ◌≡◌, refl, sym, subst, ◌∙◌, ap, arith, eq_iff, ◌+◌, Bool-cases, Option-cases, inl, inr,
  ◌⊎◌, bind_ok, bind_err, bind_holds, true, false, Option, none, some, List, String, Result, ok,
  err, throw_if, pure, ◌>>=◌, ◌>>◌,
}
use ops_marketplace_server.Database.{
  Client, Query, Tables, BankRow, find_bank, clear_defaults, mark_default, Error, aborted,
  only_sellers, bank_account_missing, bank_account_is_default, query, write, transaction, or_throw,
}
use ops_marketplace_server.Ledger.Keeps.{
  Always, Always-bind, Always-read, Always-or_throw, Always-throw_if, Then, transaction_step,
}
use ops_marketplace_server.Ledger.Posting.{query_live, write_live}
use ops_marketplace_server.Payouts.{assert_seller_shop, of_seller}
use ops_marketplace_server.Payouts.Banks.{
  get_bank_account, mark_found, default_body, set_default_bank_account, delete_bank_account,
}
use ops_marketplace_server.Payouts.Banks.Counts.{
  count_defaults, owner_of, one_for, count-clear, count-clear_le, owner-clear, count-mark,
  count-delete,
}

-- No user has two default accounts.
abbrev pub HasOneDefault : List BankRow → Type 0
HasOneDefault rs = (v : String) → count_defaults v rs ≤ 1

mark-HasOneDefault :
    (id u : String) (rs : List BankRow)
    → owner_of (find_bank id rs) ≡ some u
    → HasOneDefault rs
    → HasOneDefault (mark_default id (clear_defaults u rs))
mark-HasOneDefault id u rs mine one v =
    let le =
      subst
        (λ o.
          count_defaults v (mark_default id (clear_defaults u rs))
          ≤ one_for v o + count_defaults v (clear_defaults u rs))
        (owner-clear id u rs ∙ mine) (count-mark v id (clear_defaults u rs)) in
    let cleared = count-clear u rs in
    let less = count-clear_le v u rs in
    let few = one v in let same = eq_iff u v in grind (arith, le, cleared, less, few, same)

module _ (C : Client) where
  abbrev pub P : C.State → Type 0
  P s = HasOneDefault (C.seen s).bank_rows

  pub write_closed :
      (f : C.State → C.State) (s : C.State)
      → (C.seen s).is_open ≡ false
      → write C f s ≡ (err aborted, s)
  unfolding write
  write_closed f s closed = rw closed refl

  -- The body of setDefaultBankAccount on an account of the seller.
  default_body-P :
      (account_id seller_id : String) (s : C.State)
      → owner_of (find_bank account_id (C.seen s).bank_rows) ≡ some seller_id
      → P s
      → let (r, s') = default_body C account_id seller_id s in Then P r s'
  unfolding default_body
  default_body-P account_id seller_id s mine one =
      let Holds = λ (r : Result Error BankRow × C.State). Then P r.0 r.1 in
      let clear = write C (C.clear_banks seller_id) in
      let find = query C (λ t. find_bank account_id t.bank_rows) in
      let rest = find >>= mark_found C account_id in
      let s1 = C.clear_banks seller_id s in
      elim (Bool-cases (C.seen s).is_open) [
        | inr closed ↦
            subst Holds
              (sym (bind_err clear (λ _. rest) (write_closed (C.clear_banks seller_id) s closed)))
              tt
        | inl live ↦
            let live1 : (C.seen s1).is_open ≡ true = rw C.clear_banks_lem live in
            let start =
              bind_ok clear (λ _. rest) (write_live C s live (C.clear_banks seller_id))
              ∙ bind_ok find (mark_found C account_id)
                  (query_live C s1 live1 (λ t. find_bank account_id t.bank_rows)) in
            elim (Option-cases (find_bank account_id (C.seen s1).bank_rows)) [
              | inl gone ↦
                  subst Holds (sym (start ∙ ap (λ o. mark_found C account_id o s1) gone)) tt
              | inr (r, there) ↦
                  subst Holds
                    (sym (
                      start
                      ∙ ap (λ o. mark_found C account_id o s1) there
                      ∙ bind_ok (write C (C.mark_bank account_id))
                          (λ _. pure (record r { is_default = true }))
                          (write_live C s1 live1 (C.mark_bank account_id))))
                    (rw (C.mark_bank_lem, C.clear_banks_lem)
                      (mark-HasOneDefault account_id seller_id (C.seen s).bank_rows mine one))
            ]
      ]

  -- What getBankAccount returns is the seller's.
  of_seller-owner :
      (seller_id : String) (o : Option BankRow) {r : BankRow}
      → of_seller C seller_id o ≡ some r
      → owner_of o ≡ some seller_id
  of_seller-owner seller_id none e = ground arith
  of_seller-owner seller_id (some x) e = let same = eq_iff x.user_id seller_id in grind arith

  bank_found :
      (account_id seller_id : String) (s : C.State)
      → ((e : Error) × (get_bank_account C account_id seller_id s ≡ (err e, s)))
        ⊎ ((r : BankRow) × ((get_bank_account C account_id seller_id s ≡ (ok r, s))
              × (owner_of (find_bank account_id (C.seen s).bank_rows) ≡ some seller_id)))
  unfolding get_bank_account query
  bank_found account_id seller_id s =
      let find = λ (t : Tables). of_seller C seller_id (find_bank account_id t.bank_rows) in
      elim (Bool-cases (C.seen s).is_open) [
        | inr closed ↦ inl (
          aborted,
          bind_err (query C find) (or_throw C bank_account_missing) {s' = s} {x = aborted}
              (rw closed refl),
        )
        | inl live ↦
            let read =
              bind_ok (query C find) (or_throw C bank_account_missing) (query_live C s live find) in
            elim (Option-cases (find (C.seen s))) [
              | inl gone ↦
                  inl (
                    bank_account_missing,
                    read ∙ ap (λ o. or_throw C bank_account_missing o s) gone,
                  )
              | inr (r, there) ↦ inr (
                r,
                (
                  read ∙ ap (λ o. or_throw C bank_account_missing o s) there,
                  of_seller-owner seller_id (find_bank account_id (C.seen s).bank_rows) there,
                ),
              )
            ]
      ]

  pub shop-P : (seller_id : String) → Always C P (assert_seller_shop C seller_id)
  unfolding assert_seller_shop
  shop-P seller_id =
      Always-read C P (λ t. t.owner_shops seller_id) (or_throw C only_sellers)
        (Always-or_throw C P only_sellers)

  -- The rest of a call, on an account of the seller.
  found-P :
      {A : Type 0} (account_id seller_id : String) (k : BankRow → Query C A)
      → ((r : BankRow) (s : C.State)
          → owner_of (find_bank account_id (C.seen s).bank_rows) ≡ some seller_id
          → P s
          → P (k r s).1)
      → Always C P (get_bank_account C account_id seller_id >>= k)
  found-P {A} account_id seller_id k h s one =
      let Holds = λ (r : Result Error A × C.State). P r.1 in
      let get = get_bank_account C account_id seller_id in
      elim (bank_found account_id seller_id s) [
        | inl (e, threw) ↦ subst Holds (sym (bind_err get k threw)) one
        | inr (r, (found, mine)) ↦ subst Holds (sym (bind_ok get k found)) (h r s mine one)
      ]

  pub set_default-P :
      (account_id seller_id : String) → Always C P (set_default_bank_account C account_id seller_id)
  unfolding set_default_bank_account transaction
  set_default-P account_id seller_id =
      let run = transaction C (λ before. default_body C account_id seller_id) in
      Always-bind C P (assert_seller_shop C seller_id)
        (λ shop. get_bank_account C account_id seller_id >>= λ account. run) (shop-P seller_id)
        (λ shop.
          found-P account_id seller_id (λ account. run)
            (λ r s mine one.
              let (r', s') = default_body C account_id seller_id s in
              transaction_step C (λ t. HasOneDefault t.bank_rows) r' s s' one
                (default_body-P account_id seller_id s mine one)))

  pub write-P :
      (f : C.State → C.State) (s : C.State)
      → P s
      → ((C.seen s).is_open ≡ true → P (f s))
      → P (write C f s).1
  unfolding write
  write-P f s one h = elim (Bool-cases (C.seen s).is_open) [
    | inl live ↦ rw live (h live)
    | inr closed ↦ rw closed one
  ]

  pub delete-P :
      (account_id seller_id : String) → Always C P (delete_bank_account C account_id seller_id)
  unfolding delete_bank_account
  delete-P account_id seller_id =
      let remove = write C (C.remove_bank account_id) in
      let rest = λ (account : BankRow).
        throw_if account.is_default bank_account_is_default >> (remove >> pure account) in
      Always-bind C P (assert_seller_shop C seller_id)
        (λ shop. get_bank_account C account_id seller_id >>= rest) (shop-P seller_id)
        (λ shop. found-P account_id seller_id rest (λ r s mine one.
          Always-throw_if C P r.is_default bank_account_is_default (remove >> pure r)
            (λ u p.
              let left = write-P (C.remove_bank account_id) u p (λ _. rw C.remove_bank_lem (λ v.
                let less = count-delete v account_id (C.seen u).bank_rows in
                let few = p v in omega (arith, less, few))) in
              bind_holds P remove (λ _. pure r) u left (λ _. left))
            s one))
