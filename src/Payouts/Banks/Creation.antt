-- ===== src/Payouts/Banks/Creation.antt =====
-- That createBankAccount of payouts.service.ts leaves a user at most one default bank account, and any
-- sequence of the calls on bank accounts.
use ops_marketplace_server.Base.{
  ◌+◌, ◌≤◌, sym, subst, arith, eq_iff, ◌==◌, ◌&&◌, ◌+◌, if◌then◌else◌, Bool-cases, inl, inr,
  bind_ok, bind_err, bind_holds, Bool, true, false, Option, none, some, List, [], ◌∷◌, String,
  Result, pure, ◌>>=◌, ◌>>◌,
}
use ops_marketplace_server.Database.{Client, Query, BankRow, find_bank, Error, query, write}
use ops_marketplace_server.Ledger.Keeps.{Always, Always-bind, Always-query}
use ops_marketplace_server.Ledger.Posting.{write_live}
use ops_marketplace_server.Payouts.{assert_seller_shop}
use ops_marketplace_server.Payouts.Banks.{
  row_of, store_bank, CreateBankAccount, clear_if, insert_bank, create_bank_account,
  set_default_bank_account, delete_bank_account,
}
use ops_marketplace_server.Payouts.Banks.Counts.{
  count_defaults, count-clear, count-clear_le, count-push,
}
use ops_marketplace_server.Payouts.Banks.Defaults.{
  HasOneDefault, P, write_closed, shop-P, write-P, set_default-P, delete-P,
}

-- A call on bank accounts, with its arguments.
pub data Call : Type 0 where
  creating : String → String → CreateBankAccount → Call
  choosing : String → String → Call
  deleting : String → String → Call

module _ (C : Client) where
  -- There is room for a row of the seller: if it is a default, the seller has none.
  abbrev Room : String → Bool → C.State → Type 0
  Room seller_id b s =
      (v : String)
      → (if seller_id == v && b then 1 else 0) + count_defaults v (C.seen s).bank_rows ≤ 1

  insert-P :
      (row : BankRow) (o : Option BankRow) (s : C.State)
      → Room row.user_id row.is_default s
      → P C s
      → P C (insert_bank C row o s).1
  insert-P row none s room one = write-P C (C.create_bank row) s one (λ _.
      rw C.create_bank_lem (λ v.
        let pushed = count-push v (C.seen s).bank_rows row in
        let fits = room v in grind (arith, pushed, fits)))
  insert-P row (some old) s room one = one

  -- The first write of createBankAccount makes room.
  cleared-P :
      {A : Type 0} (b : Bool) (seller_id : String) (k : Query C A) (s : C.State)
      → ((u : C.State) → Room seller_id b u → P C u → P C (k u).1)
      → P C s
      → P C ((clear_if C b seller_id >> k) s).1
  cleared-P false seller_id k s h one = h s (λ v. let few = one v in ground (arith, few)) one
  cleared-P {A} true seller_id k s h one =
      let Holds = λ (r : Result Error A × C.State). P C r.1 in
      let clear = write C (C.clear_banks seller_id) in
      elim (Bool-cases (C.seen s).is_open) [
        | inr closed ↦
            subst Holds
              (sym (bind_err clear (λ _. k) (write_closed C (C.clear_banks seller_id) s closed)))
              one
        | inl live ↦
            subst Holds
              (sym (bind_ok clear (λ _. k) (write_live C s live (C.clear_banks seller_id))))
              (h (C.clear_banks seller_id s)
                (rw C.clear_banks_lem (λ v.
                  let none_left = count-clear seller_id (C.seen s).bank_rows in
                  let less = count-clear_le v seller_id (C.seen s).bank_rows in
                  let few = one v in
                  let same = eq_iff seller_id v in grind (arith, none_left, less, few, same)))
                (rw C.clear_banks_lem (λ v.
                  let less = count-clear_le v seller_id (C.seen s).bank_rows in
                  let few = one v in omega (arith, less, few))))
      ]

  create-P :
      (new_id seller_id : String) (dto : CreateBankAccount)
      → Always C (P C) (create_bank_account C new_id seller_id dto)
  unfolding create_bank_account
  create-P new_id seller_id dto =
      let row = row_of C new_id seller_id dto in
      let find = query C (λ t. find_bank new_id t.bank_rows) in
      let store = store_bank C row in
      Always-bind C (P C) (assert_seller_shop C seller_id)
        (λ shop. clear_if C dto.is_default seller_id >> (find >>= store)) (shop-P C seller_id)
        (λ shop s one.
          cleared-P dto.is_default seller_id (find >>= store) s
            (λ u room one'.
              bind_holds (P C) find store u
                (Always-query C (P C) (λ t. find_bank new_id t.bank_rows) u one')
                (λ old.
                  let u' = (find u).1 in
                  let left =
                    insert-P row old u'
                      (Always-query C (Room seller_id dto.is_default)
                        (λ t. find_bank new_id t.bank_rows) u room)
                      (Always-query C (P C) (λ t. find_bank new_id t.bank_rows) u one') in
                  bind_holds (P C) (insert_bank C row old) (λ _. pure row) u' left (λ _. left)))
            one)

  -- The state after a call, whether it returned or threw.
  unfoldable pub apply_call : Call → C.State → C.State
  apply_call (creating new_id seller_id dto) s = (create_bank_account C new_id seller_id dto s).1
  apply_call (choosing account_id seller_id) s =
      (set_default_bank_account C account_id seller_id s).1
  apply_call (deleting account_id seller_id) s = (delete_bank_account C account_id seller_id s).1

  unfoldable pub run_bank_calls : List Call → C.State → C.State
  run_bank_calls [] s = s
  run_bank_calls (c ∷ cs) s = run_bank_calls cs (apply_call c s)

  apply_call-P : (c : Call) (s : C.State) → P C s → P C (apply_call c s)
  unfolding apply_call
  apply_call-P (creating new_id seller_id dto) = create-P new_id seller_id dto
  apply_call-P (choosing account_id seller_id) = set_default-P C account_id seller_id
  apply_call-P (deleting account_id seller_id) = delete-P C account_id seller_id

-- Over every database: if no user has two default bank accounts, none has two after any sequence of
-- calls of createBankAccount, setDefaultBankAccount and deleteBankAccount, whether the calls return or
-- throw.
pub run_bank_calls-HasOneDefault :
    (C : Client) (cs : List Call) (s : C.State)
    → HasOneDefault (C.seen s).bank_rows
    → HasOneDefault (C.seen (run_bank_calls C cs s)).bank_rows
unfolding run_bank_calls
run_bank_calls-HasOneDefault C [] s one = one
run_bank_calls-HasOneDefault C (c ∷ cs) s one =
    run_bank_calls-HasOneDefault C cs (apply_call C c s) (apply_call-P C c s one)
