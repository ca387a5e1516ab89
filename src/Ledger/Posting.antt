-- ===== src/Ledger/Posting.antt =====
-- How the calls of the database that post an entry end, over any client.
use ops_marketplace_server.Base.{
  bind_ok, bind_err, ℤ, ◌+ℤ◌, ◌≡◌, refl, ◌∙◌, arith, true, false, none, some, push, String, ok, err,
  pure,
}
use ops_marketplace_server.Database.{
  Client, Query, Tables, Account, Entry, signed, put_row, aborted, record_missing, query, write,
  create_entry_if_missing, add_to, increment, post_rest, post_then, find_entry,
}

-- The tables after an entry and the change of its account's balance.
abbrev pub post_row : Entry → Account → Tables → Tables
post_row e a t = record t {
  entries = push t.entries e;
  accounts =
      put_row e.account_id (record a { balance = a.balance +ℤ signed e.type e.amount }) t.accounts;
}

module _ (C : Client) where
  -- The state after an entry and the change of its account's balance.
  abbrev pub posted : Entry → Account → C.State → C.State
  posted e a s =
      C.put_account e.account_id (record a { balance = a.balance +ℤ signed e.type e.amount })
        (C.put_entry e s)

  pub seen-posted :
      (e : Entry) (a : Account) (s : C.State) → C.seen (posted e a s) ≡ post_row e a (C.seen s)
  seen-posted e a s = rw (C.put_account_lem, C.put_entry_lem) refl

  module _ (s : C.State) (live : (C.seen s).is_open ≡ true) where
    pub query_live : {A : Type 0} (f : Tables → A) → query C f s ≡ (ok (f (C.seen s)), s)
    unfolding query
    query_live f = rw live refl

    pub write_live : (f : C.State → C.State) → write C f s ≡ (ok tt, f s)
    unfolding write
    write_live f = rw live refl

    pub increment-none :
        (id : String) (n : ℤ)
        → (C.seen s).accounts id ≡ none
        → increment C id n s ≡ (err record_missing, s)
    unfolding increment
    increment-none id n row =
        bind_ok (query C (λ t. t.accounts id)) (add_to C id n) (query_live (λ t. t.accounts id))
        ∙ (rw row refl)

    pub increment-some :
        (id : String) (n : ℤ) {a : Account}
        → (C.seen s).accounts id ≡ some a
        → increment C id n s ≡ (
          ok (record a { balance = a.balance +ℤ n }),
          C.put_account id (record a { balance = a.balance +ℤ n }) s,
        )
    unfolding increment
    increment-some id n {a} row =
        let a' = record a { balance = a.balance +ℤ n } in
        bind_ok (query C (λ t. t.accounts id)) (add_to C id n) (query_live (λ t. t.accounts id))
        ∙ (rw row (
            bind_ok (write C (C.put_account id a')) (λ _. pure a')
              (write_live (C.put_account id a'))))

    pub create_new :
        (e : Entry)
        → find_entry e.account_id e.transaction_id e.category (C.seen s).entries ≡ none
        → create_entry_if_missing C e s ≡ (ok true, C.put_entry e s)
    unfolding create_entry_if_missing
    create_new e new = ground arith

    create_old :
        (e : Entry) {x : Entry}
        → find_entry e.account_id e.transaction_id e.category (C.seen s).entries ≡ some x
        → create_entry_if_missing C e s ≡ (ok false, C.refused s)
    unfolding create_entry_if_missing
    create_old e old = ground arith

  create_closed :
      (e : Entry) (s : C.State)
      → (C.seen s).is_open ≡ false
      → create_entry_if_missing C e s ≡ (err aborted, s)
  unfolding create_entry_if_missing
  create_closed e s closed = ground arith

  -- A new entry, of which the account is there or not.
  module _ {A : Type 0} (e : Entry) (f : Account → A) (m : Query C A) (s : C.State)
      (live : (C.seen s).is_open ≡ true)
      (new : find_entry e.account_id e.transaction_id e.category (C.seen s).entries ≡ none) where
    created_live : (C.seen (C.put_entry e s)).is_open ≡ true
    created_live = rw C.put_entry_lem live

    pub post_missing :
        (C.seen s).accounts e.account_id ≡ none
        → post_then C e f m s ≡ (err record_missing, C.put_entry e s)
    unfolding post_then
    post_missing row =
        bind_ok (create_entry_if_missing C e) (post_rest C e f m) (create_new s live e new)
        ∙ bind_err (increment C e.account_id (signed e.type e.amount)) (λ updated. pure (f updated))
            (increment-none (C.put_entry e s) created_live e.account_id (signed e.type e.amount)
              (rw C.put_entry_lem row))

    pub post_new :
        {a : Account}
        → (C.seen s).accounts e.account_id ≡ some a
        → post_then C e f m s
          ≡ (ok (f (record a { balance = a.balance +ℤ signed e.type e.amount })), posted e a s)
    unfolding post_then
    post_new row =
        bind_ok (create_entry_if_missing C e) (post_rest C e f m) (create_new s live e new)
        ∙ bind_ok (increment C e.account_id (signed e.type e.amount)) (λ updated. pure (f updated))
            (increment-some (C.put_entry e s) created_live e.account_id (signed e.type e.amount)
              (rw C.put_entry_lem row))

  pub post_old :
      {A : Type 0} (e : Entry) (f : Account → A) (m : Query C A) (s : C.State) {x : Entry}
      → (C.seen s).is_open ≡ true
      → find_entry e.account_id e.transaction_id e.category (C.seen s).entries ≡ some x
      → post_then C e f m s ≡ m (C.refused s)
  unfolding post_then
  post_old e f m s live old =
      bind_ok (create_entry_if_missing C e) (post_rest C e f m) (create_old s live e old)

  pub post_closed :
      {A : Type 0} (e : Entry) (f : Account → A) (m : Query C A) (s : C.State)
      → (C.seen s).is_open ≡ false
      → post_then C e f m s ≡ (err aborted, s)
  unfolding post_then
  post_closed e f m s closed =
      bind_err (create_entry_if_missing C e) (post_rest C e f m) (create_closed e s closed)
