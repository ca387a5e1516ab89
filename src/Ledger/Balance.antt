-- ===== src/Ledger/Balance.antt =====
-- The books of the ledger: what the balance of an account is to the entries of that account.
use ops_marketplace_server.Base.{
  subst, if_holds, ℤ, pos, ◌+ℤ◌, ◌≡◌, refl, sym, inl, inr, arith, int_laws, ◌==◌, eq_iff,
  if◌then◌else◌, true, Bool-cases, Option-cases, Option, none, some, List, [], ◌∷◌, push, String,
  Result, ok, err, Action, pure, ◌>>=◌,
}
use ops_marketplace_server.Database.{
  Client, Tables, Account, Entry, signed, Error, aborted, query, outside, write, open_account,
  upsert_account, post_then, open_at, AccountType, or_throw, upsert_found, Query, find_entry,
}
use ops_marketplace_server.Ledger.Posting.{
  post_row, seen-posted, post_closed, post_old, post_missing, post_new,
}
use ops_marketplace_server.Ledger.Keeps.{Then, Keeps, query-Keeps, Keeps-bind}

-- The signed amounts of an account's entries.
unfoldable pub total : String → List Entry → ℤ
total id [] = pos 0
total id (e ∷ es) =
    if e.account_id == id then signed e.type e.amount +ℤ total id es else total id es

total-push :
    (id : String) (es : List Entry) (e : Entry)
    → total id (push es e)
      ≡ total id es +ℤ (if e.account_id == id then signed e.type e.amount else pos 0)
unfolding total
total-push id [] e = grind int_laws
total-push id (x ∷ es) e = grind (int_laws, total-push id es e)

abbrev pub balance_at : String → Tables → ℤ
balance_at id t = elim (t.accounts id) [ none ↦ pos 0 | some a ↦ a.balance ]

-- Every balance is the sum of the signed amounts of its entries, and what is not an account has no
-- entries that count. A transaction that was given up is left out: it is rolled back.
abbrev pub IsBalanced : Tables → Type 0
IsBalanced t = t.is_open ≡ true → (id : String) → balance_at id t ≡ total id t.entries

pub post_row-IsBalanced :
    (e : Entry) (a : Account) (t : Tables)
    → t.accounts e.account_id ≡ some a
    → t.is_open ≡ true
    → IsBalanced t
    → IsBalanced (post_row e a t)
post_row-IsBalanced e a t row h p o id =
    let eq = eq_iff e.account_id id in
    let old = p h id in let push = total-push id t.entries e in grind (int_laws, eq, old, push)

module _ (C : Client) where
  abbrev pub Balances : {A : Type 0} → Action C.State Error A → Type 0
  Balances m = Keeps (λ s. IsBalanced (C.seen s)) m

  pub query-Balances : {A : Type 0} (f : Tables → A) → Balances (query C f)
  unfolding query
  query-Balances {A} f s p =
      if_holds {A = Result Error A × C.State} (λ r. Then (λ u. IsBalanced (C.seen u)) r.0 r.1)
        (C.seen s).is_open (ok (f (C.seen s)), s) (err aborted, s) p tt

  -- A read, and the rest on what was read.
  pub read-Balances :
      {A B : Type 0} (f : Tables → A) (k : A → Query C B)
      → ((a : A) → Balances (k a))
      → Balances (query C f >>= k)
  read-Balances f k h = Keeps-bind (λ s. IsBalanced (C.seen s)) (query C f) k (query-Balances f) h

  refused-Balances : (s : C.State) → IsBalanced (C.seen s) → IsBalanced (C.seen (C.refused s))
  refused-Balances s p = elim (C.refused_lem s) [ inl same ↦ rw same p | inr closed ↦ λ h. cc ]

  pub post-Balances :
      {A : Type 0} (e : Entry) (f : Account → A) (m : Query C A)
      → Balances m
      → Balances (post_then C e f m)
  post-Balances {A} e f m hm s p =
      let Holds = λ (r : Result Error A × C.State). Then (λ u. IsBalanced (C.seen u)) r.0 r.1 in
      elim (Bool-cases (C.seen s).is_open) [
        | inr closed ↦ subst Holds (sym (post_closed C e f m s closed)) tt
        | inl live ↦
            elim (Option-cases
              (find_entry e.account_id e.transaction_id e.category (C.seen s).entries)) [
                | inr (x, old) ↦
                    subst Holds (sym (post_old C e f m s live old))
                      (hm (C.refused s) (refused-Balances s p))
                | inl new ↦ elim (Option-cases ((C.seen s).accounts e.account_id)) [
                  | inl row ↦ subst Holds (sym (post_missing C e f m s live new row)) tt
                  | inr (a, row) ↦
                      subst Holds (sym (post_new C e f m s live new row))
                        (rw (seen-posted C e a s) (post_row-IsBalanced e a (C.seen s) row live p))
                ]
              ]
      ]

  pub write-Balances :
      (f : C.State → C.State)
      → ((s : C.State) → IsBalanced (C.seen s) → IsBalanced (C.seen (f s)))
      → Balances (write C f)
  unfolding write
  write-Balances f h s p =
      if_holds {A = Result Error (Unit {0}) × C.State}
        (λ r. Then (λ u. IsBalanced (C.seen u)) r.0 r.1) (C.seen s).is_open (ok tt, f s)
        (err aborted, s) (h s p) tt

  pub or_throw-Balances : {A : Type 0} (e : Error) (o : Option A) → Balances (or_throw C e o)
  or_throw-Balances e none s p = tt
  or_throw-Balances e (some a) s p = p

  pub outside-Balances :
      {A : Type 0} (before : C.State) (f : Tables → A) → Balances (outside C before f)
  unfolding outside
  outside-Balances before f s p = p

  -- A new account begins at nothing, which is what its missing entries come to.
  pub create_account-Balances :
      (id : String) (owner : Option String) (type : AccountType) (s : C.State)
      → (C.seen s).accounts id ≡ none
      → IsBalanced (C.seen s)
      → IsBalanced (
          C.seen
            (C.create_account id (record { owner_id = owner; type = type; balance = pos 0 }) s))
  create_account-Balances id owner type s row p =
      rw C.create_account_lem
        (λ h j. let old = p h j in let none = p h id in ground (arith, old, none, eq_iff id j))

  open_at-Balances :
      (o : Option Account) (id : String) (owner : Option String) (type : AccountType) (s : C.State)
      → (C.seen s).accounts id ≡ o
      → IsBalanced (C.seen s)
      → let (r, s') = open_at C id owner type o s in Then (λ u. IsBalanced (C.seen u)) r s'
  unfolding write
  open_at-Balances none id owner type s row p =
      if_holds {A = Result Error (Unit {0}) × C.State}
        (λ r. Then (λ u. IsBalanced (C.seen u)) r.0 r.1) (C.seen s).is_open
        (ok tt, C.create_account id (record { owner_id = owner; type = type; balance = pos 0 }) s)
        (err aborted, s) (create_account-Balances id owner type s row p) tt
  open_at-Balances (some a) id owner type s row p = tt

  pub open-Balances :
      (id : String) (owner : Option String) (type : AccountType)
      → Balances (open_account C id owner type)
  unfolding open_account
  open-Balances id owner type s p =
      query-Keeps C IsBalanced (λ u. IsBalanced (C.seen u)) (λ t. t.accounts id)
        (open_at C id owner type) s
        (open_at-Balances ((C.seen s).accounts id) id owner type s refl p)

  upsert_found-Balances :
      (o : Option String) (new_id owner : String) (type : AccountType)
      → Balances (upsert_found C new_id owner type o)
  upsert_found-Balances none new_id owner type =
      Keeps-bind (λ s. IsBalanced (C.seen s)) (open_account C new_id (some owner) type)
        (λ _. pure new_id) (open-Balances new_id (some owner) type) (λ _ s p. p)
  upsert_found-Balances (some id) new_id owner type = λ s p. p

  pub upsert-Balances :
      (new_id owner : String) (type : AccountType) → Balances (upsert_account C new_id owner type)
  unfolding upsert_account
  upsert-Balances new_id owner type =
      Keeps-bind (λ s. IsBalanced (C.seen s)) (query C (λ t. t.account_ids owner type))
        (upsert_found C new_id owner type) (query-Balances (λ t. t.account_ids owner type))
        (λ o. upsert_found-Balances o new_id owner type)
