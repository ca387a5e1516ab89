-- ===== src/Ledger/Same.antt =====
-- Calls that leave the accounts and the entries of the ledger as they were.
use ops_marketplace_server.Base.{
  ◌≡◌, refl, sym, subst, inl, inr, if_holds, Bool-cases, true, if◌then◌else◌, Option, none, some,
  String, Result, ok, err, Void, pure, ◌>>=◌,
}
use ops_marketplace_server.Database.{
  Client, Query, Tables, Account, Entry, Category, Error, aborted, account_missing, query, write,
  transaction, find_entry, post_then, or_throw,
}
use ops_marketplace_server.Ledger.{
  RecordEntry, entry_of, get_account, read_existing, record_body, record_entry,
}
use ops_marketplace_server.Ledger.Keeps.{
  Then, Keeps, Always, Keeps-bind, Always-bind, Always-read, Always-or_throw,
}
use ops_marketplace_server.Ledger.Posting.{post_old, post_closed}

-- The accounts, their index and the entries are those of `old`.
abbrev pub SameLedger : Tables → Tables → Type 0
SameLedger old t =
    (t.accounts ≡ old.accounts) × ((t.account_ids ≡ old.account_ids) × (t.entries ≡ old.entries))

pub SameLedger-refl : (t : Tables) → SameLedger t t
SameLedger-refl t = (refl, (refl, refl))

module _ (C : Client) (old : Tables) where
  -- The ledger is that of `old`, unless the transaction was given up.
  abbrev pub Stays : C.State → Type 0
  Stays s = (C.seen s).is_open ≡ true → SameLedger old (C.seen s)

  pub query-Stays : {A : Type 0} (f : Tables → A) → Keeps Stays (query C f)
  unfolding query
  query-Stays {A} f s p =
      if_holds {A = Result Error A × C.State} (λ r. Then Stays r.0 r.1) (C.seen s).is_open
        (ok (f (C.seen s)), s) (err aborted, s) p tt

  pub read-Stays :
      {A B : Type 0} (f : Tables → A) (k : A → Query C B)
      → ((a : A) → Keeps Stays (k a))
      → Keeps Stays (query C f >>= k)
  read-Stays f k h = Keeps-bind Stays (query C f) k (query-Stays f) h

  pub or_throw-Stays : {A : Type 0} (e : Error) (o : Option A) → Keeps Stays (or_throw C e o)
  or_throw-Stays e none s p = tt
  or_throw-Stays e (some a) s p = p

  pub write-Stays :
      (f : C.State → C.State) → ((s : C.State) → Stays s → Stays (f s)) → Keeps Stays (write C f)
  unfolding write
  write-Stays f h s p =
      if_holds {A = Result Error Void × C.State} (λ r. Then Stays r.0 r.1) (C.seen s).is_open
        (ok tt, f s) (err aborted, s) (h s p) tt

  refused-Stays : (s : C.State) → Stays s → Stays (C.refused s)
  refused-Stays s p = elim (C.refused_lem s) [ inl same ↦ rw same p | inr closed ↦ λ h. cc ]

  -- An entry of which the key is taken is not created, and no balance changes.
  pub post-Stays :
      {A : Type 0} (e : Entry) {x : Entry} (f : Account → A) (m : Query C A)
      → find_entry e.account_id e.transaction_id e.category old.entries ≡ some x
      → Keeps Stays m
      → Keeps Stays (post_then C e f m)
  post-Stays {A} e {x = x} f m there hm s p =
      let Holds = λ (r : Result Error A × C.State). Then Stays r.0 r.1 in
      elim (Bool-cases (C.seen s).is_open) [
        | inr closed ↦ subst Holds (sym (post_closed C e f m s closed)) tt
        | inl live ↦
            subst Holds (sym (post_old C e f m s {x = x} live (rw (p live).1.1 there)))
              (hm (C.refused s) (refused-Stays s p))
      ]

  -- A transaction that is given up is rolled back.
  commit_step :
      {A : Type 0} (r : Result Error A) (s s' : C.State)
      → SameLedger old (C.seen s)
      → Then Stays r s'
      → let r' : Result Error A × C.State = elim r [
        | err e ↦ (err e, s)
        | ok a ↦
            if (C.seen s').is_open
            then (ok a, s')
            else (if C.reports_rollback then err aborted else ok a, s)
      ] in
        SameLedger old (C.seen r'.1)
  commit_step (err e) s s' p h = p
  commit_step {A} (ok a) s s' p h = elim (Bool-cases (C.seen s').is_open) [
    | inl live ↦ rw live (h live)
    | inr closed ↦ rw closed p
  ]

  pub transaction-Stays :
      {A : Type 0} (body : C.State → Query C A)
      → ((before : C.State) → SameLedger old (C.seen before) → Keeps Stays (body before))
      → Always C (λ s. SameLedger old (C.seen s)) (transaction C body)
  unfolding transaction
  transaction-Stays body h s p = commit_step (body s s).0 s (body s s).1 p (h s p s (λ live. p))

module _ (C : Client) where
  existing-Stays :
      (old : Tables) (account_id transaction_id : String) (category : Category)
      → Keeps (Stays C old) (read_existing C account_id transaction_id category)
  unfolding read_existing
  existing-Stays old account_id transaction_id category =
      let find = λ (t : Tables). find_entry account_id transaction_id category t.entries in
      read-Stays C old (λ t. t.accounts account_id)
        (λ current. query C find >>= λ found. pure (found, current))
        (λ current. read-Stays C old find (λ found. pure (found, current)) (λ found s p. p))

  record-Stays :
      (old : Tables) (new_id : String) (dto : RecordEntry) {x : Entry}
      → find_entry dto.account_id dto.transaction_id dto.category old.entries ≡ some x
      → Always C (λ s. SameLedger old (C.seen s)) (record_entry C new_id dto)
  unfolding record_entry record_body get_account
  record-Stays old new_id dto there =
      let P = λ (s : C.State). SameLedger old (C.seen s) in
      Always-bind C P (get_account C dto.account_id)
        (λ _. transaction C (λ before. record_body C new_id dto))
        (Always-read C P (λ t. t.accounts dto.account_id) (or_throw C account_missing)
          (Always-or_throw C P account_missing))
        (λ _.
          transaction-Stays C old (λ before. record_body C new_id dto)
            (λ before p.
              post-Stays C old (entry_of new_id dto) (λ a. (some (entry_of new_id dto), some a))
                (read_existing C dto.account_id dto.transaction_id dto.category) there
                (existing-Stays old dto.account_id dto.transaction_id dto.category)))

-- Over every database: if an entry with the account, the transaction id and the category of a call of
-- recordEntry is there, the call changes no account, no index of an account and no entry,
-- whatever its amount and its type, and whether the call returns or throws.
pub record_entry_again :
    (C : Client) (new_id : String) (dto : RecordEntry) (s : C.State) {x : Entry}
    → find_entry dto.account_id dto.transaction_id dto.category (C.seen s).entries ≡ some x
    → SameLedger (C.seen s) (C.seen (record_entry C new_id dto s).1)
record_entry_again C new_id dto s there =
    record-Stays C (C.seen s) new_id dto there s (SameLedger-refl (C.seen s))
