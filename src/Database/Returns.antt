-- ===== src/Database/Returns.antt =====
-- What is known of a call that returned: rules for the parts of a `do` block over any database, which
-- follow the state through the block.
use ops_marketplace_server.Base.{
  ◌≡◌, refl, sym, subst, bind_ok, bind_err, Bool-cases, inl, inr, Bool, true, false, if◌then◌else◌,
  Option, none, some, Result, ok, err, Action, Void, throw_if, ◌>>=◌, ◌>>◌,
}
use ops_marketplace_server.Database.{
  Client, Tables, Query, Error, aborted, query, write, transaction, or_throw,
}

-- `Q` holds of what was returned and of the state after it.
abbrev pub Returns : {S E A : Type 0} → (A → S → Type 0) → Result E A × S → Type 0
Returns Q (ok a, s) = Q a s
Returns Q (err e, s) = Unit

-- What follows from what holds of a call that returned.
pub more :
    {S E A : Type 0} (P Q : A → S → Type 0) (r : Result E A × S)
    → ((a : A) (s : S) → P a s → Q a s)
    → Returns P r
    → Returns Q r
more P Q (ok a, s) f h = f a s h
more P Q (err e, s) f h = tt

pub returned :
    {S E A : Type 0} (Q : A → S → Type 0) {r : Result E A × S} {a : A} {s : S}
    → Returns Q r
    → r ≡ (ok a, s)
    → Q a s
returned Q h e = subst (λ r. Returns Q r) e h

result-Returns :
    {S E A B : Type 0} (Q : B → S → Type 0) (r : Result E A) (s : S) (k : A → Action S E B)
    → Returns (λ a u. Returns Q (k a u)) (r, s)
    → let r' : Result E B × S = elim r [ ok a ↦ k a s | err e ↦ (err e, s) ] in Returns Q r'
result-Returns Q (ok a) s k h = h
result-Returns Q (err e) s k h = tt

-- What the first call gives is what the rest is run on.
pub bind-Returns :
    {S E A B : Type 0} (Q : B → S → Type 0) (m : Action S E A) (k : A → Action S E B) (s : S)
    → Returns (λ a u. Returns Q (k a u)) (m s)
    → Returns Q ((m >>= k) s)
bind-Returns Q m k s h = result-Returns Q (m s).0 (m s).1 k h

module _ (C : Client) {B : Type 0} (Q : B → C.State → Type 0) where
  pub query-Returns :
      {A : Type 0} (f : Tables → A) (k : A → Query C B) (s : C.State)
      → ((C.seen s).is_open ≡ true → Returns Q (k (f (C.seen s)) s))
      → Returns Q ((query C f >>= k) s)
  unfolding query
  query-Returns f k s h = elim (Bool-cases (C.seen s).is_open) [
    | inl live ↦
        subst (λ r. Returns Q r)
          (sym (bind_ok (query C f) k {s' = s} {a = f (C.seen s)} (rw live refl))) (h live)
    | inr closed ↦
        subst (λ r. Returns Q r)
          (sym (bind_err (query C f) k {s' = s} {x = aborted} (rw closed refl))) tt
  ]

  pub write-Returns :
      (f : C.State → C.State) (k : Void → Query C B) (s : C.State)
      → ((C.seen s).is_open ≡ true → Returns Q (k tt (f s)))
      → Returns Q ((write C f >>= k) s)
  unfolding write
  write-Returns f k s h = elim (Bool-cases (C.seen s).is_open) [
    | inl live ↦
        subst (λ r. Returns Q r) (sym (bind_ok (write C f) k {s' = f s} {a = tt} (rw live refl)))
          (h live)
    | inr closed ↦
        subst (λ r. Returns Q r)
          (sym (bind_err (write C f) k {s' = s} {x = aborted} (rw closed refl))) tt
  ]

  pub throw_if-Returns :
      (b : Bool) (e : Error) (k : Query C B) (s : C.State)
      → (b ≡ false → Returns Q (k s))
      → Returns Q ((throw_if b e >> k) s)
  throw_if-Returns true e k s h = tt
  throw_if-Returns false e k s h = h refl

  pub found-Returns :
      {A : Type 0} (e : Error) (o : Option A) (k : A → Query C B) (s : C.State)
      → ((a : A) → o ≡ some a → Returns Q (k a s))
      → Returns Q ((or_throw C e o >>= k) s)
  found-Returns e none k s h = tt
  found-Returns e (some a) k s h = h a refl

  pub or_throw-Returns :
      (e : Error) (o : Option B) (s : C.State)
      → ((b : B) → o ≡ some b → Q b s)
      → Returns Q (or_throw C e o s)
  or_throw-Returns e none s h = tt
  or_throw-Returns e (some b) s h = h b refl

  transaction_step :
      (r : Result Error B) (s s' : C.State)
      → Returns (λ b u. ((C.seen u).is_open ≡ true) × Q b u) (r, s')
      → let r' : Result Error B × C.State = elim r [
        | err e ↦ (err e, s)
        | ok a ↦
            if (C.seen s').is_open
            then (ok a, s')
            else (if C.reports_rollback then err aborted else ok a, s)
      ] in
        Returns Q r'
  transaction_step (err e) s s' h = tt
  transaction_step (ok b) s s' (live, h) = rw live h

  -- A transaction that ends open is committed.
  pub transaction-Returns :
      (body : C.State → Query C B) (s : C.State)
      → Returns (λ b u. ((C.seen u).is_open ≡ true) × Q b u) (body s s)
      → Returns Q (transaction C body s)
  unfolding transaction
  transaction-Returns body s h = transaction_step (body s s).0 s (body s s).1 h
