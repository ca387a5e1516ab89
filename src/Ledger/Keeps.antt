-- ===== src/Ledger/Keeps.antt =====
-- What a call keeps when it returns: rules for the parts of a `do` block over any database. A call
-- that throws in a transaction leaves nothing behind, so nothing is asked of it.
use ops_marketplace_server.Base.{
  bind_holds, if_holds, Bool, true, false, if◌then◌else◌, Option, none, some, Result, ok, err,
  Action, throw_if, ◌>>=◌, ◌>>◌,
}
use ops_marketplace_server.Database.{Client, Tables, Error, aborted, query, or_throw, transaction}

-- `P` holds of the state after the call, if it returned.
abbrev pub Then : {S E A : Type 0} → (S → Type 0) → Result E A → S → Type 0
Then P (ok a) s = P s
Then P (err e) s = Unit

module _ {S E : Type 0} (P : S → Type 0) where
  abbrev pub Keeps : {A : Type 0} → Action S E A → Type 0
  Keeps m = (s : S) → P s → Then P (m s).0 (m s).1

  Keeps-step :
      {A B : Type 0} (r : Result E A) (s : S) (f : A → Action S E B)
      → Then P r s
      → ((a : A) → Keeps (f a))
      → let r' : Result E B × S = elim r [ ok a ↦ f a s | err e ↦ (err e, s) ] in Then P r'.0 r'.1
  Keeps-step (ok a) s f h k = k a s h
  Keeps-step (err e) s f h k = tt

  pub Keeps-bind :
      {A B : Type 0} (m : Action S E A) (f : A → Action S E B)
      → Keeps m
      → ((a : A) → Keeps (f a))
      → Keeps (m >>= f)
  Keeps-bind m f hm hf s p = Keeps-step (m s).0 (m s).1 f (hm s p) hf

  pub Keeps-throw_if : (b : Bool) (e : E) → Keeps (throw_if b e)
  Keeps-throw_if true e s p = tt
  Keeps-throw_if false e s p = p

  pub Keeps-if :
      {A : Type 0} (b : Bool) (m k : Action S E A) → Keeps m → Keeps k → Keeps (if b then m else k)
  Keeps-if true m k hm hk = hm
  Keeps-if false m k hm hk = hk

  pub Keeps-option :
      {A B : Type 0} (o : Option B) (m : Action S E A) (k : B → Action S E A)
      → Keeps m
      → ((b : B) → Keeps (k b))
      → Keeps (elim o [ none ↦ m | some b ↦ k b ])
  Keeps-option none m k hm hk = hm
  Keeps-option (some b) m k hm hk = hk b

module _ (C : Client) (P : Tables → Type 0) where
  -- A transaction that is open keeps what its body keeps, whether it returns or throws.
  pub transaction_step :
      {A : Type 0} (r : Result Error A) (s s' : C.State)
      → P (C.seen s)
      → Then (λ u. P (C.seen u)) r s'
      → let r' : Result Error A × C.State = elim r [
        | err e ↦ (err e, s)
        | ok a ↦
            if (C.seen s').is_open
            then (ok a, s')
            else (if C.reports_rollback then err aborted else ok a, s)
      ] in
        P (C.seen r'.1)
  transaction_step (err e) s s' p h = p
  transaction_step {A} (ok a) s s' p h =
      if_holds {A = Result Error A × C.State} (λ r. P (C.seen r.1)) (C.seen s').is_open (ok a, s')
        (if C.reports_rollback then err aborted else ok a, s) h p

  pub transaction-Keeps :
      {A : Type 0} (body : C.State → Action C.State Error A)
      → ((before : C.State) → Keeps (λ s. P (C.seen s)) (body before))
      → (s : C.State) → P (C.seen s)
      → P (C.seen (transaction C body s).1)
  unfolding transaction
  transaction-Keeps body h s p = transaction_step (body s s).0 s (body s s).1 p (h s s p)

  -- A read at the head of a block, of which the rest knows what was read.
  pub query-Keeps :
      {A B : Type 0} (Q : C.State → Type 0) (f : Tables → A) (k : A → Action C.State Error B)
      (s : C.State)
      → Then Q (k (f (C.seen s)) s).0 (k (f (C.seen s)) s).1
      → Then Q ((query C f >>= k) s).0 ((query C f >>= k) s).1
  unfolding query
  query-Keeps {A} {B} Q f k s h =
      if_holds {A = Result Error A × C.State}
        (λ r.
          let r' : Result Error B × C.State = elim r.0 as (λ _. Result Error B × C.State) [
            | ok a ↦ k a r.1
            | err e ↦ (err e, r.1)
          ] in
          Then Q r'.0 r'.1)
        (C.seen s).is_open (ok (f (C.seen s)), s) (err aborted, s) h tt

module _ (C : Client) where
  -- What holds of the state after a call, whether it returned or threw.
  abbrev pub Always : {A : Type 0} → (C.State → Type 0) → Action C.State Error A → Type 0
  Always P m = (s : C.State) → P s → P (m s).1

  pub Always-bind :
      {A B : Type 0} (P : C.State → Type 0) (m : Action C.State Error A)
      (k : A → Action C.State Error B)
      → Always P m
      → ((a : A) → Always P (k a))
      → Always P (m >>= k)
  Always-bind P m k hm hk s p = bind_holds P m k s (hm s p) (λ a. hk a (m s).1 (hm s p))

  pub Always-query : {A : Type 0} (P : C.State → Type 0) (f : Tables → A) → Always P (query C f)
  unfolding query
  Always-query {A} P f s p =
      if_holds {A = Result Error A × C.State} (λ r. P r.1) (C.seen s).is_open (ok (f (C.seen s)), s)
        (err aborted, s) p p

  pub Always-or_throw :
      {A : Type 0} (P : C.State → Type 0) (e : Error) (o : Option A) → Always P (or_throw C e o)
  Always-or_throw P e none s p = p
  Always-or_throw P e (some a) s p = p

  -- A read at the head of a block, and the rest on what was read.
  pub Always-read :
      {A B : Type 0} (P : C.State → Type 0) (f : Tables → A) (k : A → Action C.State Error B)
      → ((a : A) → Always P (k a))
      → Always P (query C f >>= k)
  Always-read P f k h s p =
      bind_holds P (query C f) k s (Always-query P f s p) (λ a. h a _ (Always-query P f s p))

  pub Always-found :
      {A B : Type 0} (P : C.State → Type 0) (e : Error) (o : Option A)
      (k : A → Action C.State Error B)
      → ((a : A) → Always P (k a))
      → Always P (or_throw C e o >>= k)
  Always-found P e none k h s p = p
  Always-found P e (some a) k h s p = h a s p

  pub Always-throw_if :
      {B : Type 0} (P : C.State → Type 0) (b : Bool) (e : Error) (k : Action C.State Error B)
      → Always P k
      → Always P (throw_if b e >> k)
  Always-throw_if P true e k h s p = p
  Always-throw_if P false e k h s p = h s p
