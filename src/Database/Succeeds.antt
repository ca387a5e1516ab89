-- ===== src/Database/Succeeds.antt =====
-- A call that returns: rules that follow a `do` block over any database whose transaction is open.
use ops_marketplace_server.Base.{
  ◌≡◌, refl, sym, ◌∙◌, subst, ap, bind_ok, if◌then◌else◌, Result, ok, err, Void, ◌>>=◌,
}
use ops_marketplace_server.Database.{
  Client, Query, Tables, Goods, Error, aborted, query, write, edit, transaction,
}
use ops_marketplace_server.Database.Triples.{IsLive}
use ops_marketplace_server.Ledger.Posting.{query_live, write_live}

module _ (C : Client) where
  -- The call returns a value and leaves a state with `Q`.
  abbrev pub Succeeds : {A : Type 0} → Query C A → C.State → (A → C.State → Type 0) → Type 0
  Succeeds {A} m s Q = (a : A) × ((u : C.State) × ((m s ≡ (ok a, u)) × Q a u))

  -- The rest of a block, from what its first call gave.
  pub Succeeds-after :
      {A B : Type 0} (R : B → C.State → Type 0) (m : Query C A) (k : A → Query C B) {s u : C.State}
      {a : A}
      → m s ≡ (ok a, u)
      → Succeeds (k a) u R
      → Succeeds (m >>= k) s R
  Succeeds-after R m k e (b, (v, (f, r))) = (b, (v, (bind_ok m k e ∙ f, r)))

  pub Succeeds-bind :
      {A B : Type 0} (Q : A → C.State → Type 0) (R : B → C.State → Type 0) (m : Query C A)
      (k : A → Query C B) (s : C.State)
      → Succeeds m s Q
      → ((a : A) (u : C.State) → Q a u → Succeeds (k a) u R)
      → Succeeds (m >>= k) s R
  Succeeds-bind Q R m k s (a, (u, (e, q))) f = Succeeds-after R m k e (f a u q)

  pub Succeeds-read :
      {A B : Type 0} (R : B → C.State → Type 0) (f : Tables → A) (k : A → Query C B) (s : C.State)
      → IsLive C s
      → {a : A} → f (C.seen s) ≡ a
      → Succeeds (k a) s R
      → Succeeds (query C f >>= k) s R
  Succeeds-read R f k s live is_a h =
      Succeeds-after R (query C f) k (query_live C s live f)
        (subst (λ a. Succeeds (k a) s R) (sym is_a) h)

  pub Succeeds-write :
      {B : Type 0} (R : B → C.State → Type 0) (f : C.State → C.State) (k : Void → Query C B)
      (s : C.State)
      → IsLive C s
      → Succeeds (k tt) (f s) R
      → Succeeds (write C f >>= k) s R
  Succeeds-write R f k s live h = Succeeds-after R (write C f) k (write_live C s live f) h

  pub edit_live :
      (f : Goods → Goods) (s : C.State)
      → IsLive C s
      → edit C f s ≡ (ok tt, C.put_goods (f (C.seen s).goods) s)
  unfolding edit
  edit_live f s live = write_live C s live (λ u. C.put_goods (f (C.seen u).goods) u)

  pub Succeeds-transaction :
      {A : Type 0} (R : A → C.State → Type 0) (body : C.State → Query C A) (s : C.State)
      → Succeeds (body s) s (λ a u. IsLive C u × R a u)
      → Succeeds (transaction C body) s R
  unfolding transaction
  Succeeds-transaction {A} R body s (a, (u, (e, (live, r)))) =
      let commit = λ (p : Result Error A × C.State).
        let (x, s') = p in
        elim x as (λ _. Result Error A × C.State) [
          | err y ↦ (err y, s)
          | ok b ↦
              if (C.seen s').is_open
              then (ok b, s')
              else (if C.reports_rollback then err aborted else ok b, s)
        ] in
      (a, (u, (ap commit e ∙ rw live refl, r)))
