-- ===== src/Database/Leaves.antt =====
-- What a call leaves, whether it returned or threw, when it was run from a state with more: rules for
-- a `do` block that tests what it reads before it writes, over any database.
use ops_marketplace_server.Base.{
  ◌≡◌, refl, bind_holds, if_holds, Bool, true, false, Option, none, some, Result, ok, err, Void,
  throw_if, ◌>>=◌, ◌>>◌,
}
use ops_marketplace_server.Database.{
  write, Client, Query, Tables, Goods, Error, aborted, query, edit, transaction, or_throw,
}
use ops_marketplace_server.Database.Returns.{Returns}
use ops_marketplace_server.Database.Triples.{Triple}
use ops_marketplace_server.Ledger.Keeps.{Then, transaction_step, Always}

module _ (C : Client) (J : Tables → Type 0) where
  -- From a state with `P`, the call leaves tables with `J`.
  abbrev pub Leaves : {A : Type 0} → (C.State → Type 0) → Query C A → Type 0
  Leaves P m = (s : C.State) → P s → J (C.seen (m s).1)

  Returns-Then :
      {A : Type 0} (r : Result Error A) (s : C.State)
      → Returns (λ _ u. J (C.seen u)) (r, s)
      → Then (λ u. J (C.seen u)) r s
  Returns-Then (ok a) s h = h
  Returns-Then (err e) s h = tt

  module _ (P : C.State → Type 0) (to : (u : C.State) → P u → J (C.seen u)) where
    pub Leaves-after :
        {A B : Type 0} (m : Query C A) (k : A → Query C B)
        → Always C P m
        → ((a : A) → Leaves P (k a))
        → Leaves P (m >>= k)
    Leaves-after m k hm hk s p =
        bind_holds (λ u. J (C.seen u)) m k s (to (m s).1 (hm s p)) (λ a. hk a (m s).1 (hm s p))

    -- A read at the head of a block, of which the rest knows what was read.
    pub Leaves-read :
        {A B : Type 0} (f : Tables → A) (k : A → Query C B)
        → ((a : A) → Leaves (λ u. (f (C.seen u) ≡ a) × P u) (k a))
        → Leaves P (query C f >>= k)
    unfolding query
    Leaves-read {A} {B} f k h s p =
        if_holds {A = Result Error A × C.State}
          (λ r.
            let r' : Result Error B × C.State = elim r.0 as (λ _. Result Error B × C.State) [
              | ok a ↦ k a r.1
              | err e ↦ (err e, r.1)
            ] in
            J (C.seen r'.1))
          (C.seen s).is_open (ok (f (C.seen s)), s) (err aborted, s) (h (f (C.seen s)) s (refl, p))
          (to s p)

    pub Leaves-found :
        {A B : Type 0} (e : Error) (o : Option A) (k : A → Query C B)
        → ((a : A) → o ≡ some a → Leaves P (k a))
        → Leaves P (or_throw C e o >>= k)
    Leaves-found e none k h s p = to s p
    Leaves-found e (some a) k h s p = h a refl s p

    pub Leaves-throw_if :
        {B : Type 0} (b : Bool) (e : Error) (k : Query C B)
        → Leaves P k
        → Leaves P (throw_if b e >> k)
    Leaves-throw_if true e k h s p = to s p
    Leaves-throw_if false e k h s p = h s p

    pub Leaves-edit :
        (f : Goods → Goods)
        → ((u : C.State) → P u → J (record (C.seen u) { goods = f (C.seen u).goods }))
        → Leaves P (edit C f)
    unfolding edit write
    Leaves-edit f h s p =
        if_holds {A = Result Error Void × C.State} (λ r. J (C.seen r.1)) (C.seen s).is_open
          (ok tt, C.put_goods (f (C.seen s).goods) s) (err aborted, s) (rw C.put_goods_lem (h s p))
          (to s p)

    -- A transaction whose body establishes `J` when it returns.
    pub Leaves-transaction :
        {A : Type 0} (body : C.State → Query C A)
        → ((before : C.State) → Triple C P (body before) (λ _ u. J (C.seen u)))
        → Leaves P (transaction C body)
    unfolding transaction
    Leaves-transaction body h s p =
        transaction_step C J (body s s).0 s (body s s).1 (to s p)
          (Returns-Then (body s s).0 (body s s).1 (h s s p))
