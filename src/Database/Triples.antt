-- ===== src/Database/Triples.antt =====
-- Triples: from a state with `P`, a call that returns leaves a value and a state with `Q`. The rules
-- follow a `do` block over any database.
use ops_marketplace_server.Base.{
  ◌≡◌, refl, Bool-cases, inl, inr, Bool, true, false, Option, none, some, Void, throw_if, ◌>>=◌,
  ◌>>◌,
}
use ops_marketplace_server.Database.{
  Client, Query, Tables, Goods, Error, query, write, edit, transaction, or_throw,
}
use ops_marketplace_server.Database.Returns.{
  Returns, more, bind-Returns, query-Returns, write-Returns, transaction-Returns,
}

module _ (C : Client) where
  abbrev pub Triple :
      {A : Type 0} → (C.State → Type 0) → Query C A → (A → C.State → Type 0) → Type 0
  Triple P m Q = (s : C.State) → P s → Returns Q (m s)

  abbrev pub IsLive : C.State → Type 0
  IsLive s = (C.seen s).is_open ≡ true

  pub Triple-bind :
      {A B : Type 0} (P : C.State → Type 0) (Q : A → C.State → Type 0) (R : B → C.State → Type 0)
      (m : Query C A) (k : A → Query C B)
      → Triple P m Q
      → ((a : A) → Triple (Q a) (k a) R)
      → Triple P (m >>= k) R
  Triple-bind P Q R m k hm hk s p =
      bind-Returns R m k s (more Q (λ a u. Returns R (k a u)) (m s) (λ a u q. hk a u q) (hm s p))

  pub Triple-more :
      {A : Type 0} (P : C.State → Type 0) (Q R : A → C.State → Type 0) (m : Query C A)
      → Triple P m Q
      → ((a : A) (u : C.State) → Q a u → R a u)
      → Triple P m R
  Triple-more P Q R m h f s p = more Q R (m s) f (h s p)

  -- A read at the head of a block: the rest runs from the same state.
  pub Triple-read :
      {A B : Type 0} (P : C.State → Type 0) (R : B → C.State → Type 0) (f : Tables → A)
      (k : A → Query C B)
      → ((a : A) → Triple (λ u. (f (C.seen u) ≡ a) × (IsLive u × P u)) (k a) R)
      → Triple P (query C f >>= k) R
  Triple-read P R f k h s p = query-Returns C R f k s (λ live. h (f (C.seen s)) s (refl, (live, p)))

  -- A write at the head of a block.
  pub Triple-write :
      {B : Type 0} (P Q : C.State → Type 0) (R : B → C.State → Type 0) (f : C.State → C.State)
      (k : Void → Query C B)
      → ((u : C.State) → IsLive u → P u → Q (f u))
      → Triple Q (k tt) R
      → Triple P (write C f >>= k) R
  Triple-write P Q R f k h hk s p = write-Returns C R f k s (λ live. hk (f s) (h s live p))

  pub Triple-throw_if :
      {B : Type 0} (P : C.State → Type 0) (R : B → C.State → Type 0) (b : Bool) (e : Error)
      (k : Query C B)
      → (b ≡ false → Triple P k R)
      → Triple P (throw_if b e >> k) R
  Triple-throw_if P R true e k h s p = tt
  Triple-throw_if P R false e k h s p = h refl s p

  pub Triple-found :
      {A B : Type 0} (P : C.State → Type 0) (R : B → C.State → Type 0) (e : Error) (o : Option A)
      (k : A → Query C B)
      → ((a : A) → o ≡ some a → Triple P (k a) R)
      → Triple P (or_throw C e o >>= k) R
  Triple-found P R e none k h s p = tt
  Triple-found P R e (some a) k h s p = h a refl s p

  pub Triple-transaction :
      {A : Type 0} (P : C.State → Type 0) (R : A → C.State → Type 0) (body : C.State → Query C A)
      → ((before : C.State) → Triple P (body before) (λ a u. IsLive u × R a u))
      → Triple P (transaction C body) R
  Triple-transaction P R body h s p = transaction-Returns C R body s (h s s p)

  -- A write to the tables of goods, at the head of a block and at its end.
  pub Triple-edit :
      {B : Type 0} (P Q : C.State → Type 0) (R : B → C.State → Type 0) (f : Goods → Goods)
      (k : Void → Query C B)
      → ((u : C.State) → IsLive u → P u → Q (C.put_goods (f (C.seen u).goods) u))
      → Triple Q (k tt) R
      → Triple P (edit C f >>= k) R
  unfolding edit
  Triple-edit P Q R f k h hk = Triple-write P Q R (λ u. C.put_goods (f (C.seen u).goods) u) k h hk

  pub Triple-write_last :
      (P : C.State → Type 0) (R : Void → C.State → Type 0) (f : C.State → C.State)
      → ((u : C.State) → IsLive u → P u → R tt (f u))
      → Triple P (write C f) R
  unfolding write
  Triple-write_last P R f h s p = elim (Bool-cases (C.seen s).is_open) [
    | inl live ↦ rw live (h s live p)
    | inr closed ↦ rw closed tt
  ]

  pub Triple-edit_last :
      (P : C.State → Type 0) (R : Void → C.State → Type 0) (f : Goods → Goods)
      → ((u : C.State) → IsLive u → P u → R tt (C.put_goods (f (C.seen u).goods) u))
      → Triple P (edit C f) R
  unfolding edit
  Triple-edit_last P R f h = Triple-write_last P R (λ u. C.put_goods (f (C.seen u).goods) u) h

  pub Triple-or_throw :
      {A : Type 0} (P : C.State → Type 0) (e : Error) (o : Option A)
      → Triple P (or_throw C e o) (λ _ u. P u)
  Triple-or_throw P e none s p = tt
  Triple-or_throw P e (some a) s p = p
