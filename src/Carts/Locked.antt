-- ===== src/Carts/Locked.antt =====
-- A user whose cart was checked out: the schema gives a user one cart, and a completed cart is kept.
use ops_marketplace_server.Base.{
  ℕ, ◌+◌, ◌≤◌, ◌≡◌, refl, sym, subst, ◌∙◌, arith, eq_refl, bind_ok, bind_err, Bool-cases, inl, inr,
  ◌==◌, if◌then◌else◌, is_empty_text, Option, none, some, List, [], ◌∷◌, String, Result, ok, err,
  throw_if, pure, ◌>>=◌, ◌>>◌,
}
use ops_marketplace_server.Database.{
  Client, Query, Tables, CartRow, CartStatus, ProductRow, is_user, find_active_cart, find_cart_of,
  find_cart_item, set_cart_status, Error, aborted, unique_violation, user_required, query,
}
use ops_marketplace_server.Carts.Reads.{Always-test, Always-product, Always-stock}
use ops_marketplace_server.Ledger.Keeps.{Always}
use ops_marketplace_server.Carts.{
  create_if_none, insert_cart, new_cart, find_or_create, find_or_create_cart, get_product_by_id,
  assert_available_stock, show, get_cart, add_or_grow, add_item,
}

-- The number of carts of a user.
unfoldable pub count_carts : String → List CartRow → ℕ
count_carts user [] = 0
count_carts user (c ∷ cs) = (if is_user c.user_id user then 1 else 0) + count_carts user cs

-- The user has a cart, and none that is active.
abbrev pub IsLocked : String → List CartRow → Type 0
IsLocked user cs =
    (find_active_cart user cs ≡ none) × ((c : CartRow) × (find_cart_of user cs ≡ some c))

none_of :
    (user id : String) (cs : List CartRow)
    → count_carts user cs ≡ 0
    → find_active_cart user (set_cart_status id CartStatus.completed cs) ≡ none
unfolding count_carts find_active_cart set_cart_status
none_of user id [] h = refl
none_of user id (c ∷ cs) h = ground (arith, none_of user id cs)

none_active :
    (user : String) (cs : List CartRow) → count_carts user cs ≡ 0 → find_active_cart user cs ≡ none
unfolding count_carts find_active_cart
none_active user [] h = refl
none_active user (c ∷ cs) h = ground (arith, none_active user cs)

completed_inactive :
    (user : String) (cs : List CartRow) (c : CartRow)
    → count_carts user cs ≤ 1
    → find_active_cart user cs ≡ some c
    → find_active_cart user (set_cart_status c.id CartStatus.completed cs) ≡ none
unfolding count_carts find_active_cart set_cart_status
completed_inactive user [] c h f = refl
completed_inactive user (x ∷ cs) c h f =
    grind
      (arith, completed_inactive user cs c, none_of user c.id cs, none_active user cs, eq_refl c.id)

completed_there :
    (user id : String) (cs : List CartRow) (c : CartRow)
    → find_active_cart user cs ≡ some c
    → (d : CartRow) × (find_cart_of user (set_cart_status id CartStatus.completed cs) ≡ some d)
unfolding find_active_cart find_cart_of set_cart_status
completed_there user id [] c f = absurd (grind arith)
completed_there user id (x ∷ cs) c f = elim (Bool-cases (is_user x.user_id user)) [
  | inl mine ↦
      (if x.id == id then record x { status = CartStatus.completed } else x, ground (arith, mine))
  | inr other ↦
      let (d, there) = completed_there user id cs c (ground (arith, f, other)) in
      (d, ground (arith, other, there))
]

pub completed-IsLocked :
    (user : String) (cs : List CartRow) (c : CartRow)
    → count_carts user cs ≤ 1
    → find_active_cart user cs ≡ some c
    → IsLocked user (set_cart_status c.id CartStatus.completed cs)
completed-IsLocked user cs c one found =
    (completed_inactive user cs c one found, completed_there user c.id cs c found)

module _ (C : Client) where
  -- The call throws and writes nothing.
  abbrev pub Fails : {A : Type 0} → Query C A → C.State → Type 0
  Fails m s = (e : Error) × (m s ≡ (err e, s))

  abbrev Same : C.State → C.State → Type 0
  Same s u = u ≡ s

  result-Fails :
      {A B : Type 0} (r : Result Error A) (u s : C.State) (k : A → Query C B)
      → u ≡ s
      → ((a : A) → Fails (k a) s)
      → (e : Error) × ((elim r as (λ _. Result Error B × C.State) [
        | ok a ↦ k a u
        | err e ↦ (err e, u)
      ])
          ≡ (err e, s))
  result-Fails (ok a) u s k same h =
      subst (λ v. (e : Error) × (k a v ≡ (err e, s))) (sym same) (h a)
  result-Fails (err e) u s k same h = (e, rw same refl)

  -- A call that writes nothing, and a rest that fails.
  then-Fails :
      {A B : Type 0} (m : Query C A) (k : A → Query C B) (s : C.State)
      → Always C (Same s) m
      → ((a : A) → Fails (k a) s)
      → Fails (m >>= k) s
  then-Fails m k s same h = result-Fails (m s).0 (m s).1 s k (same s refl) h

  -- A call that fails, whatever follows.
  first-Fails :
      {A B : Type 0} (m : Query C A) (k : A → Query C B) (s : C.State)
      → Fails m s
      → Fails (m >>= k) s
  first-Fails m k s (e, f) = (e, bind_err m k f)

  module _ (s : C.State) where
    module _ (new_id user : String) (locked : IsLocked user (C.seen s).goods.carts) where
      insert-Fails :
          (o : Option CartRow)
          → find_cart_of user (C.seen s).goods.carts ≡ o
          → Fails (insert_cart C (new_cart new_id user) o) s
      insert-Fails none e = absurd (grind (arith, locked.1.1, e))
      insert-Fails (some c) e = (unique_violation, refl)

      -- The read of what the table has, and the rest that fails on it.
      read-Fails :
          {A B : Type 0} (f : Tables → A) (k : A → Query C B)
          → Fails (k (f (C.seen s))) s
          → Fails (query C f >>= k) s
      unfolding query
      read-Fails f k (e, fails) = elim (Bool-cases (C.seen s).is_open) [
        | inl live ↦ (e, bind_ok (query C f) k {s' = s} {a = f (C.seen s)} (rw live refl) ∙ fails)
        | inr closed ↦ (aborted, bind_err (query C f) k {s' = s} {x = aborted} (rw closed refl))
      ]

      find_or_create-Fails : Fails (find_or_create C new_id user) s
      unfolding find_or_create
      find_or_create-Fails =
          let insert = λ (o : Option CartRow).
            insert_cart C (new_cart new_id user) o >> pure (new_cart new_id user) in
          let find = λ (t : Tables). find_cart_of user t.goods.carts in
          read-Fails (λ t. find_active_cart user t.goods.carts) (create_if_none C new_id user)
            (subst (λ o. Fails (create_if_none C new_id user o) s) (sym locked.0)
              (read-Fails find insert (
                first-Fails (insert_cart C (new_cart new_id user) (find (C.seen s)))
                  (λ _. pure (new_cart new_id user)) s (insert-Fails (find (C.seen s)) refl))))

      find_or_create_cart-Fails : Fails (find_or_create_cart C new_id user) s
      unfolding find_or_create_cart
      find_or_create_cart-Fails =
          then-Fails (throw_if (is_empty_text user) user_required)
            (λ _. find_or_create C new_id user) s
            (Always-test C (Same s) (is_empty_text user) user_required) (λ _. find_or_create-Fails)

      pub get_cart-Fails : Fails (get_cart C new_id user) s
      unfolding get_cart
      get_cart-Fails =
          first-Fails (find_or_create_cart C new_id user) (show C) s find_or_create_cart-Fails

      pub add_item-Fails :
          (new_item product : String) (n : ℕ) → Fails (add_item C new_id new_item user product n) s
      unfolding add_item
      add_item-Fails new_item product n =
          let rest = λ (p : ProductRow) (cart : CartRow).
            query C (λ t. find_cart_item cart.id product t.goods.cart_items) >>= λ i.
            add_or_grow C cart new_item product n p i >> show C cart in
          let create = λ (p : ProductRow). find_or_create_cart C new_id user >>= rest p in
          then-Fails (get_product_by_id C product)
            (λ p. assert_available_stock C product n >> create p) s
            (Always-product C (Same s) product)
            (λ p.
              then-Fails (assert_available_stock C product n) (λ _. create p) s
                (Always-stock C (Same s) product n)
                (λ _.
                  first-Fails (find_or_create_cart C new_id user) (rest p) s
                    find_or_create_cart-Fails))
