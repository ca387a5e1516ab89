-- ===== src/Checkout/Success.antt =====
-- When a checkout returns.
use ops_marketplace_server.Base.{
  pos, ok, not, ap, true, ltb_ℤ, map, is_blank, bind_ok, int_laws, Option-cases, ◌≤◌, if_holds, inr,
  inl, ◌≡◌, refl, sym, subst, ◌∙◌, ◌==◌, All, is_empty, false, Option, none, some, List, [], ◌∷◌,
  String, pure, throw_if, push, ◌>>=◌, ◌>>◌,
}
use ops_marketplace_server.Payment.{PaymentMethod}
use ops_marketplace_server.Database.{
  Client, Tables, Goods, CartRow, CartStatus, AddressRow, OrderRow, PaymentRow, find_active_cart,
  find_payment, set_cart_status, delete_cart_items, cart_is_empty, address_missing,
  payment_method_invalid, query, edit, transaction, or_throw,
}
use ops_marketplace_server.Database.Triples.{IsLive}
use ops_marketplace_server.Database.Succeeds.{
  Succeeds, Succeeds-after, Succeeds-bind, Succeeds-read, Succeeds-write, Succeeds-transaction,
  edit_live,
}
use ops_marketplace_server.Checkout.Stock.{AreRead, lines_of-AreRead, checked_line, checked_rest}
use ops_marketplace_server.Checkout.{
  place_orders, amount_too_large, order_of, total_of, sum_of_orders, seller_of, publish_orders,
  fits_column, Line, Group, Request, insert_line, group_from, group_lines, payment_of,
  create_orders, insert_payment, finish, checkout_body, throw_some, check_lines, of_user,
  find_address, cart_lines, create_from_lines, create_orders_from_cart,
}
use ops_marketplace_server.Ledger.Posting.{query_live}
use ops_marketplace_server.Checkout.Totals.{sum_of_orders-lines}
use ops_marketplace_server.Database.Returns.{returned}
use ops_marketplace_server.Checkout.Results.{place_orders-Paid, Paid, create_orders_from_cart_lem}
use ops_marketplace_server.Checkout.Stocked.{AreStocked}
use ops_marketplace_server.Checkout.Ready.{AreNew, Ready, create_orders-Ready}

module _ (C : Client) where
  push-AreStocked :
      (ls : List Line) (l : Line) (s : C.State)
      → AreStocked C ls s
      → AreStocked C (l ∷ []) s
      → AreStocked C (push ls l) s
  push-AreStocked [] l s h one = one
  push-AreStocked (x ∷ ls) l s (h, rest) one = (h, push-AreStocked ls l s rest one)

  abbrev AreAll : List Group → C.State → Type 0
  AreAll gs u = All (λ (g : Group). AreStocked C g.lines u) gs

  insert-AreAll :
      (l : Line) (gs : List Group) (s : C.State)
      → AreStocked C (l ∷ []) s
      → AreAll gs s
      → AreAll (insert_line l gs) s
  unfolding insert_line
  insert-AreAll l [] s one h = (one, tt)
  insert-AreAll l (g ∷ gs) s one (h, rest) =
      if_holds {A = List Group} (λ hs. AreAll hs s) (g.shop_id == l.product.shop_id)
        (record g { lines = push g.lines l } ∷ gs) (g ∷ insert_line l gs)
        (push-AreStocked g.lines l s h one, rest) (h, insert-AreAll l gs s one rest)

  group-AreAll :
      (gs : List Group) (ls : List Line) (s : C.State)
      → AreAll gs s
      → AreStocked C ls s
      → AreAll (group_from gs ls) s
  unfolding group_from
  group-AreAll gs [] s h stocked = h
  group-AreAll gs (l ∷ ls) s h (one, rest) =
      group-AreAll (insert_line l gs) ls s (insert-AreAll l gs s (one, tt) h) rest

  -- A line that passed its test has its stock in the table, if it asks for something.
  checked-AreStocked :
      (ls : List Line) (s : C.State)
      → AreRead (C.seen s).goods ls
      → All (λ (l : Line). 1 ≤ l.item.quantity) ls
      → check_lines ls ≡ none
      → AreStocked C ls s
  checked-AreStocked [] s read asks h = tt
  checked-AreStocked (l ∷ ls) s (is_read, read) (asks, rest) h =
      let fits = checked_line l ls h in
      (
        elim (Option-cases l.inventory) [
          | inl gone ↦ absurd (grind (int_laws, gone, fits, asks))
          | inr (row, there) ↦ (row, sym is_read ∙ there)
        ],
        checked-AreStocked ls s read rest (checked_rest l ls h),
      )

  finish-Succeeds :
      (r : Request) (cart_id : String) (os : List OrderRow) (m : PaymentMethod) (s : C.State)
      → r.method ≡ some m
      → fits_column (sum_of_orders os) ≡ true
      → Ready C r [] s
      → Succeeds C (finish C r cart_id os) s (λ _ u. IsLive C u)
  unfolding finish
  finish-Succeeds r cart_id os m s is_m fits (live, (_, (_, payment))) =
      let R = λ (_ : PaymentRow) (u : C.State). IsLive C u in
      let empty = λ (g : Goods). record g { cart_items = delete_cart_items cart_id g.cart_items } in
      let complete =
        λ (g : Goods). record g { carts = set_cart_status cart_id CartStatus.completed g.carts } in
      let find = λ (t : Tables). find_payment r.payment_id t.payments in
      let test = throw_if (not (fits_column (sum_of_orders os))) amount_too_large in
      let create = λ (m : PaymentMethod) (old : Option PaymentRow).
        test >> (insert_payment C (payment_of r m os) old >> pure (payment_of r m os)) in
      let pay = λ (m : PaymentMethod). query C find >>= create m in
      let method = or_throw C payment_method_invalid r.method in
      let s1 = C.put_goods (empty (C.seen s).goods) s in
      let s2 = C.put_goods (complete (C.seen s1).goods) s1 in
      let live1 : IsLive C s1 = rw C.put_goods_lem live in
      let live2 : IsLive C s2 = rw (C.put_goods_lem (complete (C.seen s1).goods) s1) live1 in
      let none_there : find (C.seen s2) ≡ none =
        rw
          (
            C.put_goods_lem (complete (C.seen s1).goods) s1,
            C.put_goods_lem (empty (C.seen s).goods) s,
          )
          payment in
      Succeeds-after C R (edit C empty) (λ _. edit C complete >> (method >>= pay))
        (edit_live C empty s live)
        (Succeeds-after C R (edit C complete) (λ _. method >>= pay) (edit_live C complete s1 live1)
          (subst (λ o. Succeeds C (or_throw C payment_method_invalid o >>= pay) s2 R) (sym is_m)
            (Succeeds-read C R find (create m) s2 live2 none_there (
              Succeeds-after C R test
                (λ _. insert_payment C (payment_of r m os) none >> pure (payment_of r m os))
                {s = s2} {u = s2} {a = tt} (rw fits refl)
                (Succeeds-write C R (C.put_payment (payment_of r m os))
                  (λ _. pure (payment_of r m os)) s2 live2
                  (
                    payment_of r m os,
                    (C.put_payment (payment_of r m os) s2, (refl, rw C.put_payment_lem live2)),
                  ))))))

  body-Succeeds :
      (r : Request) (cart_id : String) (a : AddressRow) (ls : List Line) (m : PaymentMethod)
      (s : C.State)
      → r.method ≡ some m
      → All (λ (g : Group). fits_column (total_of g.lines) ≡ true) (group_lines ls)
      → fits_column (total_of ls) ≡ true
      → Ready C r (group_lines ls) s
      → Succeeds C (checkout_body C r cart_id a (group_lines ls)) s (λ _ u. IsLive C u × Unit)
  unfolding checkout_body
  body-Succeeds r cart_id a ls m s is_m fits fits_all ready =
      let gs = group_lines ls in
      let R = λ (_ : List OrderRow × PaymentRow) (u : C.State). IsLive C u × Unit in
      let end = λ (os : List OrderRow). finish C r cart_id os >>= λ p. pure (os, p) in
      Succeeds-bind C (λ os u. (os ≡ map (order_of r a) gs) × Ready C r [] u) R
        (create_orders C r a gs) end s (create_orders-Ready C r a gs s fits ready)
        (λ os u done.
          let total : sum_of_orders os ≡ total_of ls =
            ap sum_of_orders done.0 ∙ sum_of_orders-lines r a ls in
          Succeeds-bind C (λ _ v. IsLive C v) R (finish C r cart_id os) (λ p. pure (os, p)) u
            (finish-Succeeds r cart_id os m u is_m (rw total fits_all) done.1)
            (λ p v live. ((os, p), (v, (refl, (live, tt))))))

  -- What the loop after the transaction tests of a group's order.
  abbrev pub CanPublish : Request → Group → Type 0
  CanPublish r g =
      (is_blank (r.order_id g.shop_id) ≡ false)
      × ((is_blank (seller_of g.lines) ≡ false) × (ltb_ℤ (total_of g.lines) (pos 0) ≡ false))

  publish-Succeeds :
      (r : Request) (a : AddressRow) (gs : List Group) (s : C.State)
      → is_blank r.user_id ≡ false
      → All (CanPublish r) gs
      → publish_orders C (map (order_of r a) gs) s ≡ (ok tt, s)
  unfolding publish_orders
  publish-Succeeds r a [] s user h = refl
  publish-Succeeds r a (g ∷ gs) s user ((id, (seller, price)), rest) =
      rw (id, user, seller, price) (publish-Succeeds r a gs s user rest)

module _ (C : Client) (r : Request) (cart : CartRow) (a : AddressRow) (m : PaymentMethod)
    (s : C.State) where
  abbrev lines : List Line
  lines = cart_lines C (C.seen s) cart

  placed :
      IsLive C s
      → is_empty lines ≡ false
      → All (λ (l : Line). 1 ≤ l.item.quantity) lines
      → check_lines lines ≡ none
      → of_user C r.user_id ((C.seen s).goods.addresses r.address_id) ≡ some a
      → r.method ≡ some m
      → AreNew C r (group_lines lines) (C.seen s).orders
      → find_payment r.payment_id (C.seen s).payments ≡ none
      → All (λ (g : Group). fits_column (total_of g.lines) ≡ true) (group_lines lines)
      → fits_column (total_of lines) ≡ true
      → Succeeds C (place_orders C r cart.id lines) s (λ _ u. Unit)
  placed live nonempty asks checked home is_m new payment fits fits_all =
      let R = λ (_ : List OrderRow × PaymentRow) (u : C.State). Unit in
      let stocked =
        checked-AreStocked C lines s (lines_of-AreRead (C.seen s).goods _) asks checked in
      let ready : Ready C r (group_lines lines) s =
        (live, (new, (group-AreAll C [] lines s tt stocked, payment))) in
      let pay = λ (before : C.State). checkout_body C r cart.id a (group_lines lines) in
      let end = λ (b : AddressRow).
        throw_some C (check_lines lines)
        >> transaction C (λ before. checkout_body C r cart.id b (group_lines lines)) in
      let find = λ (v : Tables). of_user C r.user_id (v.goods.addresses r.address_id) in
      Succeeds-after C R (throw_if (is_empty lines) cart_is_empty) (λ _. find_address C r >>= end)
        {s = s} {u = s} {a = tt} (rw nonempty refl)
        (Succeeds-after C R (find_address C r) end {s = s} {u = s} {a = a}
          (bind_ok (query C find) (or_throw C address_missing) (query_live C s live find)
            ∙ rw home refl)
          (Succeeds-after C R (throw_some C (check_lines lines)) (λ _. transaction C pay) {s = s}
            {u = s} {a = tt} (rw checked refl)
            (Succeeds-transaction C R pay s
              (body-Succeeds C r cart.id a lines m s is_m fits fits_all ready))))

  -- The orders that were placed are published too.
  published :
      IsLive C s
      → Succeeds C (place_orders C r cart.id lines) s (λ _ u. Unit)
      → is_blank r.user_id ≡ false
      → All (CanPublish C r) (group_lines lines)
      → Succeeds C (create_from_lines C r cart.id lines) s (λ _ u. Unit)
  published live (x, (u, (e, _))) user publishable =
      let paid =
        returned (λ x v. Paid C r (C.seen s) cart.id (C.seen s).goods.carts lines x v)
          (place_orders-Paid C r (C.seen s) cart.id lines s (live, refl)) e in
      let (b, is_orders) = paid.0 in
      Succeeds-after C (λ _ _. Unit) (place_orders C r cart.id lines)
        (λ x. publish_orders C x.0 >> pure x) e
        (Succeeds-after C (λ _ _. Unit) (publish_orders C x.0) (λ _. pure x) {s = u} {u = u}
          {a = tt}
          (subst (λ os. publish_orders C os u ≡ (ok tt, u)) (sym is_orders)
            (publish-Succeeds C r b (group_lines lines) u user publishable))
          (x, (u, (refl, tt))))

  from_cart :
      IsLive C s
      → find_active_cart r.user_id (C.seen s).goods.carts ≡ some cart
      → Succeeds C (create_from_lines C r cart.id lines) s (λ _ u. Unit)
      → Succeeds C (create_orders_from_cart C r) s (λ _ u. Unit)
  unfolding create_orders_from_cart
  from_cart live active h =
      let R = λ (_ : List OrderRow × PaymentRow) (u : C.State). Unit in
      Succeeds-read C R (λ v. v)
        (λ v. or_throw C cart_is_empty (find_active_cart r.user_id v.goods.carts) >>= λ c.
          create_from_lines C r c.id (cart_lines C v c))
        s live refl
        (Succeeds-after C R
          (or_throw C cart_is_empty (find_active_cart r.user_id (C.seen s).goods.carts))
          (λ c. create_from_lines C r c.id (cart_lines C (C.seen s) c)) {s = s} {u = s} {a = cart}
          (rw active refl) h)

-- Over every database that is open: if the user has an active cart with lines, each of a quantity of
-- at least one, that all pass their tests; the address is the user's; the text of the payment method
-- names one; the ids that the database chooses for the orders and the payment are new and the orders'
-- different; the total of each shop's lines and that of all lines fit a column of twelve digits; and
-- what the events are made of passes its tests, the ids not blank and no shop's total negative; then
-- createOrdersFromCart returns, with the orders of the groups of the lines in the table, a payment in
-- the table of what the lines come to, and the cart completed and empty.
pub create_orders_from_cart-Paid :
    (C : Client) (r : Request) (cart : CartRow) (a : AddressRow) (m : PaymentMethod) (s : C.State)
    → IsLive C s
    → find_active_cart r.user_id (C.seen s).goods.carts ≡ some cart
    → is_empty (cart_lines C (C.seen s) cart) ≡ false
    → All (λ (l : Line). 1 ≤ l.item.quantity) (cart_lines C (C.seen s) cart)
    → check_lines (cart_lines C (C.seen s) cart) ≡ none
    → of_user C r.user_id ((C.seen s).goods.addresses r.address_id) ≡ some a
    → r.method ≡ some m
    → AreNew C r (group_lines (cart_lines C (C.seen s) cart)) (C.seen s).orders
    → find_payment r.payment_id (C.seen s).payments ≡ none
    → All
        (λ (g : Group). fits_column (total_of g.lines) ≡ true)
        (group_lines (cart_lines C (C.seen s) cart))
    → fits_column (total_of (cart_lines C (C.seen s) cart)) ≡ true
    → is_blank r.user_id ≡ false
    → All (CanPublish C r) (group_lines (cart_lines C (C.seen s) cart))
    → Succeeds C
        (create_orders_from_cart C r)
        s
        (Paid C r (C.seen s) cart.id (C.seen s).goods.carts (cart_lines C (C.seen s) cart))
create_orders_from_cart-Paid C r cart a m s live active nonempty asks checked home is_m new payment
      fits fits_all user publishable =
    let t = C.seen s in
    let places =
      placed C r cart a m s live nonempty asks checked home is_m new payment fits fits_all in
    let (x, (u, (e, _))) =
      from_cart C r cart a m s live active
        (published C r cart a m s live places user publishable) in
    let (cart', (active', paid)) = create_orders_from_cart_lem C r s {os = x.0} {p = x.1} e in
    let same : cart' ≡ cart = cc (active, active') in
    (x, (u, (e, subst (λ c. Paid C r t c.id t.goods.carts (cart_lines C t c) x u) same paid)))
