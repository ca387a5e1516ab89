-- ===== src/Checkout/Results.antt =====
-- The two checkouts of a cart: what they have done when they return.
use ops_marketplace_server.Base.{
  is_blank, pos, ltb_ℤ, Void, ◌∷◌, pure, [], ◌≡◌, refl, sym, subst, ◌∙◌, ap, map, is_empty,
  is_empty_text, Option, none, some, List, [], String, ok, throw_if, ◌>>=◌, ◌>>◌,
}
use ops_marketplace_server.Database.{
  Client, Query, Tables, CartRow, CartStatus, AddressRow, OrderRow, PaymentRow, find_active_cart,
  set_cart_status, delete_cart_items, find_payment, Error, cart_is_empty, address_missing,
  address_required, query, transaction, or_throw,
}
use ops_marketplace_server.Database.Returns.{returned}
use ops_marketplace_server.Database.Triples.{
  Triple, IsLive, Triple-bind, Triple-more, Triple-read, Triple-edit, Triple-throw_if, Triple-found,
  Triple-transaction, Triple-or_throw,
}
use ops_marketplace_server.Checkout.{
  id_empty, amount_negative, without_postal_code, Line, Request, order_of, group_lines, total_of,
  check_lines, throw_some, of_user, find_address, cart_lines, checkout_body, place_orders,
  publish_orders, create_from_lines, create_orders_from_cart, use_case_body, checkout_lines,
  checkout,
}
use ops_marketplace_server.Checkout.Totals.{sum_of_items, payment_of-lines}
use ops_marketplace_server.Checkout.Effects.{HasOrders, Holds}
use ops_marketplace_server.Checkout.Finishing.{Finished, body-Finished}

module _ (C : Client) where
  -- What a checkout of the lines `ls` returns, and what it leaves.
  abbrev pub Paid :
      Request
      → Tables
      → String
      → List CartRow
      → List Line
      → List OrderRow × PaymentRow
      → C.State
      → Type 0
  Paid r t cart_id carts ls x u =
      ((a : AddressRow) × (x.0 ≡ map (order_of r a) (group_lines ls)))
      × ((x.1.amount ≡ total_of ls)
          × ((sum_of_items x.1.items ≡ total_of ls)
              × (HasOrders x.0 (C.seen u)
                  × ((find_payment x.1.id (C.seen u).payments ≡ some x.1)
                      × (((C.seen u).goods.carts
                            ≡ set_cart_status cart_id CartStatus.completed carts)
                          × ((C.seen u).goods.cart_items
                              ≡ delete_cart_items cart_id t.goods.cart_items))))))

  -- The tables are those, and open.
  abbrev Sees : Tables → C.State → Type 0
  Sees t u = IsLive C u × (C.seen u ≡ t)

  body-Paid :
      (r : Request) (t : Tables) (cart_id : String) (carts : List CartRow) (a : AddressRow)
      (ls : List Line)
      → Triple C
          (Holds C carts t.goods.cart_items [])
          (checkout_body C r cart_id a (group_lines ls))
          (λ x u. IsLive C u × Paid r t cart_id carts ls x u)
  body-Paid r t cart_id carts a ls =
      Triple-more C (Holds C carts t.goods.cart_items [])
        (λ x u.
          IsLive C u
          × ((x.0 ≡ map (order_of r a) (group_lines ls))
              × Finished C carts t.goods.cart_items r cart_id x.0 x.1 u))
        (λ x u. IsLive C u × Paid r t cart_id carts ls x u)
        (checkout_body C r cart_id a (group_lines ls))
        (body-Finished C carts t.goods.cart_items r cart_id a (group_lines ls))
        (λ x u f.
          let (m, is_p) = f.1.1.0 in
          let amounts = payment_of-lines r a ls m x.0 x.1 f.1.0 is_p in
          let rest = f.1.1.1 in
          (
            f.0,
            ((a, f.1.0), (amounts.0, (amounts.1, (rest.1.1.0, (rest.1.1.1, (rest.0, rest.1.0)))))),
          ))

  find_address-Sees :
      (r : Request) (t : Tables) → Triple C (Sees t) (find_address C r) (λ _ u. Sees t u)
  find_address-Sees r t =
      let find = λ (v : Tables). of_user C r.user_id (v.goods.addresses r.address_id) in
      Triple-read C (Sees t) (λ _ u. Sees t u) find (or_throw C address_missing)
        (λ found s p. Triple-or_throw C (Sees t) address_missing found s p.1.1)

  -- A loop that may throw, and the rest.
  throw_some-Sees :
      {A : Type 0} (P : C.State → Type 0) (R : A → C.State → Type 0) (o : Option Error)
      (k : Query C A)
      → Triple C P k R
      → Triple C P (throw_some C o >> k) R
  throw_some-Sees P R none k h = h
  throw_some-Sees P R (some e) k h = λ s p. tt

  -- The address, the tests and the transaction, of either checkout.
  rest-Paid :
      (r : Request) (t : Tables) (carts : List CartRow) (cart_id : String) (ls : List Line)
      (body : AddressRow → Query C (List OrderRow × PaymentRow))
      → ((a : AddressRow)
          → Triple C (Sees t) (body a) (λ x u. IsLive C u × Paid r t cart_id carts ls x u))
      → Triple C
          (Sees t)
          (find_address C r >>= λ a.
            throw_some C (check_lines ls) >> transaction C (λ before. body a))
          (λ x u. Paid r t cart_id carts ls x u)
  rest-Paid r t carts cart_id ls body h =
      let R = λ (x : List OrderRow × PaymentRow) (u : C.State). Paid r t cart_id carts ls x u in
      let end =
        λ (a : AddressRow). throw_some C (check_lines ls) >> transaction C (λ before. body a) in
      Triple-bind C (Sees t) (λ _ u. Sees t u) R (find_address C r) end (find_address-Sees r t)
        (λ a.
          throw_some-Sees (Sees t) R (check_lines ls) (transaction C (λ before. body a))
            (Triple-transaction C (Sees t) R (λ before. body a) (λ before. h a)))

  pub place_orders-Paid :
      (r : Request) (t : Tables) (cart_id : String) (ls : List Line)
      → Triple C
          (Sees t)
          (place_orders C r cart_id ls)
          (λ x u. Paid r t cart_id t.goods.carts ls x u)
  place_orders-Paid r t cart_id ls =
      let R =
        λ (x : List OrderRow × PaymentRow) (u : C.State). Paid r t cart_id t.goods.carts ls x u in
      let body = λ (a : AddressRow). checkout_body C r cart_id a (group_lines ls) in
      let rest = find_address C r >>= λ a.
      throw_some C (check_lines ls) >> transaction C (λ before. body a) in
      Triple-throw_if C (Sees t) R (is_empty ls) cart_is_empty rest (λ _.
        rest-Paid r t t.goods.carts cart_id ls body (λ a s p.
          body-Paid r t cart_id t.goods.carts a ls s (
            p.0,
            (
              ap (λ (v : Tables). v.goods.carts) p.1,
              (ap (λ (v : Tables). v.goods.cart_items) p.1, tt),
            ),
          )))

  publish-Paid :
      (P : C.State → Type 0) (os : List OrderRow) → Triple C P (publish_orders C os) (λ _ u. P u)
  unfolding publish_orders
  publish-Paid P [] = λ s p. p
  publish-Paid P (o ∷ os) =
      let Q = λ (_ : Void) (u : C.State). P u in
      let rest = publish_orders C os in
      let priced = throw_if (ltb_ℤ o.total_price (pos 0)) amount_negative >> rest in
      let sold = throw_if (is_blank o.seller_id) id_empty >> priced in
      let bought = throw_if (is_blank o.buyer_id) id_empty >> sold in
      Triple-throw_if C P Q (is_blank o.id) id_empty bought (λ _.
        Triple-throw_if C P Q (is_blank o.buyer_id) id_empty sold (λ _.
          Triple-throw_if C P Q (is_blank o.seller_id) id_empty priced (λ _.
            Triple-throw_if C P Q (ltb_ℤ o.total_price (pos 0)) amount_negative rest
              (λ _. publish-Paid P os))))

  from_lines-Paid :
      (r : Request) (t : Tables) (cart_id : String) (ls : List Line)
      → Triple C
          (Sees t)
          (create_from_lines C r cart_id ls)
          (λ x u. Paid r t cart_id t.goods.carts ls x u)
  from_lines-Paid r t cart_id ls =
      let R =
        λ (x : List OrderRow × PaymentRow) (u : C.State). Paid r t cart_id t.goods.carts ls x u in
      Triple-bind C (Sees t) R R (place_orders C r cart_id ls) (λ x. publish_orders C x.0 >> pure x)
        (place_orders-Paid r t cart_id ls)
        (λ x.
          Triple-bind C (R x) (λ _ u. R x u) R (publish_orders C x.0) (λ _. pure x)
            (publish-Paid (R x) x.0) (λ _ s p. p))

  -- The cart as the other checkout marks it first.
  abbrev pub marked : String → List CartRow → List CartRow
  marked cart_id carts = set_cart_status cart_id CartStatus.checking_out carts

  lines-Paid :
      (r : Request) (t : Tables) (cart_id : String) (ls : List Line)
      → Triple C
          (Sees t)
          (checkout_lines C r cart_id ls)
          (λ x u. Paid r t cart_id (marked cart_id t.goods.carts) ls x u)
  unfolding use_case_body
  lines-Paid r t cart_id ls =
      let carts = marked cart_id t.goods.carts in
      let R = λ (x : List OrderRow × PaymentRow) (u : C.State). Paid r t cart_id carts ls x u in
      let body = λ (a : AddressRow). use_case_body C r cart_id a ls in
      let rest = find_address C r >>= λ a.
      throw_some C (check_lines ls) >> transaction C (λ before. body a) in
      Triple-throw_if C (Sees t) R (is_empty ls) cart_is_empty
        (throw_if (is_empty_text r.address_id) address_required >> rest)
        (λ _. Triple-throw_if C (Sees t) R (is_empty_text r.address_id) address_required rest (λ _.
          rest-Paid r t carts cart_id ls body (λ a.
            Triple-edit C (Sees t) (Holds C carts t.goods.cart_items [])
              (λ x u. IsLive C u × Paid r t cart_id carts ls x u)
              (λ g. record g { carts = set_cart_status cart_id CartStatus.checking_out g.carts })
              (λ _. checkout_body C r cart_id (without_postal_code a) (group_lines ls))
              (λ u live p. (
                rw C.put_goods_lem live,
                (rw (C.put_goods_lem, p.1) refl, (rw (C.put_goods_lem, p.1) refl, tt)),
              ))
              (body-Paid r t cart_id carts (without_postal_code a) ls))))

  -- The head of both: the tables are read, and the active cart of the user found in them.
  head-Paid :
      (r : Request) (t : Tables) (f : CartRow → List CartRow)
      (k : Tables → CartRow → Query C (List OrderRow × PaymentRow))
      → ((cart : CartRow)
          → Triple C
              (Sees t)
              (k t cart)
              (λ x u. Paid r t cart.id (f cart) (cart_lines C t cart) x u))
      → Triple C
          (λ u. C.seen u ≡ t)
          (query C (λ v. v) >>= λ v.
            or_throw C cart_is_empty (find_active_cart r.user_id v.goods.carts) >>= k v)
          (λ x u.
            (cart : CartRow) × ((find_active_cart r.user_id t.goods.carts ≡ some cart)
              × Paid r t cart.id (f cart) (cart_lines C t cart) x u))
  head-Paid r t f k h =
      let R = λ (x : List OrderRow × PaymentRow) (u : C.State).
        (cart : CartRow) × ((find_active_cart r.user_id t.goods.carts ≡ some cart)
          × Paid r t cart.id (f cart) (cart_lines C t cart) x u) in
      let found = λ (v : Tables).
        or_throw C cart_is_empty (find_active_cart r.user_id v.goods.carts) >>= k v in
      Triple-read C (λ u. C.seen u ≡ t) R (λ v. v) found
        (λ v s p.
          let same : t ≡ v = sym p.1.1 ∙ p.0 in
          subst (λ v. Triple C (Sees t) (found v) R) same
            (Triple-found C (Sees t) R cart_is_empty (find_active_cart r.user_id t.goods.carts)
              (k t)
              (λ cart is_cart.
                Triple-more C (Sees t) (λ x u. Paid r t cart.id (f cart) (cart_lines C t cart) x u)
                  R (k t cart) (h cart) (λ x u paid. (cart, (is_cart, paid)))))
            s (p.1.0, p.1.1))

-- Over every database: if createOrdersFromCart returns, the user had an active cart; the orders are
-- those of the groups of its lines by their shops, for some address, and are in the table; the payment is in the
-- table, and its amount and the sum of its items are what the lines come to; and the cart
-- is completed and has no items left.
pub create_orders_from_cart_lem :
    (C : Client) (r : Request) (s : C.State) {os : List OrderRow} {p : PaymentRow} {s' : C.State}
    → create_orders_from_cart C r s ≡ (ok (os, p), s')
    → (cart : CartRow) × ((find_active_cart r.user_id (C.seen s).goods.carts ≡ some cart)
        × Paid C r
            (C.seen s)
            cart.id
            (C.seen s).goods.carts
            (cart_lines C (C.seen s) cart)
            (os, p)
            s')
unfolding create_orders_from_cart
create_orders_from_cart_lem C r s {os = os} {p = p} {s' = s'} e =
    let t = C.seen s in
    returned
      (λ x u.
        (cart : CartRow) × ((find_active_cart r.user_id t.goods.carts ≡ some cart)
          × Paid C r t cart.id t.goods.carts (cart_lines C t cart) x u))
      (head-Paid C r t (λ _. t.goods.carts)
        (λ v cart. create_from_lines C r cart.id (cart_lines C v cart))
        (λ cart. from_lines-Paid C r t cart.id (cart_lines C t cart)) s refl)
      e

-- Over every database: if the checkout of the cart's use case returns, the user had an active cart; the
-- orders are those of the groups of its lines by their shops, for some address, and are in the
-- table; the payment is in the table, and its amount and the sum of its items are what the lines
-- come to; and the cart, which was first marked as being checked out, is completed and has no items
-- left.
pub checkout_lem :
    (C : Client) (r : Request) (s : C.State) {os : List OrderRow} {p : PaymentRow} {s' : C.State}
    → checkout C r s ≡ (ok (os, p), s')
    → (cart : CartRow) × ((find_active_cart r.user_id (C.seen s).goods.carts ≡ some cart)
        × Paid C r
            (C.seen s)
            cart.id
            (marked C cart.id (C.seen s).goods.carts)
            (cart_lines C (C.seen s) cart)
            (os, p)
            s')
unfolding checkout
checkout_lem C r s {os = os} {p = p} {s' = s'} e =
    let t = C.seen s in
    returned
      (λ x u.
        (cart : CartRow) × ((find_active_cart r.user_id t.goods.carts ≡ some cart)
          × Paid C r t cart.id (marked C cart.id t.goods.carts) (cart_lines C t cart) x u))
      (head-Paid C r t (λ cart. marked C cart.id t.goods.carts)
        (λ v cart. checkout_lines C r cart.id (cart_lines C v cart))
        (λ cart. lines-Paid C r t cart.id (cart_lines C t cart)) s refl)
      e
