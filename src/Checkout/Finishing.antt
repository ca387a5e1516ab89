-- ===== src/Checkout/Finishing.antt =====
-- The end of the transaction of a checkout: the cart is emptied and completed, and the payment created.
use ops_marketplace_server.Base.{
  not, throw_if, ◌≡◌, refl, sym, subst, map, Option, none, some, List, [], String, pure, ◌>>=◌,
  ◌>>◌,
}
use ops_marketplace_server.Payment.{PaymentMethod}
use ops_marketplace_server.Database.{
  Client, Tables, CartRow, CartItemRow, CartStatus, AddressRow, OrderRow, PaymentRow,
  set_cart_status, delete_cart_items, find_payment, query, edit, or_throw, payment_method_invalid,
}
use ops_marketplace_server.Database.Triples.{
  Triple-throw_if, Triple, IsLive, Triple-bind, Triple-read, Triple-write, Triple-edit,
  Triple-found,
}
use ops_marketplace_server.Checkout.{
  amount_too_large, sum_of_orders, fits_column, Group, Request, order_of, payment_of, create_orders,
  insert_payment, finish, checkout_body,
}
use ops_marketplace_server.Checkout.Effects.{
  Holds, create_orders-Holds, HasOrders, find_payment-put,
}

module _ (C : Client) (carts : List CartRow) (items : List CartItemRow) where
  -- What the end of a checkout leaves, from those carts, items and orders.
  abbrev pub Finished : Request → String → List OrderRow → PaymentRow → C.State → Type 0
  Finished r cart_id os p u =
      ((m : PaymentMethod) × (p ≡ payment_of r m os))
      × (((C.seen u).goods.carts ≡ set_cart_status cart_id CartStatus.completed carts)
          × (((C.seen u).goods.cart_items ≡ delete_cart_items cart_id items)
              × (HasOrders os (C.seen u) × (find_payment p.id (C.seen u).payments ≡ some p))))

  -- The cart is emptied and completed, and the payment is still to be created.
  abbrev Emptied : String → List OrderRow → C.State → Type 0
  Emptied cart_id os u =
      IsLive C u
      × (((C.seen u).goods.carts ≡ set_cart_status cart_id CartStatus.completed carts)
          × (((C.seen u).goods.cart_items ≡ delete_cart_items cart_id items)
              × HasOrders os (C.seen u)))

  insert_payment-Finished :
      (r : Request) (cart_id : String) (os : List OrderRow) (m : PaymentMethod)
      (old : Option PaymentRow)
      → Triple C
          (Emptied cart_id os)
          (insert_payment C (payment_of r m os) old >> pure (payment_of r m os))
          (λ p u. IsLive C u × Finished r cart_id os p u)
  insert_payment-Finished r cart_id os m none =
      let p = payment_of r m os in
      let R = λ (x : PaymentRow) (u : C.State). IsLive C u × Finished r cart_id os x u in
      Triple-write C (Emptied cart_id os) (R p) R (C.put_payment p) (λ _. pure p)
        (λ u live q.
          let there = subst (λ t. HasOrders os t) (sym (C.put_payment_lem p u)) q.1.1.1 in
          (
            rw C.put_payment_lem q.0,
            (
              (m, refl),
              (
                rw C.put_payment_lem q.1.0,
                (
                  rw C.put_payment_lem q.1.1.0,
                  (there, rw C.put_payment_lem (find_payment-put p (C.seen u).payments)),
                ),
              ),
            ),
          ))
        (λ s q. q)
  insert_payment-Finished r cart_id os m (some old) = λ s q. tt

  finish-Finished :
      (r : Request) (cart_id : String) (os : List OrderRow)
      → Triple C
          (Holds C carts items os)
          (finish C r cart_id os)
          (λ p u. IsLive C u × Finished r cart_id os p u)
  unfolding finish
  finish-Finished r cart_id os =
      let R = λ (x : PaymentRow) (u : C.State). IsLive C u × Finished r cart_id os x u in
      let find = λ (t : Tables). find_payment r.payment_id t.payments in
      let create = λ (m : PaymentMethod) (old : Option PaymentRow).
        throw_if (not (fits_column (sum_of_orders os))) amount_too_large
        >> (insert_payment C (payment_of r m os) old >> pure (payment_of r m os)) in
      let pay = λ (m : PaymentMethod). query C find >>= create m in
      let method = or_throw C payment_method_invalid r.method in
      let complete =
        edit C (λ g. record g { carts = set_cart_status cart_id CartStatus.completed g.carts }) in
      let Cleared = λ (u : C.State).
        IsLive C u
        × (((C.seen u).goods.carts ≡ carts)
            × (((C.seen u).goods.cart_items ≡ delete_cart_items cart_id items)
                × HasOrders os (C.seen u))) in
      Triple-edit C (Holds C carts items os) Cleared R
        (λ g. record g { cart_items = delete_cart_items cart_id g.cart_items })
        (λ _. complete >> (method >>= pay))
        (λ u live q. (
          rw C.put_goods_lem q.0,
          (
            rw C.put_goods_lem q.1.0,
            (
              rw (C.put_goods_lem, q.1.1.0) refl,
              subst (λ t. HasOrders os t) (sym (C.put_goods_lem _ u)) q.1.1.1,
            ),
          ),
        ))
        (Triple-edit C Cleared (Emptied cart_id os) R
          (λ g. record g { carts = set_cart_status cart_id CartStatus.completed g.carts })
          (λ _. method >>= pay)
          (λ u live q. (
            rw C.put_goods_lem q.0,
            (
              rw (C.put_goods_lem, q.1.0) refl,
              (
                rw C.put_goods_lem q.1.1.0,
                subst (λ t. HasOrders os t) (sym (C.put_goods_lem _ u)) q.1.1.1,
              ),
            ),
          ))
          (Triple-found C (Emptied cart_id os) R payment_method_invalid r.method pay (λ m is_m.
            Triple-read C (Emptied cart_id os) R find (create m) (λ old s q.
              Triple-throw_if C (Emptied cart_id os) R (not (fits_column (sum_of_orders os)))
                amount_too_large
                (insert_payment C (payment_of r m os) old >> pure (payment_of r m os))
                (λ _. insert_payment-Finished r cart_id os m old) s q.1.1))))

  pub body-Finished :
      (r : Request) (cart_id : String) (a : AddressRow) (gs : List Group)
      → Triple C
          (Holds C carts items [])
          (checkout_body C r cart_id a gs)
          (λ x u. IsLive C u × ((x.0 ≡ map (order_of r a) gs) × Finished r cart_id x.0 x.1 u))
  unfolding checkout_body
  body-Finished r cart_id a gs =
      let R = λ (x : List OrderRow × PaymentRow) (u : C.State).
        IsLive C u × ((x.0 ≡ map (order_of r a) gs) × Finished r cart_id x.0 x.1 u) in
      let end = λ (os : List OrderRow). finish C r cart_id os >>= λ p. pure (os, p) in
      Triple-bind C (Holds C carts items [])
        (λ os u.
          (os ≡ map (order_of r a) gs) × (Holds C carts items [] u × HasOrders os (C.seen u)))
        R (create_orders C r a gs) end (create_orders-Holds C carts items [] r a gs)
        (λ os s p.
          Triple-bind C (Holds C carts items os) (λ q u. IsLive C u × Finished r cart_id os q u) R
            (finish C r cart_id os) (λ q. pure (os, q)) (finish-Finished r cart_id os)
            (λ q u f. (f.0, (p.0, f.1))) s (p.1.0.0, (p.1.0.1.0, (p.1.0.1.1.0, p.1.1))))
