-- ===== src/Checkout/Reserved.antt =====
-- The reservations of a checkout, inside its transaction: the room that its lines ask for is used up
-- as they are reserved, and what is left is still within the stock.
use ops_marketplace_server.Base.{
  not, throw_if, ℤ, pos, ◌+ℤ◌, ◌≤ℤ◌, ◌≡◌, subst, ◌==◌, eq_iff, int_laws, if◌then◌else◌, Option,
  none, some, List, [], ◌∷◌, String, pure, ◌>>=◌, ◌>>◌,
}
use ops_marketplace_server.Payment.{PaymentMethod}
use ops_marketplace_server.Database.{
  Client, Tables, Goods, CartStatus, InventoryRow, AddressRow, OrderRow, PaymentRow, find_payment,
  set_cart_status, delete_cart_items, put_row, payment_method_invalid, query, edit, or_throw,
}
use ops_marketplace_server.Database.Triples.{
  Triple-throw_if, IsLive, Triple, Triple-bind, Triple-read, Triple-edit, Triple-edit_last,
  Triple-write, Triple-write_last, Triple-found,
}
use ops_marketplace_server.Carts.Unique.{HasUniqueItems, clear-HasUniqueItems}
use ops_marketplace_server.Checkout.{
  amount_too_large, total_of, sum_of_orders, fits_column, Line, Group, Request, order_of,
  payment_of, reserve, reserve_found, reserve_product, reserve_lines, insert_order, create_order,
  create_orders, insert_payment, finish, checkout_body,
}
use ops_marketplace_server.Checkout.Groups.{sum_lines, sum_groups}
use ops_marketplace_server.Checkout.Stock.{want, HasRoom}

abbrev pub plus : (String → ℤ) → (String → ℤ) → String → ℤ
plus d e p = d p +ℤ e p

reserve-HasRoom :
    (g : Goods) (product : String) (n : ℤ) (row : InventoryRow) (d : String → ℤ)
    → g.inventories product ≡ some row
    → HasRoom (plus (λ p. if product == p then n else pos 0) d) g
    → HasRoom d (record g { inventories = put_row product (reserve n row) g.inventories })
reserve-HasRoom g product n row d there room p found is_found =
    let was = room p in let same = eq_iff product p in grind (int_laws, there, was, same, is_found)

module _ (C : Client) where
  abbrev pub Room : (String → ℤ) → C.State → Type 0
  Room d u = HasRoom d (C.seen u).goods × HasUniqueItems (C.seen u).goods.cart_items

  found-Room :
      (product : String) (n : ℤ) (d : String → ℤ) (row : Option InventoryRow)
      → Triple C
          (λ u.
            ((C.seen u).goods.inventories product ≡ row)
            × (IsLive C u × Room (plus (λ p. if product == p then n else pos 0) d) u))
          (reserve_found C product n row)
          (λ _ u. Room d u)
  found-Room product n d none = λ s p. tt
  found-Room product n d (some row) =
      Triple-edit_last C _ (λ _ u. Room d u)
        (λ g. record g { inventories = put_row product (reserve n row) g.inventories })
        (λ u live p.
          rw C.put_goods_lem
            (reserve-HasRoom (C.seen u).goods product n row d p.0 p.1.1.0, p.1.1.1))

  reserve_product-Room :
      (product : String) (n : ℤ) (d : String → ℤ)
      → Triple C
          (Room (plus (λ p. if product == p then n else pos 0) d))
          (reserve_product C product n)
          (λ _ u. Room d u)
  unfolding reserve_product
  reserve_product-Room product n d =
      let P = Room (plus (λ p. if product == p then n else pos 0) d) in
      Triple-read C P (λ _ u. Room d u) (λ t. t.goods.inventories product)
        (reserve_found C product n) (λ row. found-Room product n d row)

  pub Room-same :
      (d e : String → ℤ) (u : C.State) → ((p : String) → d p ≡ e p) → Room d u → Room e u
  Room-same d e u same room = (
    (λ p row there. subst (λ n. row.reserved +ℤ n ≤ℤ pos row.stock) (same p) (room.0 p row there)),
    room.1,
  )

  reserve_lines-Room :
      (ls : List Line) (d : String → ℤ)
      → Triple C (Room (plus (λ p. sum_lines (want p) ls) d)) (reserve_lines C ls) (λ _ u. Room d u)
  unfolding reserve_lines sum_lines
  reserve_lines-Room [] d = λ s p. Room-same (plus (λ _. pos 0) d) d s (λ q. grind int_laws) p
  reserve_lines-Room (l ∷ ls) d =
      let rest = plus (λ p. sum_lines (want p) ls) d in
      let all = plus (λ p. want p l) rest in
      λ s p.
        Triple-bind C (Room all) (λ _ u. Room rest u) (λ _ u. Room d u)
          (reserve_product C l.item.product_id (pos l.item.quantity)) (λ _. reserve_lines C ls)
          (reserve_product-Room l.item.product_id (pos l.item.quantity) rest)
          (λ _. reserve_lines-Room ls d) s
          (Room-same (plus (λ q. sum_lines (want q) (l ∷ ls)) d) all s (λ q. grind int_laws) p)

  insert_order-Room :
      (d : String → ℤ) (o : OrderRow) (old : Option OrderRow)
      → Triple C (Room d) (insert_order C o old) (λ _ u. Room d u)
  insert_order-Room d o none =
      Triple-write_last C (Room d) (λ _ u. Room d u) (C.put_order o.id o)
        (λ u live p. rw C.put_order_lem p)
  insert_order-Room d o (some old) = λ s p. tt

  create_order-Room :
      (r : Request) (a : AddressRow) (g : Group) (d : String → ℤ)
      → Triple C
          (Room (plus (λ p. sum_lines (want p) g.lines) d))
          (create_order C r a g)
          (λ _ u. Room d u)
  unfolding create_order
  create_order-Room r a g d =
      let o = order_of r a g in
      let P = Room (plus (λ p. sum_lines (want p) g.lines) d) in
      let R = λ (_ : OrderRow) (u : C.State). Room d u in
      let rest = reserve_lines C g.lines >> pure o in
      Triple-read C P R (λ t. t.orders o.id)
        (λ old.
          throw_if (not (fits_column (total_of g.lines))) amount_too_large
          >> (insert_order C o old >> rest))
        (λ old s p.
          Triple-throw_if C P R (not (fits_column (total_of g.lines))) amount_too_large
            (insert_order C o old >> rest)
            (λ _.
              Triple-bind C P (λ _ u. P u) R (insert_order C o old) (λ _. rest)
                (insert_order-Room (plus (λ p. sum_lines (want p) g.lines) d) o old)
                (λ _.
                  Triple-bind C P (λ _ u. Room d u) R (reserve_lines C g.lines) (λ _. pure o)
                    (reserve_lines-Room g.lines d) (λ _ u q. q)))
            s p.1.1)

  create_orders-Room :
      (r : Request) (a : AddressRow) (gs : List Group) (d : String → ℤ)
      → Triple C
          (Room (plus (λ p. sum_groups (want p) gs) d))
          (create_orders C r a gs)
          (λ _ u. Room d u)
  unfolding create_orders sum_groups
  create_orders-Room r a [] d = λ s p. Room-same (plus (λ _. pos 0) d) d s (λ q. grind int_laws) p
  create_orders-Room r a (g ∷ gs) d =
      let rest = plus (λ p. sum_groups (want p) gs) d in
      let all = plus (λ p. sum_lines (want p) g.lines) rest in
      let R = λ (_ : List OrderRow) (u : C.State). Room d u in
      λ s p.
        Triple-bind C (Room all) (λ _ u. Room rest u) R (create_order C r a g)
          (λ o. create_orders C r a gs >>= λ os. pure (o ∷ os)) (create_order-Room r a g rest)
          (λ o.
            Triple-bind C (Room rest) (λ _ u. Room d u) R (create_orders C r a gs)
              (λ os. pure (o ∷ os)) (create_orders-Room r a gs d) (λ os u q. q))
          s (Room-same (plus (λ q. sum_groups (want q) (g ∷ gs)) d) all s (λ q. grind int_laws) p)

  insert_payment-Room :
      (d : String → ℤ) (p : PaymentRow) (old : Option PaymentRow)
      → Triple C (Room d) (insert_payment C p old >> pure p) (λ _ u. Room d u)
  insert_payment-Room d p none =
      Triple-write C (Room d) (Room d) (λ _ u. Room d u) (C.put_payment p) (λ _. pure p)
        (λ u live q. rw C.put_payment_lem q) (λ s q. q)
  insert_payment-Room d p (some old) = λ s q. tt

  finish-Room :
      (r : Request) (cart_id : String) (os : List OrderRow) (d : String → ℤ)
      → Triple C (Room d) (finish C r cart_id os) (λ _ u. Room d u)
  unfolding finish
  finish-Room r cart_id os d =
      let R = λ (_ : PaymentRow) (u : C.State). Room d u in
      let find = λ (t : Tables). find_payment r.payment_id t.payments in
      let create = λ (m : PaymentMethod) (old : Option PaymentRow).
        throw_if (not (fits_column (sum_of_orders os))) amount_too_large
        >> (insert_payment C (payment_of r m os) old >> pure (payment_of r m os)) in
      let pay = λ (m : PaymentMethod). query C find >>= create m in
      let method = or_throw C payment_method_invalid r.method in
      let complete =
        edit C (λ g. record g { carts = set_cart_status cart_id CartStatus.completed g.carts }) in
      Triple-edit C (Room d) (Room d) R
        (λ g. record g { cart_items = delete_cart_items cart_id g.cart_items })
        (λ _. complete >> (method >>= pay))
        (λ u live q.
          rw C.put_goods_lem (q.0, clear-HasUniqueItems cart_id (C.seen u).goods.cart_items q.1))
        (Triple-edit C (Room d) (Room d) R
          (λ g. record g { carts = set_cart_status cart_id CartStatus.completed g.carts })
          (λ _. method >>= pay) (λ u live q. rw C.put_goods_lem q)
          (Triple-found C (Room d) R payment_method_invalid r.method pay (λ m _.
            Triple-read C (Room d) R find (create m) (λ old s q.
              Triple-throw_if C (Room d) R (not (fits_column (sum_of_orders os))) amount_too_large
                (insert_payment C (payment_of r m os) old >> pure (payment_of r m os))
                (λ _. insert_payment-Room d (payment_of r m os) old) s q.1.1))))

  pub body-Room :
      (r : Request) (cart_id : String) (a : AddressRow) (gs : List Group) (d : String → ℤ)
      → Triple C
          (Room (plus (λ p. sum_groups (want p) gs) d))
          (checkout_body C r cart_id a gs)
          (λ _ u. Room d u)
  unfolding checkout_body
  body-Room r cart_id a gs d =
      let R = λ (_ : List OrderRow × PaymentRow) (u : C.State). Room d u in
      Triple-bind C (Room (plus (λ p. sum_groups (want p) gs) d)) (λ _ u. Room d u) R
        (create_orders C r a gs) (λ os. finish C r cart_id os >>= λ p. pure (os, p))
        (create_orders-Room r a gs d)
        (λ os.
          Triple-bind C (Room d) (λ _ u. Room d u) R (finish C r cart_id os) (λ p. pure (os, p))
            (finish-Room r cart_id os d) (λ p u q. q))
