-- ===== src/Checkout.antt =====
-- The two checkouts of a cart over any database: `createOrdersFromCart` of
-- src/modules/order/orders.service.ts and `checkout` of
-- src/modules/cart/applications/use-cases/checkout.usecase.ts. The ids of new rows and the time are
-- arguments: an order's id by its shop. Of the events that are published after the transaction the
-- tests of what they are made of are modelled, their delivery is not, and neither are the pictures of
-- the products. The columns of totals are Decimal(12, 2): a larger total is refused.
mod Lines
pub mod Groups
pub mod Effects
pub mod Finishing
pub mod Totals
pub mod Results
pub mod Stock
pub mod Reserved
pub mod Bounds
pub mod Lockout
pub mod Stocked
pub mod Ready
pub mod Success
mod Tests
unfoldable pub use Lines.*
use ops_marketplace_server.Base.{
  is_blank, ◌+◌, ℕ, ℤ, pos, ◌+ℤ◌, ◌-ℤ◌, ◌*ℤ◌, ltb_ℤ, is_empty, is_some, Bool, true, false, ◌&&◌,
  ◌||◌, not, if◌then◌else◌, get_or, is_empty_text, map, Option, none, some, List, [], ◌∷◌, String,
  ◌==◌, ok, err, Void, throw, throw_if, pure, ◌>>=◌, ◌>>◌, push,
}
use ops_marketplace_server.Ids.{Date}
use ops_marketplace_server.Order.{OrderStatus, OrderType}
use ops_marketplace_server.Payment.{PaymentStatus, PaymentMethod}
use ops_marketplace_server.Product.{ProductStatus, equals}
use ops_marketplace_server.Database.{
  amount_negative, id_empty, amount_too_large, Client, Query, Tables, Goods, CartRow, CartItemRow,
  CartStatus, ProductRow, InventoryRow, AddressRow, StoredAddress, OrderItemRow, OrderRow,
  PaymentItem, PaymentRow, find_active_cart, items_of_cart, set_cart_status, delete_cart_items,
  find_payment, put_row, Error, payment_method_invalid, unique_violation, record_missing,
  cart_is_empty, address_missing, address_required, product_unavailable, not_enough_stock, query,
  write, edit, transaction, or_throw,
}
use ops_marketplace_server.Carts.{available_stock}

module _ (C : Client) where
  -- `tx.inventory.update` throws on a row that is not there.
  abbrev pub reserve_found : String → ℤ → Option InventoryRow → Query C Void
  reserve_found product n none = throw record_missing
  reserve_found product n (some row) =
      edit C (λ g. record g { inventories = put_row product (reserve n row) g.inventories })

  unfoldable pub reserve_product : String → ℤ → Query C Void
  reserve_product product n = do
    row ← query C (λ t. t.goods.inventories product)
    reserve_found product n row

  unfoldable pub reserve_lines : List Line → Query C Void
  reserve_lines [] = pure tt
  reserve_lines (l ∷ ls) = do
    reserve_product l.item.product_id (pos l.item.quantity)
    reserve_lines ls

  -- `tx.order.create` under the id that the database chooses.
  abbrev pub insert_order : OrderRow → Option OrderRow → Query C Void
  insert_order o none = write C (C.put_order o.id o)
  insert_order o (some old) = throw unique_violation

  unfoldable pub create_order : Request → AddressRow → Group → Query C OrderRow
  create_order r address g = do
    old ← query C (λ t. t.orders (r.order_id g.shop_id))
    throw_if (not (fits_column (total_of g.lines))) amount_too_large
    insert_order (order_of r address g) old
    reserve_lines g.lines
    pure (order_of r address g)

  unfoldable pub create_orders : Request → AddressRow → List Group → Query C (List OrderRow)
  create_orders r address [] = pure []
  create_orders r address (g ∷ gs) = do
    o ← create_order r address g
    os ← create_orders r address gs
    pure (o ∷ os)

  abbrev pub insert_payment : PaymentRow → Option PaymentRow → Query C Void
  insert_payment p none = write C (C.put_payment p)
  insert_payment p (some old) = throw unique_violation

  -- The cart is emptied and completed, and the payment created.
  unfoldable pub finish : Request → String → List OrderRow → Query C PaymentRow
  finish r cart_id os = do
    edit C (λ g. record g { cart_items = delete_cart_items cart_id g.cart_items })
    edit C (λ g. record g { carts = set_cart_status cart_id CartStatus.completed g.carts })
    method ← or_throw C payment_method_invalid r.method
    old ← query C (λ t. find_payment r.payment_id t.payments)
    throw_if (not (fits_column (sum_of_orders os))) amount_too_large
    insert_payment (payment_of r method os) old
    pure (payment_of r method os)

  -- The body of the transaction of `createOrdersFromCart`.
  unfoldable pub checkout_body :
      Request → String → AddressRow → List Group → Query C (List OrderRow × PaymentRow)
  checkout_body r cart_id address gs = do
    os ← create_orders r address gs
    p ← finish r cart_id os
    pure (os, p)

  -- `throw` of the error that a loop found.
  abbrev pub throw_some : Option Error → Query C Void
  throw_some none = pure tt
  throw_some (some e) = throw e

  -- The address of the user.
  abbrev pub of_user : String → Option AddressRow → Option AddressRow
  of_user user none = none
  of_user user (some a) = if a.user_id == user then some a else none

  abbrev pub find_address : Request → Query C AddressRow
  find_address r = do
    found ← query C (λ t. of_user r.user_id (t.goods.addresses r.address_id))
    or_throw C address_missing found

  -- `createOrdersFromCart` on the lines of the cart, up to the end of the transaction.
  abbrev pub place_orders : Request → String → List Line → Query C (List OrderRow × PaymentRow)
  place_orders r cart_id ls = do
    throw_if (is_empty ls) cart_is_empty
    address ← find_address r
    throw_some (check_lines ls)
    transaction C (λ before. checkout_body r cart_id address (group_lines ls))

  -- The loop after the transaction: the events are made, which tests what they are made of. Their
  -- listener only logs them.
  unfoldable pub publish_orders : List OrderRow → Query C Void
  publish_orders [] = pure tt
  publish_orders (o ∷ os) = do
    throw_if (is_blank o.id) id_empty
    throw_if (is_blank o.buyer_id) id_empty
    throw_if (is_blank o.seller_id) id_empty
    throw_if (ltb_ℤ o.total_price (pos 0)) amount_negative
    publish_orders os

  abbrev pub create_from_lines : Request → String → List Line → Query C (List OrderRow × PaymentRow)
  create_from_lines r cart_id ls = do
    placed ← place_orders r cart_id ls
    publish_orders placed.0
    pure placed

  -- The lines of the cart with an id, on what was read.
  abbrev pub cart_lines : Tables → CartRow → List Line
  cart_lines t cart = lines_of t.goods (items_of_cart cart.id t.goods.cart_items)

  unfoldable pub create_orders_from_cart : Request → Query C (List OrderRow × PaymentRow)
  create_orders_from_cart r = do
    t ← query C (λ t. t)
    cart ← or_throw C cart_is_empty (find_active_cart r.user_id t.goods.carts)
    create_from_lines r cart.id (cart_lines t cart)

  -- The body of the transaction of `CheckoutUseCase.checkout`.
  unfoldable pub use_case_body :
      Request → String → AddressRow → List Line → Query C (List OrderRow × PaymentRow)
  use_case_body r cart_id address ls = do
    edit C (λ g. record g { carts = set_cart_status cart_id CartStatus.checking_out g.carts })
    checkout_body r cart_id (without_postal_code address) (group_lines ls)

  abbrev pub checkout_lines : Request → String → List Line → Query C (List OrderRow × PaymentRow)
  checkout_lines r cart_id ls = do
    throw_if (is_empty ls) cart_is_empty
    throw_if (is_empty_text r.address_id) address_required
    address ← find_address r
    throw_some (check_lines ls)
    transaction C (λ before. use_case_body r cart_id address ls)

  -- `CheckoutUseCase.checkout`.
  unfoldable pub checkout : Request → Query C (List OrderRow × PaymentRow)
  checkout r = do
    t ← query C (λ t. t)
    cart ← or_throw C cart_is_empty (find_active_cart r.user_id t.goods.carts)
    checkout_lines r cart.id (cart_lines t cart)
