-- ===== src/Orders.antt =====
-- The calls of src/modules/order/orders.service.ts on an order that is there, over any database; the
-- creation of orders is in Checkout. The lists of orders and the events are not modelled, nor
-- orders that were deleted. The times are arguments.
pub mod Repository
pub mod UseCases
pub mod Saving
pub mod Release
pub mod Cancelling
mod Tests
use ops_marketplace_server.Base.{
  ◌+◌, ℤ, ◌-ℤ◌, Bool, true, false, ◌||◌, not, if◌then◌else◌, Option, none, some, List, [], ◌∷◌,
  String, ◌==◌, ok, err, Void, throw, throw_if, pure, ◌>>=◌, ◌>>◌,
}
use ops_marketplace_server.Ids.{Date}
use ops_marketplace_server.Payment.{PaymentStatus}
use ops_marketplace_server.Order.{Order, OrderStatus, equals}
use ops_marketplace_server.Database.{
  Client, Query, Tables, InventoryRow, OrderRow, OrderItemRow, put_row, Error, order_missing,
  record_missing, order_not_pending, shop_required, query, edit, transaction, or_throw,
}
use ops_marketplace_server.Orders.UseCases.{cancel_use_case, update_order_status_use_case}

-- `where: { buyerId: userId }` and `items: { some: { shopId } }` on the row with an id.
abbrev pub of_buyer : String → Option OrderRow → Option OrderRow
of_buyer user none = none
of_buyer user (some o) = if o.buyer_id == user then some o else none

unfoldable pub has_shop : String → List OrderItemRow → Bool
has_shop shop [] = false
has_shop shop (i ∷ is) = i.shop_id == shop || has_shop shop is

abbrev pub of_shop : String → Option OrderRow → Option OrderRow
of_shop shop none = none
of_shop shop (some o) = if has_shop shop o.items then some o else none

-- `reserved: { decrement }, version: { increment: 1 }`.
abbrev pub release : ℤ → InventoryRow → InventoryRow
release n row = record row { reserved = row.reserved -ℤ n; version = row.version + 1 }

abbrev pub items_of : Option OrderRow → List OrderItemRow
items_of none = []
items_of (some o) = o.items

module _ (C : Client) where
  unfoldable pub get_order : String → String → Query C OrderRow
  get_order user id = do
    found ← query C (λ t. of_buyer user (t.orders id))
    or_throw C order_missing found

  unfoldable pub get_order_as_shop : String → String → Query C OrderRow
  get_order_as_shop user id = do
    shop ← query C (λ t. t.owner_shops user)
    shop_id ← or_throw C shop_required shop
    found ← query C (λ t. of_shop shop_id (t.orders id))
    or_throw C order_missing found

  unfoldable pub update_order_status :
      String → String → OrderStatus → Date → Date → Date → Query C Order
  update_order_status user id status at touched now = do
    o ← get_order_as_shop user id
    update_order_status_use_case C status at touched now id

  abbrev pub release_found : String → ℤ → Option InventoryRow → Query C Void
  release_found product n none = throw record_missing
  release_found product n (some row) =
      edit C (λ g. record g { inventories = put_row product (release n row) g.inventories })

  unfoldable pub release_product : String → ℤ → Query C Void
  release_product product n = do
    row ← query C (λ t. t.goods.inventories product)
    release_found product n row

  unfoldable pub release_items : List OrderItemRow → Query C Void
  release_items [] = pure tt
  release_items (i ∷ is) = do release_product i.product_id i.quantity; release_items is

  -- The transaction of `cancelOrder`.
  unfoldable pub release_order : String → Query C Void
  release_order id =
      transaction C
        (λ before. do items ← query C (λ t. items_of (t.orders id)); release_items items)

  unfoldable pub cancel_order : String → String → Date → Date → Date → Query C Order
  cancel_order user id at touched now = do
    o ← get_order user id
    throw_if (not (equals o.status OrderStatus.pending)) order_not_pending
    release_order id
    cancel_use_case C none at touched now id
