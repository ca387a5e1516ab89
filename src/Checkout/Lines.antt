-- ===== src/Checkout/Lines.antt =====
-- What a checkout computes of what it read: the lines of a cart and their tests, their groups by shop,
-- and the rows of the orders and of the payment.
use ops_marketplace_server.Base.{
  negsuc, ◌&&◌, Bool, ◌+◌, ℤ, pos, ◌+ℤ◌, ◌*ℤ◌, ltb_ℤ, ◌||◌, not, if◌then◌else◌, map, Option, none,
  some, List, [], ◌∷◌, String, ◌==◌, push,
}
use ops_marketplace_server.Ids.{Date}
use ops_marketplace_server.Order.{OrderStatus, OrderType}
use ops_marketplace_server.Payment.{PaymentStatus, PaymentMethod}
use ops_marketplace_server.Product.{ProductStatus, equals}
use ops_marketplace_server.Database.{
  Goods, CartItemRow, ProductRow, InventoryRow, AddressRow, StoredAddress, OrderItemRow, OrderRow,
  PaymentItem, PaymentRow, Error, product_unavailable, not_enough_stock,
}
use ops_marketplace_server.Carts.{available_stock}

-- An item of a cart with its product and the stock of that.
pub record Line : Type 0 where
  pub item : CartItemRow
  pub product : ProductRow
  pub inventory : Option InventoryRow

-- The items with their products; that an item has a product is a foreign key of the schema.
unfoldable pub lines_of : Goods → List CartItemRow → List Line
lines_of g [] = []
lines_of g (i ∷ is) = elim (g.products i.product_id) [
  | none ↦ lines_of g is
  | some p ↦
      record { item = i; product = p; inventory = g.inventories i.product_id } ∷ lines_of g is
]

-- `assertCartItemCanCheckout`.
abbrev pub check_line : Line → Option Error
check_line l =
    if l.product.is_deleted || not (equals l.product.status ProductStatus.active)
    then some product_unavailable
    else if ltb_ℤ (available_stock l.inventory) (pos l.item.quantity)
    then some not_enough_stock
    else none

-- What the first line that cannot be checked out makes the loop throw.
unfoldable pub check_lines : List Line → Option Error
check_lines [] = none
check_lines (l ∷ ls) = elim (check_line l) [ some e ↦ some e | none ↦ check_lines ls ]

-- The lines of a shop.
pub record Group : Type 0 where
  pub shop_id : String
  pub lines : List Line

-- `grouped.get(shopId).push(item)`, on a map that keeps the order of its keys.
unfoldable pub insert_line : Line → List Group → List Group
insert_line l [] = record { shop_id = l.product.shop_id; lines = l ∷ [] } ∷ []
insert_line l (g ∷ gs) =
    if g.shop_id == l.product.shop_id
    then record g { lines = push g.lines l } ∷ gs
    else g ∷ insert_line l gs

unfoldable pub group_from : List Group → List Line → List Group
group_from gs [] = gs
group_from gs (l ∷ ls) = group_from (insert_line l gs) ls

abbrev pub group_lines : List Line → List Group
group_lines ls = group_from [] ls

abbrev pub line_price : Line → ℤ
line_price l = l.item.price *ℤ pos l.item.quantity

-- `items.reduce((sum, item) => sum + Number(item.price) * item.quantity, 0)`.
unfoldable pub total_of : List Line → ℤ
total_of [] = pos 0
total_of (l ∷ ls) = line_price l +ℤ total_of ls

abbrev pub order_item : String → Line → OrderItemRow
order_item shop_id l = record {
  shop_id = shop_id;
  product_id = l.item.product_id;
  product_name = l.product.name;
  quantity = pos l.item.quantity;
  price = l.item.price;
}

-- `items[0].product.sellerId`.
abbrev pub seller_of : List Line → String
seller_of [] = ""
seller_of (l ∷ ls) = l.product.seller_id

-- What the caller gives, and what the database chooses. `payment_method` is the text that the orders
-- keep, after the default of the source where none is given, and `method` the method of the
-- payment, if that text names one.
pub record Request : Type 0 where
  pub user_id : String
  pub address_id : String
  pub payment_method : String
  pub method : Option PaymentMethod
  pub order_id : String → String
  pub payment_id : String
  pub now : Date

abbrev pub order_of : Request → AddressRow → Group → OrderRow
order_of r address g = record {
  id = r.order_id g.shop_id;
  buyer_id = r.user_id;
  seller_id = seller_of g.lines;
  order_type = OrderType.retail;
  status = OrderStatus.pending;
  total_price = total_of g.lines;
  shipping_address = StoredAddress.of_columns address;
  payment_method = r.payment_method;
  payment_intent_id = none;
  payment_status = PaymentStatus.pending;
  notes = none;
  shipped_at = none;
  delivered_at = none;
  cancelled_at = none;
  created_at = r.now;
  updated_at = r.now;
  items = map (order_item g.shop_id) g.lines;
}

-- An amount that a column `Decimal(12, 2)` holds, in hundredths.
unfoldable pub fits_column : ℤ → Bool
fits_column n = ltb_ℤ n (pos 1000000000000) && ltb_ℤ (negsuc 999999999999) n

abbrev pub payment_item : OrderRow → PaymentItem
payment_item o = record { order_id = o.id; amount = o.total_price }

unfoldable pub sum_of_orders : List OrderRow → ℤ
sum_of_orders [] = pos 0
sum_of_orders (o ∷ os) = o.total_price +ℤ sum_of_orders os

abbrev pub payment_of : Request → PaymentMethod → List OrderRow → PaymentRow
payment_of r method os = record {
  id = r.payment_id;
  user_id = r.user_id;
  status = PaymentStatus.pending;
  amount = sum_of_orders os;
  method = method;
  provider = none;
  provider_ref = none;
  items = map payment_item os;
}

-- `reserved: { increment }, version: { increment: 1 }`.
abbrev pub reserve : ℤ → InventoryRow → InventoryRow
reserve n row = record row { reserved = row.reserved +ℤ n; version = row.version + 1 }

-- The use case leaves `postalCode` out of the address that it stores.
abbrev pub without_postal_code : AddressRow → AddressRow
without_postal_code a = record a { postal_code = none }
