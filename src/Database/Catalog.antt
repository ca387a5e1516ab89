-- ===== src/Database/Catalog.antt =====
-- The tables of prisma/schema.prisma about goods, carts and orders. A price is a whole number of
-- hundredths; the quantity of an item in a cart is a count, since a request for it must be at least 1.
use ops_marketplace_server.Base.{
  ℕ, ℤ, Bool, true, false, ◌&&◌, if◌then◌else◌, Option, none, some, List, [], ◌∷◌, String, ◌==◌,
}
use ops_marketplace_server.Ids.{Date}
use ops_marketplace_server.Payment.{PaymentStatus}
use ops_marketplace_server.Order.{OrderStatus, OrderType}
use ops_marketplace_server.Product.{ProductStatus}

pub data CartStatus : Type 0 where
  active checking_out completed expired abandoned : CartStatus

abbrev pub is_active_cart : CartStatus → Bool
is_active_cart active = true
is_active_cart _ = false

pub record CartRow : Type 0 where
  pub id : String
  pub user_id : Option String
  pub session_id : Option String
  pub status : CartStatus

pub record CartItemRow : Type 0 where
  pub id : String
  pub cart_id : String
  pub product_id : String
  pub quantity : ℕ
  pub price : ℤ

-- `is_deleted` says that `deletedAt` is set.
pub record ProductRow : Type 0 where
  pub shop_id : String
  pub seller_id : String
  pub name : String
  pub status : ProductStatus
  pub retail_price : ℤ
  pub is_deleted : Bool

pub record InventoryRow : Type 0 where
  pub stock : ℕ
  pub reserved : ℤ
  pub version : ℕ

pub record AddressRow : Type 0 where
  pub id : String
  pub user_id : String
  pub country : Option String
  pub city : Option String
  pub district : Option String
  pub ward : Option String
  pub street : Option String
  pub detail : Option String
  pub postal_code : Option String

-- The JSON of an order's address: the columns of an address, as a checkout writes them, or what the
-- repository of orders writes of an `Address`, as a text.
pub data StoredAddress : Type 0 where
  of_columns : AddressRow → StoredAddress
  of_entity : String → StoredAddress

pub record OrderItemRow : Type 0 where
  pub shop_id : String
  pub product_id : String
  pub product_name : String
  pub quantity : ℤ
  pub price : ℤ

pub record OrderRow : Type 0 where
  pub id : String
  pub buyer_id : String
  pub seller_id : String
  pub order_type : OrderType
  pub status : OrderStatus
  pub total_price : ℤ
  pub shipping_address : StoredAddress
  pub payment_method : String
  pub payment_intent_id : Option String
  pub payment_status : PaymentStatus
  pub notes : Option String
  pub shipped_at : Option Date
  pub delivered_at : Option Date
  pub cancelled_at : Option Date
  pub created_at : Date
  pub updated_at : Date
  pub items : List OrderItemRow

-- `order.items[0]?.shopId`.
abbrev pub first_shop : OrderRow → Option String
first_shop o = elim o.items [ [] ↦ none | i ∷ is ↦ some i.shop_id ]

-- The products, their stock, the carts and the addresses. The items of a cart are in the order of
-- their creation.
pub record Goods : Type 0 where
  pub products : String → Option ProductRow
  pub inventories : String → Option InventoryRow
  pub carts : List CartRow
  pub cart_items : List CartItemRow
  pub addresses : String → Option AddressRow

abbrev pub is_user : Option String → String → Bool
is_user none user = false
is_user (some u) user = u == user

unfoldable pub find_active_cart : String → List CartRow → Option CartRow
find_active_cart user [] = none
find_active_cart user (c ∷ cs) =
    if is_user c.user_id user && is_active_cart c.status then some c else find_active_cart user cs

-- The cart of a user, whatever its status.
unfoldable pub find_cart_of : String → List CartRow → Option CartRow
find_cart_of user [] = none
find_cart_of user (c ∷ cs) = if is_user c.user_id user then some c else find_cart_of user cs

-- The status of the cart with an id, written.
unfoldable pub set_cart_status : String → CartStatus → List CartRow → List CartRow
set_cart_status id status [] = []
set_cart_status id status (c ∷ cs) =
    (if c.id == id then record c { status = status } else c) ∷ set_cart_status id status cs

unfoldable pub items_of_cart : String → List CartItemRow → List CartItemRow
items_of_cart cart [] = []
items_of_cart cart (i ∷ is) =
    if i.cart_id == cart then i ∷ items_of_cart cart is else items_of_cart cart is

-- The item with a cart and a product, which the schema makes unique.
unfoldable pub find_cart_item : String → String → List CartItemRow → Option CartItemRow
find_cart_item cart product [] = none
find_cart_item cart product (i ∷ is) =
    if i.cart_id == cart && i.product_id == product then some i else find_cart_item cart product is

-- The rows with an id, updated: `cartItem.update` writes the quantity, and the price if it is given.
abbrev pub with_price : Option ℤ → CartItemRow → CartItemRow
with_price none i = i
with_price (some p) i = record i { price = p }

unfoldable pub update_cart_item : String → ℕ → Option ℤ → List CartItemRow → List CartItemRow
update_cart_item id n price [] = []
update_cart_item id n price (i ∷ is) =
    (if i.id == id then with_price price (record i { quantity = n }) else i)
    ∷ update_cart_item id n price is

unfoldable pub delete_cart_item : String → List CartItemRow → List CartItemRow
delete_cart_item id [] = []
delete_cart_item id (i ∷ is) =
    if i.id == id then delete_cart_item id is else i ∷ delete_cart_item id is

unfoldable pub delete_cart_items : String → List CartItemRow → List CartItemRow
delete_cart_items cart [] = []
delete_cart_items cart (i ∷ is) =
    if i.cart_id == cart then delete_cart_items cart is else i ∷ delete_cart_items cart is
