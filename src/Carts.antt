-- ===== src/Carts.antt =====
-- src/modules/cart/carts.service.ts and its use cases add-item, get-cart and update-cart, over any
-- database. The ids that the database chooses for new rows are arguments. The pictures and names that
-- a cart is shown with are not modelled; the checkout is in Checkout.
pub mod Unique
pub mod Reads
pub mod Locked
pub mod Sound
use ops_marketplace_server.Base.{
  ℕ, ◌+◌, ◌*◌, ℤ, pos, ◌+ℤ◌, ◌-ℤ◌, ◌*ℤ◌, ltb_ℤ, eqb, length, is_some, Bool, true, false, ◌&&◌, not,
  if◌then◌else◌, is_empty_text, Option, none, some, List, [], ◌∷◌, String, ◌==◌, ok, err, Void,
  throw, throw_if, pure, ◌>>=◌, ◌>>◌, push,
}
use ops_marketplace_server.Product.{ProductStatus, equals}
use ops_marketplace_server.Database.{
  Client, Query, Tables, Goods, CartRow, CartItemRow, CartStatus, ProductRow, InventoryRow,
  find_active_cart, find_cart_of, items_of_cart, find_cart_item, update_cart_item, delete_cart_item,
  delete_cart_items, Error, unique_violation, cart_missing, cart_item_missing, product_missing,
  not_enough_stock, user_required, coupon_unavailable, query, edit, or_throw,
}

-- A cart with its items.
pub record CartView : Type 0 where
  pub cart : CartRow
  pub items : List CartItemRow

pub record Summary : Type 0 where
  pub cart_id : String
  pub item_count : ℕ
  pub total_quantity : ℕ
  pub subtotal : ℤ
  pub discount : ℤ
  pub total : ℤ

-- `(inventory?.stock ?? 0) - (inventory?.reserved ?? 0)`.
abbrev pub available_stock : Option InventoryRow → ℤ
available_stock none = pos 0
available_stock (some r) = pos r.stock -ℤ r.reserved

-- `findFirst` of a product that is not deleted and is active.
abbrev pub if_active : Option ProductRow → Option ProductRow
if_active none = none
if_active (some p) =
    if not p.is_deleted && equals p.status ProductStatus.active then some p else none

unfoldable pub subtotal_of : List CartItemRow → ℤ
subtotal_of [] = pos 0
subtotal_of (i ∷ is) = i.price *ℤ pos i.quantity +ℤ subtotal_of is

unfoldable pub quantity_of : List CartItemRow → ℕ
quantity_of [] = 0
quantity_of (i ∷ is) = i.quantity + quantity_of is

abbrev pub new_cart : String → String → CartRow
new_cart id user = record {
  id = id;
  user_id = some user;
  session_id = none;
  status = CartStatus.active;
}

module _ (C : Client) where
  -- `cart.create`: the schema makes the user of a cart unique.
  abbrev pub insert_cart : CartRow → Option CartRow → Query C Void
  insert_cart row none = edit C (λ g. record g { carts = push g.carts row })
  insert_cart row (some old) = throw unique_violation

  abbrev pub create_if_none : String → String → Option CartRow → Query C CartRow
  create_if_none new_id user none = do
    old ← query C (λ t. find_cart_of user t.goods.carts)
    insert_cart (new_cart new_id user) old
    pure (new_cart new_id user)
  create_if_none new_id user (some c) = pure c

  -- `findOrCreateCart` of the service, and of the use cases, which test the user.
  unfoldable pub find_or_create : String → String → Query C CartRow
  find_or_create new_id user = do
    found ← query C (λ t. find_active_cart user t.goods.carts)
    create_if_none new_id user found

  unfoldable pub find_or_create_cart : String → String → Query C CartRow
  find_or_create_cart new_id user = do
    throw_if (is_empty_text user) user_required
    find_or_create new_id user

  unfoldable pub find_active : String → Query C CartRow
  find_active user = do
    throw_if (is_empty_text user) user_required
    found ← query C (λ t. find_active_cart user t.goods.carts)
    or_throw C cart_missing found

  unfoldable pub get_product_by_id : String → Query C ProductRow
  get_product_by_id product = do
    found ← query C (λ t. if_active (t.goods.products product))
    or_throw C product_missing found

  unfoldable pub assert_available_stock : String → ℕ → Query C Void
  assert_available_stock product quantity = do
    p ← get_product_by_id product
    row ← query C (λ t. t.goods.inventories product)
    throw_if (ltb_ℤ (available_stock row) (pos quantity)) not_enough_stock

  -- `getCartById`.
  unfoldable pub show : CartRow → Query C CartView
  show cart = do
    items ← query C (λ t. items_of_cart cart.id t.goods.cart_items)
    pure (record { cart = cart; items = items })

  unfoldable pub get_cart : String → String → Query C CartView
  get_cart new_id user = do cart ← find_or_create_cart new_id user; show cart

  -- The rest of `addItem` on the item of that product that is there.
  abbrev pub add_or_grow :
      CartRow → String → String → ℕ → ProductRow → Option CartItemRow → Query C Void
  add_or_grow cart new_item product quantity p none = edit C (λ g. record g {
    cart_items = push g.cart_items (record {
      id = new_item;
      cart_id = cart.id;
      product_id = product;
      quantity = quantity;
      price = p.retail_price;
    });
  })
  add_or_grow cart new_item product quantity p (some i) = do
    assert_available_stock product (i.quantity + quantity)
    edit C (λ g. record g {
      cart_items = update_cart_item i.id (i.quantity + quantity) (some p.retail_price) g.cart_items;
    })

  unfoldable pub add_item : String → String → String → String → ℕ → Query C CartView
  add_item new_id new_item user product quantity = do
    p ← get_product_by_id product
    assert_available_stock product quantity
    cart ← find_or_create_cart new_id user
    existing ← query C (λ t. find_cart_item cart.id product t.goods.cart_items)
    add_or_grow cart new_item product quantity p existing
    show cart

  abbrev pub change_item : CartRow → String → ℕ → CartItemRow → Query C CartView
  change_item cart product quantity i =
      if eqb quantity 0
      then (do
        edit C (λ g. record g { cart_items = delete_cart_item i.id g.cart_items })
        show cart)
      else (do
        assert_available_stock product quantity
        edit C (λ g. record g { cart_items = update_cart_item i.id quantity none g.cart_items })
        show cart)

  unfoldable pub update_item : String → String → ℕ → Query C CartView
  update_item user product quantity = do
    cart ← find_active user
    found ← query C (λ t. find_cart_item cart.id product t.goods.cart_items)
    i ← or_throw C cart_item_missing found
    change_item cart product quantity i

  unfoldable pub remove_item : String → String → Query C CartView
  remove_item user product = do
    cart ← find_active user
    found ← query C (λ t. find_cart_item cart.id product t.goods.cart_items)
    i ← or_throw C cart_item_missing found
    edit C (λ g. record g { cart_items = delete_cart_item i.id g.cart_items })
    show cart

  unfoldable pub clear_cart : String → Query C CartView
  clear_cart user = do
    cart ← find_active user
    edit C (λ g. record g { cart_items = delete_cart_items cart.id g.cart_items })
    show cart

  -- `getSummary`.
  unfoldable pub get_summary : String → String → Query C Summary
  get_summary new_id user = do
    cart ← find_or_create new_id user
    view ← show cart
    pure (record {
      cart_id = view.cart.id;
      item_count = length view.items;
      total_quantity = quantity_of view.items;
      subtotal = subtotal_of view.items;
      discount = pos 0;
      total = subtotal_of view.items;
    })

  -- `applyCoupon`: there is no storage of coupons.
  unfoldable pub apply_coupon : String → Query C Void
  apply_coupon user = do
    found ← query C (λ t. find_active_cart user t.goods.carts)
    cart ← or_throw C cart_missing found
    throw coupon_unavailable

  unfoldable pub remove_coupon : String → String → Query C Summary
  remove_coupon new_id user = do
    found ← query C (λ t. find_active_cart user t.goods.carts)
    cart ← or_throw C cart_missing found
    get_summary new_id user
