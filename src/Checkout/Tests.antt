-- ===== src/Checkout/Tests.antt =====
-- A cart with products of two shops, checked out on tables in memory.
use ops_marketplace_server.Base.{
  ◌*ℤ◌, ◌+ℤ◌, is_blank, subst, eq_iff, int_laws, ℕ, ◌≤◌, ℤ, pos, ◌-ℤ◌, ◌≡◌, refl, map, true, false,
  ◌||◌, if◌then◌else◌, ◌==◌, none, some, List, [], ◌∷◌, String, ok, arith,
}
use ops_marketplace_server.Payment.{PaymentMethod}
use ops_marketplace_server.Product.{ProductStatus, equals}
use ops_marketplace_server.Database.{
  Tables, CartRow, CartItemRow, CartStatus, ProductRow, AddressRow, OrderRow, PaymentRow,
  find_active_cart, items_of_cart, find_payment, query, write, edit, transaction,
}
use ops_marketplace_server.Database.Memory.{strict}
use ops_marketplace_server.Carts.{get_cart, add_item}
use ops_marketplace_server.Carts.Unique.{count_items}
use ops_marketplace_server.Carts.Locked.{Fails, count_carts}
use ops_marketplace_server.Carts.Sound.{Sound}
use ops_marketplace_server.Checkout.{
  sum_of_orders, total_of, publish_orders, fits_column, Line, Request, order_of, payment_of,
  lines_of, insert_line, group_from, group_lines, check_lines, reserve_product, reserve_lines,
  create_order, create_orders, finish, checkout_body, cart_lines, create_orders_from_cart,
  use_case_body, checkout,
}
use ops_marketplace_server.Checkout.Results.{
  Paid, marked, create_orders_from_cart_lem, checkout_lem,
}
use ops_marketplace_server.Checkout.Groups.{count_groups, get_lines, lines_of_shop, get_lines-group}
use ops_marketplace_server.Checkout.Bounds.{
  Call, add, update, order_cart, check_out, run, run-Sound,
}
use ops_marketplace_server.Checkout.Success.{create_orders_from_cart-Paid}
use ops_marketplace_server.Database.Succeeds.{Succeeds}
use ops_marketplace_server.Checkout.Lockout.{create_orders_from_cart-Fails}

abbrev item : String → String → ℕ → ℤ → CartItemRow
item id product n price = record {
  id = id;
  cart_id = "cart";
  product_id = product;
  quantity = n;
  price = price;
}

abbrev product : String → ProductRow
product shop = record {
  shop_id = shop;
  seller_id = "seller";
  name = "a";
  status = ProductStatus.active;
  retail_price = pos 100;
  is_deleted = false;
}

abbrev home : AddressRow
home = record {
  id = "home";
  user_id = "user";
  country = some "VN";
  city = none;
  district = none;
  ward = none;
  street = some "1 A";
  detail = none;
  postal_code = none;
}

-- Three units of one product and one of another shop's.
abbrev shopped : Tables
shopped = record {
  accounts = λ _. none;
  account_ids = λ _ _. none;
  entries = [];
  payouts = λ _. none;
  payments = [];
  orders = λ _. none;
  shop_owners = λ _. none;
  owner_shops = λ _. none;
  refunds = [];
  bank_rows = [];
  goods = record {
    products = λ id.
        if id == "p1"
        then some (product "s1")
        else if id == "p2"
        then some (product "s2")
        else none;
    inventories = λ id.
        if id == "p1" || id == "p2"
        then some (record { stock = 5; reserved = pos 2; version = 0 })
        else none;
    carts =
        record { id = "cart"; user_id = some "user"; session_id = none; status = CartStatus.active }
        ∷ [];
    cart_items = item "i1" "p1" 3 (pos 100) ∷ item "i2" "p2" 1 (pos 40) ∷ [];
    addresses = λ id. if id == "home" then some home else none;
  };
  is_open = true;
}

abbrev request : Request
request = record {
  user_id = "user";
  address_id = "home";
  payment_method = "COD";
  method = some PaymentMethod.cod;
  order_id = λ shop. shop;
  payment_id = "pay";
  now = 1;
}

abbrev cart_row : CartRow
cart_row = record {
  id = "cart";
  user_id = some "user";
  session_id = none;
  status = CartStatus.active;
}

abbrev lines : List Line
lines = cart_lines strict shopped cart_row

abbrev orders : List OrderRow
orders = map (order_of request home) (group_lines lines)

abbrev payment : PaymentRow
payment = payment_of request PaymentMethod.cod orders

abbrev ordered : Tables
ordered = (create_orders_from_cart strict request shopped).1

orders_created : create_orders_from_cart strict request shopped ≡ (ok (orders, payment), ordered)
unfolding create_orders_from_cart publish_orders is_blank total_of sum_of_orders ◌+ℤ◌ ◌*ℤ◌
    fits_column checkout_body create_orders create_order reserve_lines reserve_product finish query
    find_active_cart lines_of items_of_cart check_lines equals ◌-ℤ◌ transaction group_from
    insert_line write edit find_payment
orders_created = refl

create_orders_from_cart_lem_example :
    (cart : CartRow) × ((find_active_cart "user" shopped.goods.carts ≡ some cart)
      × Paid strict request shopped cart.id shopped.goods.carts
          (cart_lines strict shopped cart)
          (orders, payment)
          ordered)
create_orders_from_cart_lem_example =
    create_orders_from_cart_lem strict request shopped orders_created

abbrev checked_out : Tables
checked_out = (checkout strict request shopped).1

checkout_returned : checkout strict request shopped ≡ (ok (orders, payment), checked_out)
unfolding checkout total_of sum_of_orders ◌+ℤ◌ ◌*ℤ◌ fits_column use_case_body checkout_body
    create_orders create_order reserve_lines reserve_product finish query find_active_cart lines_of
    items_of_cart check_lines equals ◌-ℤ◌ transaction group_from insert_line write edit find_payment
checkout_returned = refl

checkout_lem_example :
    (cart : CartRow) × ((find_active_cart "user" shopped.goods.carts ≡ some cart)
      × Paid strict request shopped cart.id
          (marked strict cart.id shopped.goods.carts)
          (cart_lines strict shopped cart)
          (orders, payment)
          checked_out)
checkout_lem_example = checkout_lem strict request shopped checkout_returned

create_orders_from_cart-Fails_example :
    Fails strict (get_cart strict "new" "user") ordered
    × Fails strict (add_item strict "new" "i3" "user" "p1" 1) ordered
unfolding count_carts
create_orders_from_cart-Fails_example =
    create_orders_from_cart-Fails strict request shopped (omega arith) orders_created "new" "i3"
      "p1" 1

get_lines-group_example :
    (get_lines "s2" (group_lines lines) ≡ lines_of_shop "s2" lines)
    × (count_groups "s2" (group_lines lines) ≤ 1)
get_lines-group_example = get_lines-group "s2" lines

other_product : (p : String) → ("p1" == p) ≡ true → ("p2" == p) ≡ false
other_product p same = subst (λ q. ("p2" == q) ≡ false) ((eq_iff "p1" p).0 same) refl

shopped-Sound : Sound strict shopped
unfolding count_items
shopped-Sound = (λ p row there. grind (int_laws, there), λ cart p. ground (arith, other_product p))

-- A cart of a second user, who asks for more than is left.
abbrev calls : List Call
calls =
    update "user" "p2" 2
    ∷ check_out request
    ∷ add "c2" "i3" "other" "p1" 1
    ∷ add "c2" "i4" "other" "p2" 1
    ∷ order_cart (record request { user_id = "other"; order_id = λ shop. "o2" })
    ∷ []

run-Sound_example : Sound strict (run strict calls shopped)
run-Sound_example = run-Sound strict calls shopped shopped-Sound

create_orders_from_cart-Paid_example :
    Succeeds strict
      (create_orders_from_cart strict request)
      shopped
      (Paid strict request shopped "cart" shopped.goods.carts lines)
unfolding find_active_cart lines_of items_of_cart check_lines equals ◌-ℤ◌ group_from insert_line
    find_payment fits_column is_blank total_of ◌+ℤ◌ ◌*ℤ◌
create_orders_from_cart-Paid_example =
    create_orders_from_cart-Paid strict request cart_row home PaymentMethod.cod shopped refl refl
      refl (omega arith, (omega arith, tt)) refl refl refl (refl, ((refl, tt), (refl, (tt, tt))))
      refl (refl, (refl, tt)) refl refl ((refl, (refl, refl)), ((refl, (refl, refl)), tt))
