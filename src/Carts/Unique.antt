-- ===== src/Carts/Unique.antt =====
-- That no cart has two items of one product, over the writes of the cart's use cases.
use ops_marketplace_server.Base.{
  pos, ◌≤ℤ◌, ℕ, ◌+◌, ◌≤◌, ℤ, ◌≡◌, refl, arith, eq_iff, ◌==◌, ◌&&◌, if◌then◌else◌, Option, none,
  some, List, [], ◌∷◌, String, push,
}
use ops_marketplace_server.Database.{
  InventoryRow, Goods, CartItemRow, find_cart_item, update_cart_item, delete_cart_item,
  delete_cart_items,
}

-- The number of items of a product in a cart.
-- No reservation is above its stock.
abbrev pub HasStock : Goods → Type 0
HasStock g =
    (p : String) (row : InventoryRow) → g.inventories p ≡ some row → row.reserved ≤ℤ pos row.stock

unfoldable pub count_items : String → String → List CartItemRow → ℕ
count_items cart product [] = 0
count_items cart product (i ∷ is) =
    (if i.cart_id == cart && i.product_id == product then 1 else 0) + count_items cart product is

abbrev pub HasUniqueItems : List CartItemRow → Type 0
HasUniqueItems is = (cart product : String) → count_items cart product is ≤ 1

count-update :
    (cart product id : String) (n : ℕ) (price : Option ℤ) (is : List CartItemRow)
    → count_items cart product (update_cart_item id n price is) ≡ count_items cart product is
unfolding count_items update_cart_item
count-update cart product id n price [] = refl
count-update cart product id n none (i ∷ is) =
    ground (arith, count-update cart product id n none is)
count-update cart product id n (some p) (i ∷ is) =
    ground (arith, count-update cart product id n (some p) is)

pub update-HasUniqueItems :
    (id : String) (n : ℕ) (price : Option ℤ) (is : List CartItemRow)
    → HasUniqueItems is
    → HasUniqueItems (update_cart_item id n price is)
update-HasUniqueItems id n price is u cart product =
    rw (count-update cart product id n price is) (u cart product)

count-delete :
    (cart product id : String) (is : List CartItemRow)
    → count_items cart product (delete_cart_item id is) ≤ count_items cart product is
unfolding count_items delete_cart_item
count-delete cart product id [] = omega arith
count-delete cart product id (i ∷ is) = ground (arith, count-delete cart product id is)

pub delete-HasUniqueItems :
    (id : String) (is : List CartItemRow)
    → HasUniqueItems is
    → HasUniqueItems (delete_cart_item id is)
delete-HasUniqueItems id is u cart product =
    omega (arith, count-delete cart product id is, u cart product)

count-clear :
    (cart product k : String) (is : List CartItemRow)
    → count_items cart product (delete_cart_items k is) ≤ count_items cart product is
unfolding count_items delete_cart_items
count-clear cart product k [] = omega arith
count-clear cart product k (i ∷ is) = ground (arith, count-clear cart product k is)

pub clear-HasUniqueItems :
    (k : String) (is : List CartItemRow)
    → HasUniqueItems is
    → HasUniqueItems (delete_cart_items k is)
clear-HasUniqueItems k is u cart product =
    omega (arith, count-clear cart product k is, u cart product)

count-absent :
    (cart product : String) (is : List CartItemRow)
    → find_cart_item cart product is ≡ none
    → count_items cart product is ≡ 0
unfolding count_items find_cart_item
count-absent cart product [] h = refl
count-absent cart product (i ∷ is) h = ground (arith, count-absent cart product is)

count-push :
    (cart product : String) (is : List CartItemRow) (i : CartItemRow)
    → count_items cart product (push is i)
      ≡ count_items cart product is
        + (if i.cart_id == cart && i.product_id == product then 1 else 0)
unfolding count_items
count-push cart product [] i = ground arith
count-push cart product (x ∷ is) i = ground (arith, count-push cart product is i)

pub push-HasUniqueItems :
    (i : CartItemRow) (is : List CartItemRow)
    → find_cart_item i.cart_id i.product_id is ≡ none
    → HasUniqueItems is
    → HasUniqueItems (push is i)
push-HasUniqueItems i is h u cart product =
    let absent = count-absent i.cart_id i.product_id is h in
    grind (
      arith,
      absent,
      u cart product,
      count-push cart product is i,
      eq_iff i.cart_id cart,
      eq_iff i.product_id product,
    )
