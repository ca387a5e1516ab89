-- ===== src/Cart/Tests.antt =====
-- A cart at concrete inputs.
use ops_marketplace_server.Base.{
  IsDistinct, IsAbsent, ap, pos, ◌+ℤ◌, ◌*ℤ◌, ◌≡◌, ◌≢◌, refl, arith, ◌==◌, none, some, List, [], ◌∷◌,
  ok, err,
}
use ops_marketplace_server.Cart.{
  Cart, CartItem, create, find, add_item, remove_item, merge_cart, assign_user,
  update_item_quantity, grow, replace, get_cart_price, get_total_price, wholesale_not_positive,
}
use ops_marketplace_server.Cart.Items.{ids, quantity_in}
use ops_marketplace_server.Cart.Invariant.{IsGood}
use ops_marketplace_server.Cart.History.{
  Call, adding, updating, removing, merging, assigning, apply, run,
}
use ops_marketplace_server.Cart.Lifecycle.{IsValid, run_cart-IsValid}
use ops_marketplace_server.Cart.Quantities.{quantity_in-merge, add_item_keeps_quantity}

abbrev rice : CartItem
rice = record {
  shop_id = "shop";
  product_id = "rice";
  quantity = pos 3;
  retail_price = pos 20;
  wholesale_price = some (pos 15);
}

abbrev tea : CartItem
tea = record {
  shop_id = "shop";
  product_id = "tea";
  quantity = pos 2;
  retail_price = pos 7;
  wholesale_price = none;
}

abbrev empty : Cart
empty = record {
  id = "c";
  user_id = none;
  session_id = some "s";
  items = [];
  created_at = 0;
  updated_at = 0;
}

abbrev cart : Cart
cart = record empty { items = rice ∷ tea ∷ [] }

abbrev other : Cart
other = record empty { items = tea ∷ [] }

create_lem : create "c" none (some "s") 0 0 ≡ ok empty
unfolding create
create_lem = refl

-- The last call throws.
abbrev calls : List Call
calls =
    adding "shop" "rice" (pos 3) (pos 20) none 1
    ∷ merging cart 2
    ∷ updating "tea" (pos 5) 3
    ∷ assigning "u" 4
    ∷ removing "milk" 5
    ∷ []

quantities :
    (quantity_in "rice" (run calls empty).items ≡ pos 6)
    × (quantity_in "tea" (run calls empty).items ≡ pos 5)
unfolding run apply quantity_in ◌+ℤ◌ remove_item assign_user update_item_quantity merge_cart
    add_item grow replace
quantities = (refl, refl)

cart-IsGood : IsGood cart.items
unfolding ids IsDistinct IsAbsent
cart-IsGood = record {
  sound = ((ground arith, ground arith), ((ground arith, ground arith), tt));
  distinct = ((refl, tt), (tt, tt));
}

run_cart-IsValid_example : IsValid (run calls empty)
run_cart-IsValid_example =
    run_cart-IsValid calls "c" none (some "s") 0 0 (tt, (tt, (tt, (refl, (tt, tt))))) create_lem

adds : (add_item "shop" "tea" (pos 4) (pos 7) none 1 cart).0 ≡ ok tt
unfolding add_item grow ◌+ℤ◌
adds = refl

price : get_cart_price cart ≡ pos 59
unfolding get_cart_price get_total_price ◌+ℤ◌ ◌*ℤ◌
price = refl

quantity_in-merge_example :
    ((merge_cart other 1 cart).0 ≡ ok tt)
    × (quantity_in "tea" (merge_cart other 1 cart).1.items
        ≡ quantity_in "tea" cart.items +ℤ quantity_in "tea" other.items)
quantity_in-merge_example =
    quantity_in-merge other cart 1 "tea" cart-IsGood (((ground arith, ground arith), refl), tt)

removes : (remove_item "rice" 1 cart).0 ≡ ok tt
unfolding remove_item
removes = refl

tea_is_not_rice : tea.product_id ≢ rice.product_id
tea_is_not_rice e = let test = ap (λ s. s == rice.product_id) e in ground (arith, test)

finds : find "rice" cart.items ≡ some rice
unfolding find
finds = refl

add_item_keeps_quantity_example :
    ((add_item "shop" "rice" (pos 4) (pos 20) (some (pos 0)) 1 cart).0 ≡ err wholesale_not_positive)
    × (quantity_in "rice" (add_item "shop" "rice" (pos 4) (pos 20) (some (pos 0)) 1 cart).1.items
        ≡ quantity_in "rice" cart.items +ℤ pos 4)
add_item_keeps_quantity_example =
    add_item_keeps_quantity "shop" "rice" (pos 4) (pos 20) (pos 0) 1 cart finds cart-IsGood
      (ground arith) (ground arith) refl
