-- ===== src/Cart/History.antt =====
-- A sequence of method calls on one cart, each of which may throw and be caught.
use ops_marketplace_server.Base.{ℤ, Option, List, [], ◌∷◌, String, Action, Void}
use ops_marketplace_server.Ids.{Date}
use ops_marketplace_server.Cart.{
  Cart, Error, PriceData, add_item, update_item_quantity, remove_item, clear, merge_cart,
  assign_user, refresh_prices,
}

pub data Call : Type 0 where
  adding : String → String → ℤ → ℤ → Option ℤ → Date → Call
  updating : String → ℤ → Date → Call
  removing : String → Date → Call
  clearing : Date → Call
  merging : Cart → Date → Call
  assigning : String → Date → Call
  refreshing : (String → Option PriceData) → Date → Call

unfoldable pub apply : Call → Action Cart Error Void
apply (adding shop_id product_id n price wholesale t) =
    add_item shop_id product_id n price wholesale t
apply (updating product_id n t) = update_item_quantity product_id n t
apply (removing product_id t) = remove_item product_id t
apply (clearing t) = clear t
apply (merging other t) = merge_cart other t
apply (assigning user_id t) = assign_user user_id t
apply (refreshing prices t) = refresh_prices prices t

unfoldable pub run : List Call → Cart → Cart
run [] c = c
run (m ∷ ms) c = run ms (apply m c).1
