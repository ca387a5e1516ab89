-- ===== src/Carts/Reads.antt =====
-- The calls of the carts service that only read keep whatever holds of the state.
use ops_marketplace_server.Base.{
  ℕ, pos, ltb_ℤ, is_empty_text, Bool, true, false, Option, String, throw_if, pure, ◌>>=◌,
}
use ops_marketplace_server.Database.{
  Client, CartRow, InventoryRow, Error, find_active_cart, items_of_cart, not_enough_stock,
  product_missing, cart_missing, user_required, query, or_throw,
}
use ops_marketplace_server.Ledger.Keeps.{
  Always, Always-bind, Always-read, Always-or_throw, Always-throw_if,
}
use ops_marketplace_server.Carts.{
  available_stock, if_active, find_active, get_product_by_id, assert_available_stock, show,
}

module _ (C : Client) (P : C.State → Type 0) where
  pub Always-test : (b : Bool) (e : Error) → Always C P (throw_if b e)
  Always-test true e u p = p
  Always-test false e u p = p

  pub Always-product : (product : String) → Always C P (get_product_by_id C product)
  unfolding get_product_by_id
  Always-product product =
      Always-read C P (λ t. if_active (t.goods.products product)) (or_throw C product_missing)
        (Always-or_throw C P product_missing)

  pub Always-stock : (product : String) (n : ℕ) → Always C P (assert_available_stock C product n)
  unfolding assert_available_stock
  Always-stock product n =
      let test = λ (row : Option InventoryRow).
        throw_if (ltb_ℤ (available_stock row) (pos n)) not_enough_stock in
      Always-bind C P (get_product_by_id C product)
        (λ _. query C (λ t. t.goods.inventories product) >>= test) (Always-product product)
        (λ _.
          Always-read C P (λ t. t.goods.inventories product) test
            (λ row. Always-test (ltb_ℤ (available_stock row) (pos n)) not_enough_stock))

  pub Always-active : (user : String) → Always C P (find_active C user)
  unfolding find_active
  Always-active user = Always-throw_if C P (is_empty_text user) user_required _ (
      Always-read C P (λ t. find_active_cart user t.goods.carts) (or_throw C cart_missing)
        (Always-or_throw C P cart_missing))

  pub Always-show : (cart : CartRow) → Always C P (show C cart)
  unfolding show
  Always-show cart =
      Always-read C P (λ t. items_of_cart cart.id t.goods.cart_items)
        (λ items. pure (record { cart = cart; items = items })) (λ _ s p. p)
