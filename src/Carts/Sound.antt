-- ===== src/Carts/Sound.antt =====
-- The calls on a cart leave the reservations within the stock and the items of a cart of different
-- products, whether they return or throw.
use ops_marketplace_server.Base.{
  if_holds, ℕ, ◌+◌, ℤ, eqb, ◌≡◌, bind_holds, is_empty_text, Option, none, some, String, pure, push,
  ◌>>=◌, ◌>>◌,
}
use ops_marketplace_server.Database.{
  Client, Query, Tables, Goods, CartRow, CartItemRow, ProductRow, find_active_cart, find_cart_of,
  find_cart_item, update_cart_item, delete_cart_item, delete_cart_items, cart_item_missing,
  user_required, query, edit, or_throw,
}
use ops_marketplace_server.Database.Leaves.{Leaves-read, Leaves, Leaves-edit}
use ops_marketplace_server.Ledger.Keeps.{
  Always, Always-bind, Always-read, Always-found, Always-throw_if,
}
use ops_marketplace_server.Carts.{
  CartView, new_cart, insert_cart, create_if_none, find_or_create, find_or_create_cart, find_active,
  get_product_by_id, assert_available_stock, show, get_cart, add_or_grow, add_item, change_item,
  update_item, remove_item, clear_cart,
}
use ops_marketplace_server.Carts.Unique.{
  HasStock, HasUniqueItems, update-HasUniqueItems, delete-HasUniqueItems, clear-HasUniqueItems,
  push-HasUniqueItems,
}
use ops_marketplace_server.Carts.Reads.{Always-product, Always-stock, Always-active, Always-show}

-- No reservation is above its stock, and no cart has two items of one product.
abbrev pub IsSound : Tables → Type 0
IsSound t = HasStock t.goods × HasUniqueItems t.goods.cart_items

module _ (C : Client) where
  abbrev pub Sound : C.State → Type 0
  Sound u = IsSound (C.seen u)

  edit-Sound :
      (f : Goods → Goods)
      → ((u : C.State) → Sound u → IsSound (record (C.seen u) { goods = f (C.seen u).goods }))
      → Always C Sound (edit C f)
  edit-Sound f h = Leaves-edit C IsSound Sound (λ _ p. p) f h

  insert-Sound : (row : CartRow) (o : Option CartRow) → Always C Sound (insert_cart C row o)
  insert-Sound row none = edit-Sound (λ g. record g { carts = push g.carts row }) (λ u p. p)
  insert-Sound row (some old) = λ s p. p

  create_if_none-Sound :
      (new_id user : String) (o : Option CartRow) → Always C Sound (create_if_none C new_id user o)
  create_if_none-Sound new_id user none =
      let insert = λ (o : Option CartRow).
        insert_cart C (new_cart new_id user) o >> pure (new_cart new_id user) in
      Always-read C Sound (λ t. find_cart_of user t.goods.carts) insert
        (λ o.
          Always-bind C Sound (insert_cart C (new_cart new_id user) o)
            (λ _. pure (new_cart new_id user)) (insert-Sound (new_cart new_id user) o) (λ _ s p. p))
  create_if_none-Sound new_id user (some c) = λ s p. p

  find_or_create_cart-Sound :
      (new_id user : String) → Always C Sound (find_or_create_cart C new_id user)
  unfolding find_or_create_cart find_or_create
  find_or_create_cart-Sound new_id user =
      Always-throw_if C Sound (is_empty_text user) user_required (find_or_create C new_id user) (
        Always-read C Sound (λ t. find_active_cart user t.goods.carts)
          (create_if_none C new_id user) (create_if_none-Sound new_id user))

  -- A read item of the cart, and what is done with it.
  item-Sound :
      {A : Type 0} (user product : String) (k : CartRow → CartItemRow → Query C A)
      → ((cart : CartRow) (i : CartItemRow) → Always C Sound (k cart i))
      → Always C Sound (
          find_active C user >>= λ cart.
          query C (λ t. find_cart_item cart.id product t.goods.cart_items) >>= λ found.
          or_throw C cart_item_missing found >>= k cart)
  item-Sound user product k h =
      let found =
        λ (cart : CartRow) (o : Option CartItemRow). or_throw C cart_item_missing o >>= k cart in
      Always-bind C Sound (find_active C user)
        (λ cart. query C (λ t. find_cart_item cart.id product t.goods.cart_items) >>= found cart)
        (Always-active C Sound user)
        (λ cart.
          Always-read C Sound (λ t. find_cart_item cart.id product t.goods.cart_items) (found cart)
            (λ found. Always-found C Sound cart_item_missing found (k cart) (h cart)))

  -- A write, and the cart shown.
  shown-Sound :
      (f : Goods → Goods) (cart : CartRow)
      → Always C Sound (edit C f)
      → Always C Sound (edit C f >> show C cart)
  shown-Sound f cart h =
      Always-bind C Sound (edit C f) (λ _. show C cart) h (λ _. Always-show C Sound cart)

  delete-Sound :
      (id : String)
      → Always C Sound (edit C (λ g. record g { cart_items = delete_cart_item id g.cart_items }))
  delete-Sound id =
      edit-Sound (λ g. record g { cart_items = delete_cart_item id g.cart_items })
        (λ u p. (p.0, delete-HasUniqueItems id (C.seen u).goods.cart_items p.1))

  set-Sound :
      (id : String) (n : ℕ) (price : Option ℤ)
      → Always C Sound
          (edit C (λ g. record g { cart_items = update_cart_item id n price g.cart_items }))
  set-Sound id n price =
      edit-Sound (λ g. record g { cart_items = update_cart_item id n price g.cart_items })
        (λ u p. (p.0, update-HasUniqueItems id n price (C.seen u).goods.cart_items p.1))

  pub get_cart-Sound : (new_id user : String) → Always C Sound (get_cart C new_id user)
  unfolding get_cart
  get_cart-Sound new_id user =
      Always-bind C Sound (find_or_create_cart C new_id user) (show C)
        (find_or_create_cart-Sound new_id user) (Always-show C Sound)

  pub remove_item-Sound : (user product : String) → Always C Sound (remove_item C user product)
  unfolding remove_item
  remove_item-Sound user product =
      let k = λ (cart : CartRow) (i : CartItemRow).
        edit C (λ g. record g { cart_items = delete_cart_item i.id g.cart_items }) >> show C cart in
      item-Sound user product k (λ cart i.
        shown-Sound (λ g. record g { cart_items = delete_cart_item i.id g.cart_items }) cart
          (delete-Sound i.id))

  pub clear_cart-Sound : (user : String) → Always C Sound (clear_cart C user)
  unfolding clear_cart
  clear_cart-Sound user =
      let clear = λ (cart : CartRow).
        edit C (λ g. record g { cart_items = delete_cart_items cart.id g.cart_items })
        >> show C cart in
      Always-bind C Sound (find_active C user) clear (Always-active C Sound user) (λ cart.
        shown-Sound (λ g. record g { cart_items = delete_cart_items cart.id g.cart_items }) cart
          (edit-Sound (λ g. record g { cart_items = delete_cart_items cart.id g.cart_items })
            (λ u p. (p.0, clear-HasUniqueItems cart.id (C.seen u).goods.cart_items p.1))))

  change_item-Sound :
      (cart : CartRow) (product : String) (n : ℕ) (i : CartItemRow)
      → Always C Sound (change_item C cart product n i)
  change_item-Sound cart product n i =
      let delete =
        edit C (λ g. record g { cart_items = delete_cart_item i.id g.cart_items }) >> show C cart in
      let change =
        edit C (λ g. record g { cart_items = update_cart_item i.id n none g.cart_items })
        >> show C cart in
      if_holds {A = Query C CartView} (λ m. Always C Sound m) (eqb n 0) delete
        (assert_available_stock C product n >> change)
        (shown-Sound (λ g. record g { cart_items = delete_cart_item i.id g.cart_items }) cart
          (delete-Sound i.id))
        (Always-bind C Sound (assert_available_stock C product n) (λ _. change)
          (Always-stock C Sound product n)
          (λ _.
            shown-Sound (λ g. record g { cart_items = update_cart_item i.id n none g.cart_items })
              cart (set-Sound i.id n none)))

  pub update_item-Sound :
      (user product : String) (n : ℕ) → Always C Sound (update_item C user product n)
  unfolding update_item
  update_item-Sound user product n =
      item-Sound user product (λ cart i. change_item C cart product n i)
        (λ cart i. change_item-Sound cart product n i)

  -- A new item is of a product that the cart had no item of.
  add_or_grow-Sound :
      (cart : CartRow) (new_item product : String) (n : ℕ) (p : ProductRow) (o : Option CartItemRow)
      → Leaves C IsSound
          (λ u. (find_cart_item cart.id product (C.seen u).goods.cart_items ≡ o) × Sound u)
          (add_or_grow C cart new_item product n p o)
  add_or_grow-Sound cart new_item product n p none =
      Leaves-edit C IsSound
        (λ u. (find_cart_item cart.id product (C.seen u).goods.cart_items ≡ none) × Sound u)
        (λ u q. q.1)
        (λ g. record g {
          cart_items = push g.cart_items (record {
            id = new_item;
            cart_id = cart.id;
            product_id = product;
            quantity = n;
            price = p.retail_price;
          });
        })
        (λ u q. (q.1.0, push-HasUniqueItems _ (C.seen u).goods.cart_items q.0 q.1.1))
  add_or_grow-Sound cart new_item product n p (some i) =
      let id = i.id in
      let total = i.quantity + n in
      let price = some p.retail_price in
      λ s q.
        Always-bind C Sound (assert_available_stock C product (i.quantity + n))
          (λ _.
            edit C (λ g. record g { cart_items = update_cart_item id total price g.cart_items }))
          (Always-stock C Sound product (i.quantity + n))
          (λ _. set-Sound i.id (i.quantity + n) (some p.retail_price)) s q.1

  pub add_item-Sound :
      (new_id new_item user product : String) (n : ℕ)
      → Always C Sound (add_item C new_id new_item user product n)
  unfolding add_item
  add_item-Sound new_id new_item user product n =
      let grow = λ (p : ProductRow) (cart : CartRow) (o : Option CartItemRow).
        add_or_grow C cart new_item product n p o >> show C cart in
      let rest = λ (p : ProductRow) (cart : CartRow).
        query C (λ t. find_cart_item cart.id product t.goods.cart_items) >>= grow p cart in
      let create = λ (p : ProductRow). find_or_create_cart C new_id user >>= rest p in
      Always-bind C Sound (get_product_by_id C product)
        (λ p. assert_available_stock C product n >> create p) (Always-product C Sound product)
        (λ p.
          Always-bind C Sound (assert_available_stock C product n) (λ _. create p)
            (Always-stock C Sound product n)
            (λ _.
              Always-bind C Sound (find_or_create_cart C new_id user) (rest p)
                (find_or_create_cart-Sound new_id user)
                (λ cart.
                  Leaves-read C IsSound Sound (λ u q. q)
                    (λ t. find_cart_item cart.id product t.goods.cart_items) (grow p cart)
                    (λ o s q.
                      bind_holds Sound (add_or_grow C cart new_item product n p o)
                        (λ _. show C cart) s (add_or_grow-Sound cart new_item product n p o s q)
                        (λ _.
                          Always-show C Sound cart _
                            (add_or_grow-Sound cart new_item product n p o s q))))))
