-- ===== src/Cart/Lifecycle.antt =====
-- Carts over any sequence of method calls of Cart.ts: the owner, and the whole invariant.
use ops_marketplace_server.Base.{
  IsDistinct, ℤ, ◌≡◌, arith, ◌&&◌, false, Option, none, some, List, [], ◌∷◌, All, is_empty_text,
  String, ok, bind_holds, modify,
}
use ops_marketplace_server.Ids.{Date}
use ops_marketplace_server.Cart.{
  Cart, CartItem, is_falsy, create, construct, touch, find, add_or_grow, on_found, add_item,
  update_item_quantity, remove_item, clear, merge_items, merge_cart, assign_user, refresh_all,
  refresh_prices, change_quantity,
}
use ops_marketplace_server.Cart.Items.{ids}
use ops_marketplace_server.Cart.Invariant.{IsGood, apply-IsGood}
use ops_marketplace_server.Cart.History.{
  Call, adding, updating, removing, clearing, merging, assigning, refreshing, apply, run,
}

-- The cart has a user or a session.
abbrev pub IsOwned : Cart → Type 0
IsOwned c = is_falsy c.user_id && is_falsy c.session_id ≡ false

-- The items are sound and no product has two, and the cart has an owner.
pub record IsValid (c : Cart) : Type 0 where
  pub owned : IsOwned c
  pub good : IsGood c.items

-- A cart is assigned to a user, who has an id.
abbrev pub IsWellFormed : Call → Type 0
IsWellFormed (assigning user_id t) = is_empty_text user_id ≡ false
IsWellFormed _ = Unit

add_or_grow-IsOwned :
    (o : Option CartItem) (s p : String) (n price : ℤ) (w : Option ℤ) (c : Cart)
    → IsOwned c
    → IsOwned (add_or_grow o s p n price w c).1
unfolding add_or_grow
add_or_grow-IsOwned none s p n price w c h = h
add_or_grow-IsOwned (some i) s p n price w c h = h

add_item-IsOwned :
    (s p : String) (n price : ℤ) (w : Option ℤ) (t : Date) (c : Cart)
    → IsOwned c
    → IsOwned (add_item s p n price w t c).1
unfolding add_item
add_item-IsOwned s p n price w t c h =
    let lem = add_or_grow-IsOwned (find p c.items) s p n price w c h in ground (arith, lem)

merge_items-IsOwned :
    (is : List CartItem) (t : Date) (c : Cart) → IsOwned c → IsOwned (merge_items is t c).1
unfolding merge_items
merge_items-IsOwned [] t c h = h
merge_items-IsOwned (i ∷ is) t c h =
    let lem =
      add_item-IsOwned i.shop_id i.product_id i.quantity i.retail_price i.wholesale_price t c h in
    bind_holds IsOwned
      (add_item i.shop_id i.product_id i.quantity i.retail_price i.wholesale_price t)
      (λ _. merge_items is t) c lem (λ _. merge_items-IsOwned is t _ lem)

on_found-IsOwned :
    (o : Option CartItem) (n : ℤ) (c : Cart)
    → IsOwned c
    → IsOwned (on_found o (change_quantity n) c).1
unfolding on_found
on_found-IsOwned none n c h = h
on_found-IsOwned (some i) n c h = h

apply-IsOwned : (m : Call) (c : Cart) → IsWellFormed m → IsOwned c → IsOwned (apply m c).1
unfolding apply update_item_quantity remove_item clear merge_cart assign_user refresh_prices
apply-IsOwned (adding s p n price w t) c _ h = add_item-IsOwned s p n price w t c h
apply-IsOwned (updating k n t) c _ h =
    let lem = on_found-IsOwned (find k c.items) n c h in ground (arith, lem)
apply-IsOwned (removing k t) c _ h = ground arith
apply-IsOwned (clearing t) c _ h = h
apply-IsOwned (merging other t) c _ h =
    let lem = merge_items-IsOwned other.items t c h in
    bind_holds IsOwned (merge_items other.items t) (λ _. modify (touch t)) c lem (λ _. lem)
apply-IsOwned (assigning u t) c w h = ground arith
apply-IsOwned (refreshing prices t) c _ h =
    bind_holds IsOwned (refresh_all prices) (λ _. modify (touch t)) c h (λ _. h)

pub apply-IsValid : (m : Call) (c : Cart) → IsWellFormed m → IsValid c → IsValid (apply m c).1
apply-IsValid m c w v = record {
  owned = apply-IsOwned m c w v.owned;
  good = apply-IsGood m c v.good;
}

run-IsValid_from :
    (ms : List Call) (c : Cart) → All IsWellFormed ms → IsValid c → IsValid (run ms c)
unfolding run
run-IsValid_from [] c w v = v
run-IsValid_from (m ∷ ms) c w v = run-IsValid_from ms (apply m c).1 w.1 (apply-IsValid m c w.0 v)

-- A created cart, driven by any sequence of method calls of which each may throw, also after it has
-- written an item, and which assign it to users with a non-empty id only: the cart has a user or a
-- session, every item has a positive quantity and retail price, and no product has two items.
pub run_cart-IsValid :
    (ms : List Call) (id : String) (user_id session_id : Option String) (now touched : Date)
    {c : Cart}
    → All IsWellFormed ms
    → create id user_id session_id now touched ≡ ok c
    → IsValid (run ms c)
unfolding create construct ids IsDistinct
run_cart-IsValid ms id user_id session_id now touched {c} w h =
    let empty : IsGood c.items = record { sound = ground arith; distinct = ground arith } in
    run-IsValid_from ms c w (record { owned = ground arith; good = empty })
