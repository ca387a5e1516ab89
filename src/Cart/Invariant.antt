-- ===== src/Cart/Invariant.antt =====
-- The invariant of the items of a cart, over the methods of Cart.ts.
use ops_marketplace_server.Base.{
  IsDistinct, IsDistinct-push, eqb_ℤ, not, modify, when, is_some, ℤ, pos, ◌<ℤ◌, ◌+ℤ◌, ◌≡◌, refl,
  sym, subst, arith, Bool, true, false, Option, none, some, List, [], ◌∷◌, All, All-push, String,
  Void, Action, bind_holds, ◌>>◌, ◌∙◌,
}
use ops_marketplace_server.Ids.{Date}
use ops_marketplace_server.Cart.{
  grow, refresh_all, touch, remove_first, on_item, Cart, CartItem, Error, PriceData, find, replace,
  add_or_grow, on_found, add_item, update_item_quantity, remove_item, clear, merge_items,
  merge_cart, assign_user, refresh_item, refresh_items, refresh_prices, change_quantity,
  change_retail_price, change_wholesale_price,
}
use ops_marketplace_server.Cart.Items.{
  ids, find-All, find-none, All-replace, ids-replace, ids-push, All-remove, IsDistinct-remove,
}
use ops_marketplace_server.Cart.History.{
  Call, adding, updating, removing, clearing, merging, assigning, refreshing, apply,
}

-- A line of the cart: some goods, at a price.
abbrev pub IsSound : CartItem → Type 0
IsSound i = (pos 0 <ℤ i.quantity) × (pos 0 <ℤ i.retail_price)

-- The items of a cart: each is sound, and no product has two of them.
pub record IsGood (is : List CartItem) : Type 0 where
  pub sound : All IsSound is
  pub distinct : IsDistinct (ids is)

replace-IsGood :
    (k : String) (j : CartItem) (is : List CartItem)
    → j.product_id ≡ k
    → IsSound j
    → IsGood is
    → IsGood (replace k j is)
replace-IsGood k j is p s g = record {
  sound = All-replace IsSound k j is g.sound s;
  distinct = subst IsDistinct (sym (ids-replace k j is p)) g.distinct;
}

-- What a method of an item keeps: its product, and that it is sound.
IsKeeping : Action CartItem Error Void → Type 0
IsKeeping m = (i : CartItem) → IsSound i → ((m i).1.product_id ≡ i.product_id) × IsSound (m i).1

quantity_kept : (n : ℤ) → IsKeeping (change_quantity n)
unfolding change_quantity IsKeeping
quantity_kept n i s = (ground arith, (ground arith, ground arith))

retail_kept : (n : ℤ) → IsKeeping (change_retail_price n)
unfolding change_retail_price IsKeeping
retail_kept n i s = (ground arith, (ground arith, ground arith))

wholesale_kept : (w : Option ℤ) → IsKeeping (change_wholesale_price w)
unfolding change_wholesale_price IsKeeping
wholesale_kept none i s = (refl, s)
wholesale_kept (some n) i s = (ground arith, (ground arith, ground arith))

when_kept : (b : Bool) (m : Action CartItem Error Void) → IsKeeping m → IsKeeping (when b m)
unfolding IsKeeping
when_kept true m k i s = k i s
when_kept false m k i s = (refl, s)

seq_kept : (m k : Action CartItem Error Void) → IsKeeping m → IsKeeping k → IsKeeping (m >> k)
unfolding IsKeeping
seq_kept m k hm hk i s =
    let (p, s') = hm i s in
    let (p', s'') = hk (m i).1 s' in
    bind_holds (λ j. (j.product_id ≡ i.product_id) × IsSound j) m (λ _. k) i (p, s')
      (λ _. (p' ∙ p, s''))

on_item-IsGood :
    (i : CartItem) (m : Action CartItem Error Void) (c : Cart)
    → IsKeeping m
    → IsSound i
    → IsGood c.items
    → IsGood (on_item i m c).1.items
unfolding IsKeeping
on_item-IsGood i m c k s g =
    let (p, s') = k i s in replace-IsGood i.product_id (m i).1 c.items p s' g

-- The branch of `addItem` on what `find` gives.
add_or_grow-IsGood :
    (o : Option CartItem) (shop_id product_id : String) (n price : ℤ) (w : Option ℤ) (c : Cart)
    → find product_id c.items ≡ o
    → pos 0 <ℤ n
    → pos 0 <ℤ price
    → IsGood c.items
    → IsGood (add_or_grow o shop_id product_id n price w c).1.items
unfolding add_or_grow grow
add_or_grow-IsGood none shop_id product_id n price w c f hn hp g = record {
  sound = All-push IsSound c.items _ g.sound (hn, hp);
  distinct =
      subst IsDistinct (sym (ids-push c.items _))
        (IsDistinct-push (ids c.items) product_id g.distinct (find-none product_id c.items f));
}
add_or_grow-IsGood (some i) shop_id product_id n price w c f hn hp g =
    on_item-IsGood i _ c
      (seq_kept _ _ (quantity_kept (i.quantity +ℤ n)) (when_kept (is_some w) _ (wholesale_kept w)))
      (find-All IsSound product_id c.items g.sound f) g

pub add_item-IsGood :
    (shop_id product_id : String) (n price : ℤ) (w : Option ℤ) (t : Date) (c : Cart)
    → IsGood c.items
    → IsGood (add_item shop_id product_id n price w t c).1.items
unfolding add_item
add_item-IsGood shop_id product_id n price w t c g =
    let lem = add_or_grow-IsGood (find product_id c.items) shop_id product_id n price w c refl in
    ground (arith, lem)

on_found-IsGood :
    (o : Option CartItem) (k : String) (n : ℤ) (c : Cart)
    → find k c.items ≡ o
    → IsGood c.items
    → IsGood (on_found o (change_quantity n) c).1.items
unfolding on_found
on_found-IsGood none k n c f g = g
on_found-IsGood (some i) k n c f g =
    on_item-IsGood i _ c (quantity_kept n) (find-All IsSound k c.items g.sound f) g

update-IsGood :
    (k : String) (n : ℤ) (t : Date) (c : Cart)
    → IsGood c.items
    → IsGood (update_item_quantity k n t c).1.items
unfolding update_item_quantity
update-IsGood k n t c g =
    let lem = on_found-IsGood (find k c.items) k n c refl g in ground (arith, lem)

remove-IsGood :
    (k : String) (t : Date) (c : Cart) → IsGood c.items → IsGood (remove_item k t c).1.items
unfolding remove_item
remove-IsGood k t c g =
    let gone : IsGood (remove_first k c.items) = record {
      sound = All-remove IsSound k c.items g.sound;
      distinct = IsDistinct-remove k c.items g.distinct;
    } in
    ground (arith, gone)

merge_items-IsGood :
    (is : List CartItem) (t : Date) (c : Cart)
    → IsGood c.items
    → IsGood (merge_items is t c).1.items
unfolding merge_items
merge_items-IsGood [] t c g = g
merge_items-IsGood (i ∷ is) t c g =
    bind_holds (λ d. IsGood d.items)
      (add_item i.shop_id i.product_id i.quantity i.retail_price i.wholesale_price t)
      (λ _. merge_items is t) c (add_item-IsGood _ _ _ _ _ t c g)
      (λ _. merge_items-IsGood is t _ (add_item-IsGood _ _ _ _ _ t c g))

-- `mergeCart` throws when an item of the other cart does; the items before it stay.
pub merge-IsGood :
    (other : Cart) (t : Date) (c : Cart) → IsGood c.items → IsGood (merge_cart other t c).1.items
unfolding merge_cart
merge-IsGood other t c g =
    bind_holds (λ d. IsGood d.items) (merge_items other.items t) (λ _. modify (touch t)) c
      (merge_items-IsGood other.items t c g) (λ _. merge_items-IsGood other.items t c g)

refresh_kept : (o : Option PriceData) → IsKeeping (refresh_item o)
unfolding refresh_item IsKeeping
refresh_kept none i s = (refl, s)
refresh_kept (some d) i s =
    let changed = not (eqb_ℤ d.unit_price i.retail_price) in
    let retail = change_retail_price d.unit_price in
    let wholesale = change_wholesale_price d.wholesale_price in
    let given = is_some d.wholesale_price in
    let keep = wholesale_kept d.wholesale_price in
    seq_kept (when changed retail) (when given wholesale >> wholesale)
      (when_kept changed retail (retail_kept d.unit_price))
      (seq_kept (when given wholesale) wholesale (when_kept given wholesale keep) keep) i s

refresh_items_lem :
    (prices : String → Option PriceData) (is : List CartItem)
    → All IsSound is
    → All IsSound (refresh_items prices is).1 × (ids (refresh_items prices is).1 ≡ ids is)
unfolding refresh_items ids IsKeeping
refresh_items_lem prices [] a = (tt, refl)
refresh_items_lem prices (i ∷ is) a =
    let (p, s) = refresh_kept (prices i.product_id) i a.0 in
    let (rest, same) = refresh_items_lem prices is a.1 in ground (arith, p, s, rest, same)

refresh-IsGood :
    (prices : String → Option PriceData) (t : Date) (c : Cart)
    → IsGood c.items
    → IsGood (refresh_prices prices t c).1.items
unfolding refresh_prices
refresh-IsGood prices t c g =
    let (sound, same) = refresh_items_lem prices c.items g.sound in
    bind_holds (λ d. IsGood d.items) (refresh_all prices) (λ _. modify (touch t)) c
      (record { sound = sound; distinct = subst IsDistinct (sym same) g.distinct })
      (λ _. record { sound = sound; distinct = subst IsDistinct (sym same) g.distinct })

pub apply-IsGood : (m : Call) (c : Cart) → IsGood c.items → IsGood (apply m c).1.items
unfolding apply clear IsDistinct ids assign_user
apply-IsGood (adding s p n price w t) c g = add_item-IsGood s p n price w t c g
apply-IsGood (updating k n t) c g = update-IsGood k n t c g
apply-IsGood (removing k t) c g = remove-IsGood k t c g
apply-IsGood (clearing t) c g = record { sound = tt; distinct = tt }
apply-IsGood (merging other t) c g = merge-IsGood other t c g
apply-IsGood (assigning u t) c g = g
apply-IsGood (refreshing prices t) c g = refresh-IsGood prices t c g
