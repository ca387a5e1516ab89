-- ===== src/Cart/Quantities.antt =====
-- How much of each product a cart of Cart.ts holds, and what it costs.
use ops_marketplace_server.Base.{
  subst, ℤ, pos, ◌+ℤ◌, ◌<ℤ◌, leb_ℤ, ◌≡◌, ◌≢◌, refl, sym, arith, int_laws, eq_iff, ◌==◌,
  if◌then◌else◌, true, false, Option, none, some, List, [], ◌∷◌, All, String, ok, err,
}
use ops_marketplace_server.Ids.{Date}
use ops_marketplace_server.Cart.{
  grow, Cart, CartItem, is_bad_price, get_total_price, find, replace, remove_first, add_or_grow,
  add_item, remove_item, merge_items, merge_cart, total_price_of, total_quantity_of, reduce_from,
  get_cart_price, get_total_quantity, change_quantity, change_wholesale_price,
  wholesale_not_positive,
}
use ops_marketplace_server.Cart.Items.{
  find-id, find-All, quantity_in, quantity_in-push, quantity_in-replace, quantity_in-absent,
  quantity_in-remove, remove-IsAbsent,
}
use ops_marketplace_server.Cart.Invariant.{add_item-IsGood, IsSound, IsGood}

-- What `q` of a product adds to the quantity of the product `key`.
abbrev pub share : String → String → ℤ → ℤ
share product_id key q = if product_id == key then q else pos 0

grow_lem :
    (i : CartItem) (q : ℤ) (w : Option ℤ)
    → (grow i q w i).0 ≡ ok tt
    → ((grow i q w i).1.product_id ≡ i.product_id) × ((grow i q w i).1.quantity ≡ i.quantity +ℤ q)
unfolding grow change_quantity change_wholesale_price
grow_lem i q none h = (ground arith, ground arith)
grow_lem i q (some w) h = (ground arith, ground arith)

add_or_grow_quantity :
    (o : Option CartItem) (s p : String) (q price : ℤ) (w : Option ℤ) (c : Cart) (key : String)
    → find p c.items ≡ o
    → (add_or_grow o s p q price w c).0 ≡ ok tt
    → quantity_in key (add_or_grow o s p q price w c).1.items
      ≡ quantity_in key c.items +ℤ share p key q
unfolding add_or_grow
add_or_grow_quantity none s p q price w c key f h = quantity_in-push key c.items _
add_or_grow_quantity (some i) s p q price w c key f h =
    let (same, more) = grow_lem i q w h in
    let found = find-id p c.items f in
    subst
      (λ k.
        quantity_in key (replace i.product_id (grow i q w i).1 c.items)
        ≡ quantity_in key c.items +ℤ share k key q)
      found
      (quantity_in-replace key i.product_id c.items (grow i q w i).1 q
        (subst (λ k. find k c.items ≡ some i) (sym found) f) same more)

-- A call of `addItem` that returns adds the quantity to that of its product, and leaves the quantity
-- of every other product.
pub quantity_in-add :
    (s p : String) (q price : ℤ) (w : Option ℤ) (t : Date) (c : Cart) (key : String)
    → (add_item s p q price w t c).0 ≡ ok tt
    → quantity_in key (add_item s p q price w t c).1.items
      ≡ quantity_in key c.items +ℤ share p key q
unfolding add_item
quantity_in-add s p q price w t c key h =
    let lem = add_or_grow_quantity (find p c.items) s p q price w c key refl in ground (arith, lem)

-- The two sums do not depend on the order in which `reduce` adds them.
reduce_price :
    (sum : ℤ) (is : List CartItem) → reduce_from get_total_price sum is ≡ sum +ℤ total_price_of is
unfolding reduce_from total_price_of
reduce_price sum [] = grind int_laws
reduce_price sum (i ∷ is) = grind (int_laws, reduce_price (sum +ℤ get_total_price i) is)

reduce_quantity :
    (sum : ℤ) (is : List CartItem)
    → reduce_from (λ i. i.quantity) sum is ≡ sum +ℤ total_quantity_of is
unfolding reduce_from total_quantity_of
reduce_quantity sum [] = grind int_laws
reduce_quantity sum (i ∷ is) = grind (int_laws, reduce_quantity (sum +ℤ i.quantity) is)

-- The folds of `getTotalPrice` and `getTotalQuantity` give the sums over the items.
pub get_cart_price_lem :
    (c : Cart)
    → (get_cart_price c ≡ total_price_of c.items)
      × (get_total_quantity c ≡ total_quantity_of c.items)
unfolding get_cart_price get_total_quantity
get_cart_price_lem c = (
  grind (int_laws, reduce_price (pos 0) c.items),
  grind (int_laws, reduce_quantity (pos 0) c.items),
)

-- An item that another cart may bring in: it is sound, and a wholesale price of it is positive.
abbrev pub IsMergeable : CartItem → Type 0
IsMergeable i = IsSound i × (is_bad_price i.wholesale_price ≡ false)

grow_ok :
    (i : CartItem) (q : ℤ) (w : Option ℤ)
    → IsSound i
    → pos 0 <ℤ q
    → is_bad_price w ≡ false
    → (grow i q w i).0 ≡ ok tt
unfolding grow change_quantity change_wholesale_price
grow_ok i q none s hq hw = grind int_laws
grow_ok i q (some w) s hq hw = grind int_laws

add_or_grow_ok :
    (o : Option CartItem) (s p : String) (q price : ℤ) (w : Option ℤ) (c : Cart)
    → find p c.items ≡ o
    → IsGood c.items
    → pos 0 <ℤ q
    → is_bad_price w ≡ false
    → (add_or_grow o s p q price w c).0 ≡ ok tt
unfolding add_or_grow
add_or_grow_ok none s p q price w c f g hq hw = refl
add_or_grow_ok (some i) s p q price w c f g hq hw =
    grow_ok i q w (find-All IsSound p c.items g.sound f) hq hw

add_item_ok :
    (i : CartItem) (t : Date) (c : Cart)
    → IsGood c.items
    → IsMergeable i
    → (add_item i.shop_id i.product_id i.quantity i.retail_price i.wholesale_price t c).0 ≡ ok tt
unfolding add_item
add_item_ok i t c g m =
    let lem =
      add_or_grow_ok (find i.product_id c.items) i.shop_id i.product_id i.quantity i.retail_price
        i.wholesale_price c refl g m.0.0 m.1 in
    ground (arith, lem)

merge_items_quantity :
    (is : List CartItem) (t : Date) (c : Cart) (key : String)
    → IsGood c.items
    → All IsMergeable is
    → ((merge_items is t c).0 ≡ ok tt)
      × (quantity_in key (merge_items is t c).1.items
          ≡ quantity_in key c.items +ℤ quantity_in key is)
unfolding merge_items quantity_in
merge_items_quantity [] t c key g m = (refl, grind int_laws)
merge_items_quantity (i ∷ is) t c key g m =
    let add = add_item i.shop_id i.product_id i.quantity i.retail_price i.wholesale_price t c in
    let returned = add_item_ok i t c g m.0 in
    let more =
      quantity_in-add i.shop_id i.product_id i.quantity i.retail_price i.wholesale_price t c key
        returned in
    let good =
      add_item-IsGood i.shop_id i.product_id i.quantity i.retail_price i.wholesale_price t c g in
    let rest = merge_items_quantity is t add.1 key good m.1 in
    (ground (arith, returned, rest.0), grind (int_laws, returned, more, rest.1))

-- Merging another cart, whose items are sound and have no wholesale price or a positive one, into a
-- cart of sound and distinct items returns, and the quantity of each product is then the sum of the
-- quantities that the two carts held.
pub quantity_in-merge :
    (other c : Cart) (t : Date) (key : String)
    → IsGood c.items
    → All IsMergeable other.items
    → ((merge_cart other t c).0 ≡ ok tt)
      × (quantity_in key (merge_cart other t c).1.items
          ≡ quantity_in key c.items +ℤ quantity_in key other.items)
unfolding merge_cart
quantity_in-merge other c t key g m =
    let (returned, sum) = merge_items_quantity other.items t c key g m in
    (ground (arith, returned), ground (arith, returned, sum))

-- On a cart of sound and distinct items, a call of `removeItem` that returns leaves none of its
-- product, and leaves the quantity of any other product.
pub quantity_in-remove_item :
    (k key : String) (t : Date) (c : Cart)
    → IsGood c.items
    → key ≢ k
    → (remove_item k t c).0 ≡ ok tt
    → (quantity_in k (remove_item k t c).1.items ≡ pos 0)
      × (quantity_in key (remove_item k t c).1.items ≡ quantity_in key c.items)
unfolding remove_item
quantity_in-remove_item k key t c g n h =
    let gone =
      quantity_in-absent k (remove_first k c.items) (remove-IsAbsent k c.items g.distinct) in
    let kept = λ (f : key == k ≡ false). quantity_in-remove key k c.items f in
    (ground (arith, gone), ground (arith, eq_iff key k, kept))

grow_rejected :
    (i : CartItem) (q w : ℤ)
    → IsSound i
    → pos 0 <ℤ q
    → leb_ℤ w (pos 0) ≡ true
    → grow i q (some w) i ≡ (err wholesale_not_positive, record i { quantity = i.quantity +ℤ q })
unfolding grow change_quantity change_wholesale_price
grow_rejected i q w s hq hw = grind int_laws

add_rejected :
    (o : Option CartItem) (s p : String) (q price w : ℤ) (c : Cart) {i : CartItem}
    → o ≡ some i
    → find p c.items ≡ some i
    → IsGood c.items
    → pos 0 <ℤ q
    → leb_ℤ w (pos 0) ≡ true
    → ((add_or_grow o s p q price (some w) c).0 ≡ err wholesale_not_positive)
      × (quantity_in p (add_or_grow o s p q price (some w) c).1.items ≡ quantity_in p c.items +ℤ q)
unfolding add_or_grow
add_rejected none s p q price w c e f g hq hw = ground arith
add_rejected (some j) s p q price w c {i} e f g hq hw =
    let sound = find-All IsSound p c.items g.sound f in
    let same = find-id p c.items f in
    let more =
      quantity_in-replace p p c.items {i = i} (record i { quantity = i.quantity +ℤ q }) q f same
        refl in
    grind (arith, grow_rejected i q w sound hq hw, more, same, eq_iff p p)

-- On a cart of sound and distinct items, `addItem` with a positive quantity and unit price and a
-- wholesale price that is not positive, for a product that is in the cart, throws after it has
-- added the quantity to that of the product.
pub add_item_keeps_quantity :
    (s p : String) (q price w : ℤ) (t : Date) (c : Cart) {i : CartItem}
    → find p c.items ≡ some i
    → IsGood c.items
    → pos 0 <ℤ q
    → pos 0 <ℤ price
    → leb_ℤ w (pos 0) ≡ true
    → ((add_item s p q price (some w) t c).0 ≡ err wholesale_not_positive)
      × (quantity_in p (add_item s p q price (some w) t c).1.items ≡ quantity_in p c.items +ℤ q)
unfolding add_item
add_item_keeps_quantity s p q price w t c {i} f g hq hp hw =
    let lem = add_rejected (find p c.items) s p q price w c {i = i} f f g hq hw in
    ground (arith, lem)
