-- ===== src/Cart.antt =====
-- The class Cart of src/domain/entities/orders/Cart.ts. The items of a cart are its own objects: a
-- method that changes an item writes it back in its place, also when it throws halfway.
mod Item
mod Items
mod History
mod Invariant
mod Quantities
mod Lifecycle
mod Tests
unfoldable pub use Item.*
use ops_marketplace_server.Base.{
  ℤ, pos, ◌+ℤ◌, leb_ℤ, eqb_ℤ, Bool, true, false, ◌&&◌, ◌||◌, not, if◌then◌else◌, is_empty, is_some,
  is_empty_text, Option, none, some, List, [], ◌∷◌, push, String, ◌==◌, Result, ok, err, Action,
  Void, self, pure, throw, throw_if, when, modify, ◌>>=◌, ◌>>◌,
}
use ops_marketplace_server.Ids.{Date}

pub record Cart : Type 0 where
  pub id : String
  pub user_id : Option String
  pub session_id : Option String
  pub items : List CartItem
  pub created_at : Date
  pub updated_at : Date

-- An id that is `null` or empty is falsy.
abbrev pub is_falsy : Option String → Bool
is_falsy none = true
is_falsy (some t) = is_empty_text t

-- The constructor, as `create` and `reconstitute` call it.
unfoldable pub construct : Cart → Result Error Cart
construct c = if is_falsy c.user_id && is_falsy c.session_id then err no_owner else ok c

unfoldable pub create : String → Option String → Option String → Date → Date → Result Error Cart
unfolding construct
create id user_id session_id now touched = construct (record {
  id = id;
  user_id = user_id;
  session_id = session_id;
  items = [];
  created_at = now;
  updated_at = touched;
})

abbrev pub touch : Date → Cart → Cart
touch now c = record c { updated_at = now }

-- `_items.find((item) => item.productId === productId)`.
unfoldable pub find : String → List CartItem → Option CartItem
find product_id [] = none
find product_id (i ∷ is) = if i.product_id == product_id then some i else find product_id is

-- The first item of a product, written back.
unfoldable pub replace : String → CartItem → List CartItem → List CartItem
replace product_id j [] = []
replace product_id j (i ∷ is) =
    if i.product_id == product_id then j ∷ is else i ∷ replace product_id j is

-- `_items.splice(index, 1)` at the first item of a product.
unfoldable pub remove_first : String → List CartItem → List CartItem
remove_first product_id [] = []
remove_first product_id (i ∷ is) =
    if i.product_id == product_id then is else i ∷ remove_first product_id is

-- A method call on an item of the cart.
abbrev pub on_item : CartItem → Action CartItem Error Void → Action Cart Error Void
on_item i m c = let (r, j) = m i in (r, record c { items = replace i.product_id j c.items })

unfoldable pub total_price_of : List CartItem → ℤ
unfolding get_total_price
total_price_of [] = pos 0
total_price_of (i ∷ is) = get_total_price i +ℤ total_price_of is

unfoldable pub total_quantity_of : List CartItem → ℤ
total_quantity_of [] = pos 0
total_quantity_of (i ∷ is) = i.quantity +ℤ total_quantity_of is

-- The two sums, which `reduce` adds from the left.
unfoldable pub reduce_from : (CartItem → ℤ) → ℤ → List CartItem → ℤ
reduce_from f sum [] = sum
reduce_from f sum (i ∷ is) = reduce_from f (sum +ℤ f i) is

unfoldable pub get_cart_price : Cart → ℤ
unfolding reduce_from
get_cart_price c = reduce_from get_total_price (pos 0) c.items

unfoldable pub get_total_quantity : Cart → ℤ
unfolding reduce_from
get_total_quantity c = reduce_from (λ i. i.quantity) (pos 0) c.items

-- More of the product, at the wholesale price when one is given.
unfoldable pub grow : CartItem → ℤ → Option ℤ → Action CartItem Error Void
unfolding change_quantity change_wholesale_price
grow existing quantity wholesale_price = do
  change_quantity (existing.quantity +ℤ quantity)
  when (is_some wholesale_price) (change_wholesale_price wholesale_price)

-- The branch of `addItem`: the product is in the cart already, or a new item is pushed.
add_or_grow : Option CartItem → String → String → ℤ → ℤ → Option ℤ → Action Cart Error Void
add_or_grow none shop_id product_id quantity unit_price wholesale_price = modify (λ c. record c {
  items = push c.items (record {
    shop_id = shop_id;
    product_id = product_id;
    quantity = quantity;
    retail_price = unit_price;
    wholesale_price = wholesale_price;
  });
})
add_or_grow (some existing) shop_id product_id quantity unit_price wholesale_price =
    on_item existing (grow existing quantity wholesale_price)

unfoldable pub add_item : String → String → ℤ → ℤ → Option ℤ → Date → Action Cart Error Void
unfolding find add_or_grow
add_item shop_id product_id quantity unit_price wholesale_price now = do
  throw_if (leb_ℤ quantity (pos 0)) quantity_not_positive
  throw_if (leb_ℤ unit_price (pos 0)) unit_price_not_positive
  c ← self
  add_or_grow (find product_id c.items) shop_id product_id quantity unit_price wholesale_price
  modify (touch now)

-- The call on an item that `find` gives, or the error of a product that is not there.
on_found : Option CartItem → Action CartItem Error Void → Action Cart Error Void
on_found none m = throw not_in_cart
on_found (some i) m = on_item i m

unfoldable pub update_item_quantity : String → ℤ → Date → Action Cart Error Void
unfolding find on_found change_quantity
update_item_quantity product_id n now = do
  throw_if (leb_ℤ n (pos 0)) quantity_not_positive
  c ← self
  on_found (find product_id c.items) (change_quantity n)
  modify (touch now)

unfoldable pub remove_item : String → Date → Action Cart Error Void
unfolding find remove_first
remove_item product_id now = do
  c ← self
  throw_if (not (is_some (find product_id c.items))) not_in_cart
  modify (λ c. record c { items = remove_first product_id c.items })
  modify (touch now)

unfoldable pub clear : Date → Action Cart Error Void
clear now = do modify (λ c. record c { items = [] }); modify (touch now)

-- The loop of `mergeCart`; every `addItem` and the end of the call read the clock at `now`.
unfoldable pub merge_items : List CartItem → Date → Action Cart Error Void
merge_items [] now = pure tt
merge_items (i ∷ is) now = do
  add_item i.shop_id i.product_id i.quantity i.retail_price i.wholesale_price now
  merge_items is now

unfoldable pub merge_cart : Cart → Date → Action Cart Error Void
unfolding merge_items
merge_cart other now = do merge_items other.items now; modify (touch now)

unfoldable pub assign_user : String → Date → Action Cart Error Void
assign_user user_id now = do
  modify (λ c. record c { user_id = some user_id })
  modify (λ c. record c { session_id = none })
  modify (touch now)

pub record PriceData : Type 0 where
  pub unit_price : ℤ
  pub wholesale_price : Option ℤ

-- The body of the loop of `refreshPrices`, on one item.
unfoldable pub refresh_item : Option PriceData → Action CartItem Error Void
unfolding change_retail_price change_wholesale_price
refresh_item none = pure tt
refresh_item (some d) = do
  i ← self
  when (not (eqb_ℤ d.unit_price i.retail_price)) (change_retail_price d.unit_price)
  when (is_some d.wholesale_price) (change_wholesale_price d.wholesale_price)
  change_wholesale_price d.wholesale_price

-- The loop: the items up to one that throws are written.
unfoldable pub refresh_items :
    (String → Option PriceData) → List CartItem → Result Error Void × List CartItem
unfolding refresh_item
refresh_items prices [] = (ok tt, [])
refresh_items prices (i ∷ is) =
    let (r, j) = refresh_item (prices i.product_id) i in
    let rest = refresh_items prices is in
    elim r [ err e ↦ (err e, j ∷ is) | ok a ↦ (rest.0, j ∷ rest.1) ]

-- The loop, on the items of the cart.
abbrev pub refresh_all : (String → Option PriceData) → Action Cart Error Void
refresh_all prices c = let (r, is) = refresh_items prices c.items in (r, record c { items = is })

unfoldable pub refresh_prices : (String → Option PriceData) → Date → Action Cart Error Void
unfolding refresh_items
refresh_prices prices now = do refresh_all prices; modify (touch now)
