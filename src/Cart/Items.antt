-- ===== src/Cart/Items.antt =====
-- The list of the items of a cart of src/domain/entities/orders/Cart.ts: what finding, replacing and
-- removing an item does to the products it names, to its items and to the quantity of a product.
use ops_marketplace_server.Base.{
  IsAbsent, IsDistinct, ℤ, pos, ◌+ℤ◌, ◌≡◌, refl, arith, int_laws, eq_iff, ◌==◌, false,
  if◌then◌else◌, none, some, List, [], ◌∷◌, push, All, String,
}
use ops_marketplace_server.Cart.{CartItem, find, replace, remove_first}

-- The products that the items name.
unfoldable pub ids : List CartItem → List String
ids [] = []
ids (i ∷ is) = i.product_id ∷ ids is

-- The quantity of a product, over all items that name it.
unfoldable pub quantity_in : String → List CartItem → ℤ
quantity_in key [] = pos 0
quantity_in key (i ∷ is) =
    if i.product_id == key then i.quantity +ℤ quantity_in key is else quantity_in key is

pub find-id :
    (k : String) (is : List CartItem) {i : CartItem} → find k is ≡ some i → i.product_id ≡ k
unfolding find
find-id k [] h = ground arith
find-id k (j ∷ is) {i} h =
    let rest = find-id k is {i = i} in ground (arith, eq_iff j.product_id k, rest)

pub find-All :
    (P : CartItem → Type 0) (k : String) (is : List CartItem) {i : CartItem}
    → All P is
    → find k is ≡ some i
    → P i
unfolding find
find-All P k [] a h = ground arith
find-All P k (j ∷ is) {i} a h = let rest = find-All P k is {i = i} a.1 in ground (arith, rest)

pub find-none : (k : String) (is : List CartItem) → find k is ≡ none → IsAbsent k (ids is)
unfolding find ids IsAbsent
find-none k [] h = tt
find-none k (j ∷ is) h = ground (arith, find-none k is)

pub All-replace :
    (P : CartItem → Type 0) (k : String) (j : CartItem) (is : List CartItem)
    → All P is
    → P j
    → All P (replace k j is)
unfolding replace
All-replace P k j [] a p = tt
All-replace P k j (i ∷ is) a p = let rest = All-replace P k j is a.1 p in ground (arith, rest)

pub ids-replace :
    (k : String) (j : CartItem) (is : List CartItem)
    → j.product_id ≡ k
    → ids (replace k j is) ≡ ids is
unfolding replace ids
ids-replace k j [] h = refl
ids-replace k j (i ∷ is) h = ground (arith, eq_iff i.product_id k, ids-replace k j is h)

pub ids-push : (is : List CartItem) (j : CartItem) → ids (push is j) ≡ push (ids is) j.product_id
unfolding ids
ids-push [] j = refl
ids-push (i ∷ is) j = ground (arith, ids-push is j)

pub All-remove :
    (P : CartItem → Type 0) (k : String) (is : List CartItem) → All P is → All P (remove_first k is)
unfolding remove_first
All-remove P k [] a = tt
All-remove P k (i ∷ is) a = let rest = All-remove P k is a.1 in ground (arith, rest)

IsAbsent-remove :
    (j k : String) (is : List CartItem) → IsAbsent j (ids is) → IsAbsent j (ids (remove_first k is))
unfolding remove_first ids IsAbsent
IsAbsent-remove j k [] a = tt
IsAbsent-remove j k (i ∷ is) a = ground (arith, IsAbsent-remove j k is a.1)

pub IsDistinct-remove :
    (k : String) (is : List CartItem) → IsDistinct (ids is) → IsDistinct (ids (remove_first k is))
unfolding remove_first ids IsDistinct
IsDistinct-remove k [] d = tt
IsDistinct-remove k (i ∷ is) d =
    ground (arith, IsDistinct-remove k is d.1, IsAbsent-remove i.product_id k is d.0)

pub quantity_in-push :
    (key : String) (is : List CartItem) (j : CartItem)
    → quantity_in key (push is j)
      ≡ quantity_in key is +ℤ (if j.product_id == key then j.quantity else pos 0)
unfolding quantity_in
quantity_in-push key [] j = grind int_laws
quantity_in-push key (i ∷ is) j = grind (int_laws, quantity_in-push key is j)

-- The item of a product, replaced by one of the same product with `q` more.
pub quantity_in-replace :
    (key k : String) (is : List CartItem) {i : CartItem} (j : CartItem) (q : ℤ)
    → find k is ≡ some i
    → j.product_id ≡ k
    → j.quantity ≡ i.quantity +ℤ q
    → quantity_in key (replace k j is) ≡ quantity_in key is +ℤ (if k == key then q else pos 0)
unfolding quantity_in find replace
quantity_in-replace key k [] j q f p h = ground arith
quantity_in-replace key k (x ∷ is) {i} j q f p h =
    let rest = λ (f' : find k is ≡ some i). quantity_in-replace key k is {i = i} j q f' p h in
    grind (
      int_laws,
      eq_iff x.product_id k,
      eq_iff x.product_id key,
      eq_iff k key,
      eq_iff j.product_id key,
      rest,
    )

pub quantity_in-absent :
    (key : String) (is : List CartItem) → IsAbsent key (ids is) → quantity_in key is ≡ pos 0
unfolding quantity_in ids IsAbsent
quantity_in-absent key [] a = refl
quantity_in-absent key (i ∷ is) a = ground (arith, quantity_in-absent key is a.1)

pub remove-IsAbsent :
    (k : String) (is : List CartItem) → IsDistinct (ids is) → IsAbsent k (ids (remove_first k is))
unfolding remove_first ids IsDistinct IsAbsent
remove-IsAbsent k [] d = tt
remove-IsAbsent k (i ∷ is) d = ground (arith, eq_iff i.product_id k, remove-IsAbsent k is d.1)

pub quantity_in-remove :
    (key k : String) (is : List CartItem)
    → key == k ≡ false
    → quantity_in key (remove_first k is) ≡ quantity_in key is
unfolding remove_first quantity_in
quantity_in-remove key k [] h = refl
quantity_in-remove key k (i ∷ is) h = ground (
  arith,
  eq_iff i.product_id k,
  eq_iff i.product_id key,
  eq_iff key k,
  quantity_in-remove key k is h,
)
