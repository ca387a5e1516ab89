-- ===== src/Cart/Item.antt =====
-- The class CartItem of src/domain/entities/orders/Cart.ts. Prices and quantities are whole numbers.
use ops_marketplace_server.Base.{
  ℤ, pos, ◌*ℤ◌, leb_ℤ, Option, none, some, get_or, String, Action, Void, throw_if, modify, ◌>>◌,
  Bool, false,
}

pub data Error : Type 0 where
  quantity_not_positive unit_price_not_positive wholesale_not_positive : Error
  not_in_cart no_owner : Error

pub record CartItem : Type 0 where
  pub shop_id : String
  pub product_id : String
  pub quantity : ℤ
  pub retail_price : ℤ
  pub wholesale_price : Option ℤ

unfoldable pub get_effective_price : CartItem → ℤ
get_effective_price i = get_or i.wholesale_price i.retail_price

unfoldable pub get_total_price : CartItem → ℤ
get_total_price i = get_or i.wholesale_price i.retail_price *ℤ i.quantity

unfoldable pub change_quantity : ℤ → Action CartItem Error Void
change_quantity n = do
  throw_if (leb_ℤ n (pos 0)) quantity_not_positive
  modify (λ i. record i { quantity = n })

unfoldable pub change_retail_price : ℤ → Action CartItem Error Void
change_retail_price n = do
  throw_if (leb_ℤ n (pos 0)) unit_price_not_positive
  modify (λ i. record i { retail_price = n })

-- A price that is given and not positive.
abbrev pub is_bad_price : Option ℤ → Bool
is_bad_price none = false
is_bad_price (some n) = leb_ℤ n (pos 0)

unfoldable pub change_wholesale_price : Option ℤ → Action CartItem Error Void
change_wholesale_price n = do
  throw_if (is_bad_price n) wholesale_not_positive
  modify (λ i. record i { wholesale_price = n })
