-- ===== src/Product/Pricing.antt =====
-- The prices of a product over `updatePricing` of product.ts.
use ops_marketplace_server.Base.{
  ◌<ℤ◌, int_laws, some, ◌≡◌, ◌↔◌, arith, false, get_or, Option, none, some, refl, ◌<ℤ◌, int_laws,
  ok,
}
use ops_marketplace_server.Ids.{Date}
use ops_marketplace_server.Product.{
  Product, ProductPrice, WholesaleInfo, is_overpriced, update_pricing,
}

-- A wholesale price, if there is one, is below the retail price.
abbrev pub IsBelow : Option WholesaleInfo → ProductPrice → Type 0
IsBelow none retail = Unit
IsBelow (some w) retail = w.wholesale_price.amount <ℤ retail.amount

is_overpriced_iff :
    (w : Option WholesaleInfo) (retail : ProductPrice)
    → (is_overpriced w retail ≡ false) ↔ IsBelow w retail
unfolding is_overpriced
is_overpriced_iff none retail = (λ _. tt, λ _. refl)
is_overpriced_iff (some w) retail = (λ h. grind int_laws, λ h. grind int_laws)

-- `updatePricing` writes both prices that it is given, whether it returns or throws; it returns
-- exactly when the wholesale price, if the product then has one, is less than the retail price.
pub update_pricing_iff :
    (r : Option ProductPrice) (w : Option (Option WholesaleInfo)) (t : Date) (p : Product)
    → let p' = (update_pricing r w t p).1 in
      (p'.retail_price ≡ get_or r p.retail_price)
      × (p'.wholesale_info ≡ get_or w p.wholesale_info)
      × (((update_pricing r w t p).0 ≡ ok tt)
          ↔ IsBelow (get_or w p.wholesale_info) (get_or r p.retail_price))
unfolding update_pricing
update_pricing_iff r w t p =
    let below = is_overpriced_iff (get_or w p.wholesale_info) (get_or r p.retail_price) in
    (
      ground arith,
      ground arith,
      (λ h. below.0 (ground arith), λ h. let b = below.1 h in ground (arith, b)),
    )
