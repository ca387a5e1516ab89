-- ===== src/Product.antt =====
-- The class Product of src/domain/entities/products/product.ts. A method takes the time that
-- `_touch` reads as an argument.
mod Status
mod Values
mod History
mod Certifications
mod Pricing
mod Lifecycle
mod Tests
unfoldable pub use Status.*
unfoldable pub use Values.*
use ops_marketplace_server.Base.{
  leb_ℤ, Bool, true, false, not, ◌&&◌, if◌then◌else◌, get_or, is_some, Option, none, some, List, [],
  ◌∷◌, String, ok, err, Action, Void, self, pure, throw_if, when, modify, ◌>>=◌, ◌>>◌,
}
use ops_marketplace_server.Ids.{ProductId, Date}

pub data ProductCategory : Type 0 where
  fruits vegetables grains dairy meat seafood beverages other : ProductCategory

pub data ProductUnit : Type 0 where
  kg gram ton liter ml piece dozen lot box bunch : ProductUnit

-- A state refuses a move, and a pricing is refused.
pub data Error : Type 0 where
  cannot_publish cannot_confirm cannot_mark_out_of_stock : ProductStatus → Error
  cannot_mark_in_stock cannot_unpublish : ProductStatus → Error
  wholesale_not_below_retail : Error

pub record Product : Type 0 where
  pub id : ProductId
  pub seller_id : String
  pub shop_id : String
  pub category : ProductCategory
  pub name : String
  pub unit : ProductUnit
  pub description : String
  pub retail_price : ProductPrice
  pub wholesale_info : Option WholesaleInfo
  pub origin : String
  pub season : Option ProductSeason
  pub certifications : List String
  pub created_at : Date
  pub updated_at : Date
  pub state : ProductStatus

pub record Props : Type 0 where
  pub id : ProductId
  pub seller_id : String
  pub shop_id : String
  pub category : ProductCategory
  pub unit : ProductUnit
  pub name : String
  pub description : String
  pub retail_price : ProductPrice
  pub wholesale_info : Option WholesaleInfo
  pub origin : String
  pub season : Option ProductSeason
  pub certifications : List String

-- `now` is `createdAt`, or the clock when none is given.
unfoldable pub create : Props → Date → Product
unfolding create_certifications
create props now = record {
  id = props.id;
  seller_id = props.seller_id;
  shop_id = props.shop_id;
  category = props.category;
  name = props.name;
  unit = props.unit;
  description = props.description;
  retail_price = props.retail_price;
  wholesale_info = props.wholesale_info;
  origin = props.origin;
  season = props.season;
  certifications = create_certifications props.certifications;
  created_at = now;
  updated_at = now;
  state = draft;
}

abbrev pub touch : Date → Product → Product
touch now p = record p { updated_at = now }

-- What `updateInfo` may change; a field that is `undefined` is `none`.
pub record Info : Type 0 where
  pub name : Option String
  pub description : Option String
  pub category : Option ProductCategory
  pub unit : Option ProductUnit
  pub origin : Option String

unfoldable pub update_info : Info → Date → Action Product Error Void
update_info input now = do
  modify (λ p. record p { name = get_or input.name p.name })
  modify (λ p. record p { description = get_or input.description p.description })
  modify (λ p. record p { category = get_or input.category p.category })
  modify (λ p. record p { unit = get_or input.unit p.unit })
  modify (λ p. record p { origin = get_or input.origin p.origin })
  modify (touch now)

-- The wholesale price is not below the retail price.
unfoldable pub is_overpriced : Option WholesaleInfo → ProductPrice → Bool
is_overpriced none retail = false
is_overpriced (some w) retail = leb_ℤ retail.amount w.wholesale_price.amount

-- A wholesale information that is `undefined` is `none`, and one that is `null` is `some none`.
unfoldable pub update_pricing :
    Option ProductPrice → Option (Option WholesaleInfo) → Date → Action Product Error Void
unfolding is_overpriced
update_pricing retail_price wholesale_info now = do
  modify (λ p. record p { retail_price = get_or retail_price p.retail_price })
  modify (λ p. record p { wholesale_info = get_or wholesale_info p.wholesale_info })
  p ← self
  throw_if (is_overpriced p.wholesale_info p.retail_price) wholesale_not_below_retail
  modify (touch now)

unfoldable pub update_season : Option ProductSeason → Date → Action Product Error Void
update_season season now = do modify (λ p. record p { season = season }); modify (touch now)

unfoldable pub add_certification : String → Date → Action Product Error Void
unfolding add_to
add_certification cert now = do
  modify (λ p. record p { certifications = add_to cert p.certifications })
  modify (touch now)

unfoldable pub remove_certification : String → Date → Action Product Error Void
unfolding remove_from
remove_certification cert now = do
  modify (λ p. record p { certifications = remove_from cert p.certifications })
  modify (touch now)

-- `setState` on behalf of the state object.
abbrev pub set_state : ProductStatus → Product → Product
set_state s p = record p { state = s }

-- The five moves: the method of the state object, then that of the product.
unfoldable pub state_publish : ProductStatus → Action Product Error Void
unfolding can_publish
state_publish s = do throw_if (not (can_publish s)) (cannot_publish s); modify (set_state pending)

unfoldable pub publish : Date → Action Product Error Void
unfolding state_publish
publish now = do p ← self; state_publish p.state; modify (touch now)

unfoldable pub state_confirm : ProductStatus → Action Product Error Void
unfolding can_confirm
state_confirm s = do throw_if (not (can_confirm s)) (cannot_confirm s); modify (set_state active)

unfoldable pub confirm_by_admin : Date → Action Product Error Void
unfolding state_confirm
confirm_by_admin now = do p ← self; state_confirm p.state; modify (touch now)

unfoldable pub state_mark_out_of_stock : ProductStatus → Action Product Error Void
unfolding can_mark_out_of_stock
state_mark_out_of_stock s = do
  throw_if (not (can_mark_out_of_stock s)) (cannot_mark_out_of_stock s)
  modify (set_state out_of_stock)

unfoldable pub mark_out_of_stock : Date → Action Product Error Void
unfolding state_mark_out_of_stock
mark_out_of_stock now = do p ← self; state_mark_out_of_stock p.state; modify (touch now)

unfoldable pub state_mark_in_stock : ProductStatus → Action Product Error Void
unfolding can_mark_in_stock
state_mark_in_stock s = do
  throw_if (not (can_mark_in_stock s)) (cannot_mark_in_stock s)
  modify (set_state active)

unfoldable pub mark_in_stock : Date → Action Product Error Void
unfolding state_mark_in_stock
mark_in_stock now = do p ← self; state_mark_in_stock p.state; modify (touch now)

unfoldable pub state_unpublish : ProductStatus → Action Product Error Void
unfolding can_unpublish
state_unpublish s = do
  throw_if (not (can_unpublish s)) (cannot_unpublish s)
  modify (set_state draft)

unfoldable pub unpublish : Date → Action Product Error Void
unfolding state_unpublish
unpublish now = do p ← self; state_unpublish p.state; modify (touch now)

unfoldable pub has_wholesale : Product → Bool
has_wholesale p = is_some p.wholesale_info

unfoldable pub is_product_in_season : Date → Product → Bool
unfolding is_in_season
is_product_in_season date p = elim p.season [ none ↦ false | some s ↦ is_in_season date s ]
