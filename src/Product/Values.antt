-- ===== src/Product/Values.antt =====
-- The value objects of a product: ProductPrice.ts, WholesaleInfo.ts, ProductSeason.ts,
-- ProductName.ts, ProductOrigin.ts, ProductDescription.ts, ProductCertification.ts and
-- ProductCertifications.ts of src/domain/value-objects. Prices and quantities are whole numbers.
use ops_marketplace_server.Base.{
  ℕ, ◌+◌, ℤ, pos, negsuc, leb, ltb, leb_ℤ, eqb_ℤ, Bool, false, ◌&&◌, ◌||◌, if◌then◌else◌, List, [],
  ◌∷◌, push, String, ◌==◌, trim, is_empty_text, text_length, Result, ok, err,
}
use ops_marketplace_server.Ids.{Date}

pub data ValueError : Type 0 where
  price_not_positive minimum_not_positive season_not_ordered : ValueError
  name_empty name_too_long origin_empty certification_empty : ValueError

pub record ProductPrice : Type 0 where
  pub amount : ℤ

unfoldable pub price_from_number : ℤ → Result ValueError ProductPrice
price_from_number n = if leb_ℤ n (pos 0) then err price_not_positive else ok (record { amount = n })

pub record WholesaleInfo : Type 0 where
  pub wholesale_price : ProductPrice
  pub min_quantity : ℤ

unfoldable pub create_wholesale : ProductPrice → ℤ → Result ValueError WholesaleInfo
create_wholesale price n =
    if leb_ℤ n (pos 0)
    then err minimum_not_positive
    else ok (record { wholesale_price = price; min_quantity = n })

pub record ProductSeason : Type 0 where
  pub start : Date
  pub end : Date

unfoldable pub create_season : Date → Date → Result ValueError ProductSeason
create_season start end =
    if leb end start then err season_not_ordered else ok (record { start = start; end = end })

unfoldable pub is_in_season : Date → ProductSeason → Bool
is_in_season date s = leb s.start date && leb date s.end

-- Names, origins, descriptions and certifications are their texts.
unfoldable pub create_name : String → Result ValueError String
unfolding trim
create_name value =
    let trimmed = trim value in
    if is_empty_text trimmed
    then err name_empty
    else (if ltb 255 (text_length trimmed) then err name_too_long else ok trimmed)

unfoldable pub create_origin : String → Result ValueError String
unfolding trim
create_origin value =
    let trimmed = trim value in if is_empty_text trimmed then err origin_empty else ok trimmed

unfoldable pub create_description : String → String
create_description value = trim value

unfoldable pub create_certification : String → Result ValueError String
unfolding trim
create_certification value =
    let trimmed = trim value in
    if is_empty_text trimmed then err certification_empty else ok trimmed

-- `self.findIndex((c) => c.equals(cert))` from the index `n`; -1 when there is none.
unfoldable pub find_index : String → ℕ → List String → ℤ
find_index cert n [] = negsuc 0
find_index cert n (c ∷ cs) = if c == cert then pos n else find_index cert (n + 1) cs

-- The filter of `create`: what it keeps of the rest of `self` from the index `n`.
unfoldable pub keep_first : List String → ℕ → List String → List String
unfolding find_index
keep_first self n [] = []
keep_first self n (c ∷ cs) =
    let rest = keep_first self (n + 1) cs in
    if eqb_ℤ (find_index c 0 self) (pos n) then c ∷ rest else rest

unfoldable pub create_certifications : List String → List String
unfolding keep_first
create_certifications items = keep_first items 0 items

-- `items.some((c) => c.equals(cert))`.
unfoldable pub includes : String → List String → Bool
includes cert [] = false
includes cert (c ∷ cs) = c == cert || includes cert cs

unfoldable pub add_to : String → List String → List String
unfolding includes
add_to cert items = if includes cert items then items else push items cert

-- `items.filter((c) => !c.equals(cert))`.
unfoldable pub remove_from : String → List String → List String
remove_from cert [] = []
remove_from cert (c ∷ cs) = let rest = remove_from cert cs in if c == cert then rest else c ∷ rest
