-- ===== src/Product/Tests.antt =====
-- A product at concrete inputs.
use ops_marketplace_server.Base.{
  pos, ◌≡◌, ◌⊎◌, ◌↔◌, refl, true, get_or, none, some, List, [], ◌∷◌, IsDistinct, ok, err,
}
use ops_marketplace_server.Product.{
  Props, ProductPrice, WholesaleInfo, draft, pending, grains, kg, create, find_index, includes,
  update_pricing, create_name, name_empty, create_certifications, keep_first, price_from_number,
  price_not_positive, create_season, season_not_ordered, is_in_season,
}
use ops_marketplace_server.Product.History.{
  setting, Call, certifying, uncertifying, publishing, selling_out, run,
}
use ops_marketplace_server.Product.Certifications.{has_after, run_certified}
use ops_marketplace_server.Product.Pricing.{IsBelow, update_pricing_iff}
use ops_marketplace_server.Product.Lifecycle.{next_all, state-run, run_unconfirmed}

abbrev cheap : WholesaleInfo
cheap = record { wholesale_price = record { amount = pos 15 }; min_quantity = pos 10 }

abbrev props : Props
props = record {
  id = "p";
  seller_id = "u";
  shop_id = "s";
  category = grains;
  unit = kg;
  name = "Rice";
  description = "";
  retail_price = record { amount = pos 20 };
  wholesale_info = some cheap;
  origin = "Valley";
  season = none;
  certifications = "organic" ∷ "fair" ∷ "organic" ∷ [];
}

unique : create_certifications props.certifications ≡ "organic" ∷ "fair" ∷ []
unfolding create_certifications keep_first find_index
unique = refl

blank_name : create_name "  " ≡ err name_empty
unfolding create_name
blank_name = refl

free : price_from_number (pos 0) ≡ err price_not_positive
unfolding price_from_number
free = refl

summer :
    (create_season 5 5 ≡ err season_not_ordered)
    × (is_in_season 5 (record { start = 3; end = 5 }) ≡ true)
unfolding create_season is_in_season
summer = (refl, refl)

-- The third and the fifth call throw.
abbrev calls : List Call
calls =
    publishing 1
    ∷ certifying "local" 2
    ∷ publishing 3
    ∷ uncertifying "fair" 4
    ∷ selling_out 5
    ∷ setting draft
    ∷ []

run_certified_example :
    let p = run calls (create props 0) in
    IsDistinct p.certifications
    × (includes "fair" p.certifications
        ≡ has_after "fair" calls (includes "fair" props.certifications))
run_certified_example = run_certified calls props 0 "fair"

state-run_example : (run calls (create props 0)).state ≡ next_all calls (create props 0).state
state-run_example = state-run calls (create props 0)

run_unconfirmed_example :
    let p = run calls (create props 0) in (p.state ≡ draft) ⊎ (p.state ≡ pending)
run_unconfirmed_example =
    run_unconfirmed calls props 0 (refl, (refl, (refl, (refl, (refl, (refl, tt))))))

-- The retail price is lowered below the wholesale price.
abbrev low : ProductPrice
low = record { amount = pos 10 }

update_pricing_iff_example :
    let p = create props 0 in
    let p' = (update_pricing (some low) none 1 p).1 in
    (p'.retail_price ≡ get_or (some low) p.retail_price)
    × (p'.wholesale_info ≡ get_or none p.wholesale_info)
    × (((update_pricing (some low) none 1 p).0 ≡ ok tt) ↔ IsBelow (some cheap) low)
unfolding create
update_pricing_iff_example = update_pricing_iff (some low) none 1 (create props 0)
