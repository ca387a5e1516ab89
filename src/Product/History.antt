-- ===== src/Product/History.antt =====
-- A sequence of method calls on one product, each of which may throw and be caught;
-- `setting` is the public `setState`, which two use cases call.
use ops_marketplace_server.Base.{Option, List, [], ◌∷◌, String, Action, Void, modify}
use ops_marketplace_server.Ids.{Date}
use ops_marketplace_server.Product.{
  Product, ProductPrice, WholesaleInfo, ProductSeason, Info, Error, update_info, update_pricing,
  update_season, add_certification, remove_certification, publish, confirm_by_admin,
  mark_out_of_stock, mark_in_stock, unpublish, ProductStatus, set_state,
}

pub data Call : Type 0 where
  informing : Info → Date → Call
  pricing : Option ProductPrice → Option (Option WholesaleInfo) → Date → Call
  timing : Option ProductSeason → Date → Call
  certifying uncertifying : String → Date → Call
  setting : ProductStatus → Call
  publishing confirming selling_out restocking unpublishing : Date → Call

unfoldable pub apply : Call → Action Product Error Void
apply (informing i t) = update_info i t
apply (pricing r w t) = update_pricing r w t
apply (timing s t) = update_season s t
apply (certifying c t) = add_certification c t
apply (uncertifying c t) = remove_certification c t
apply (setting s) = modify (set_state s)
apply (publishing t) = publish t
apply (confirming t) = confirm_by_admin t
apply (selling_out t) = mark_out_of_stock t
apply (restocking t) = mark_in_stock t
apply (unpublishing t) = unpublish t

unfoldable pub run : List Call → Product → Product
run [] p = p
run (c ∷ cs) p = run cs (apply c p).1
