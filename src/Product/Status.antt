-- ===== src/Product/Status.antt =====
-- src/domain/state/ProductState.ts: the statuses of a product and what each class of state allows.
-- The overrides of the discontinued state are clauses of their own.
use ops_marketplace_server.Base.{Bool, true, false, ◌||◌}

pub data ProductStatus : Type 0 where
  draft pending active out_of_stock discontinued : ProductStatus

unfoldable pub equals : ProductStatus → ProductStatus → Bool
equals draft draft = true
equals pending pending = true
equals active active = true
equals out_of_stock out_of_stock = true
equals discontinued discontinued = true
equals _ _ = false

unfoldable pub can_publish : ProductStatus → Bool
unfolding equals
can_publish discontinued = false
can_publish s = equals s draft

unfoldable pub can_confirm : ProductStatus → Bool
unfolding equals
can_confirm discontinued = false
can_confirm s = equals s pending

unfoldable pub can_mark_out_of_stock : ProductStatus → Bool
unfolding equals
can_mark_out_of_stock discontinued = false
can_mark_out_of_stock s = equals s active

unfoldable pub can_mark_in_stock : ProductStatus → Bool
unfolding equals
can_mark_in_stock discontinued = false
can_mark_in_stock s = equals s out_of_stock

unfoldable pub can_unpublish : ProductStatus → Bool
unfolding equals
can_unpublish discontinued = false
can_unpublish s = equals s pending || equals s active
