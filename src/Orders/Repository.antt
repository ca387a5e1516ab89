-- ===== src/Orders/Repository.antt =====
-- src/modules/order/infrastructure/repositories/order-prisma.repository.ts: an order's row read as the
-- entity and written from it. What `serializeAddress` writes is read back as the same text; the
-- columns that a checkout writes are not the fields that `deserializeAddress` reads, so it throws.
use ops_marketplace_server.Base.{map, Option, none, some, String, pure, ◌>>=◌, ◌>>◌}
use ops_marketplace_server.Ids.{Date}
use ops_marketplace_server.Order.{Order, OrderItem}
use ops_marketplace_server.Database.{
  Client, Query, OrderRow, OrderItemRow, StoredAddress, address_unreadable, record_missing, query,
  write, transaction, or_throw,
}

-- `deserializeAddress`.
abbrev pub deserialize_address : StoredAddress → Option String
deserialize_address (StoredAddress.of_columns a) = none
deserialize_address (StoredAddress.of_entity text) = some text

abbrev pub item_of_row : OrderItemRow → OrderItem
item_of_row i = record {
  shop_id = i.shop_id;
  product_id = i.product_id;
  product_name = i.product_name;
  quantity = i.quantity;
  retail_price = i.price;
  wholesale_price = none;
}

abbrev pub row_of_item : OrderItem → OrderItemRow
row_of_item i = record {
  shop_id = i.shop_id;
  product_id = i.product_id;
  product_name = i.product_name;
  quantity = i.quantity;
  price = i.retail_price;
}

-- `mapToDomain` with the address read: the subtotal, the fee and the total are all the row's total.
unfoldable pub entity_of : OrderRow → String → Order
entity_of r address = record {
  id = r.id;
  buyer_id = r.buyer_id;
  seller_id = r.seller_id;
  order_type = r.order_type;
  items = map item_of_row r.items;
  subtotal = r.total_price;
  shipping_fee = r.total_price;
  grand_total = r.total_price;
  shipping_address = address;
  payment_method = r.payment_method;
  payment_status = r.payment_status;
  order_status = r.status;
  created_at = r.created_at;
  updated_at = r.updated_at;
  payment_intent_id = r.payment_intent_id;
  shipped_at = r.shipped_at;
  delivered_at = r.delivered_at;
  cancelled_at = r.cancelled_at;
  notes = r.notes;
}

-- The columns and the items that `save` writes over a row; it does not write the three dates.
unfoldable pub row_from : Date → Order → OrderRow → OrderRow
row_from now o r = record r {
  buyer_id = o.buyer_id;
  seller_id = o.seller_id;
  order_type = o.order_type;
  status = o.order_status;
  total_price = o.grand_total;
  shipping_address = StoredAddress.of_entity o.shipping_address;
  payment_method = o.payment_method;
  payment_intent_id = o.payment_intent_id;
  payment_status = o.payment_status;
  notes = o.notes;
  updated_at = now;
  items = map row_of_item o.items;
}

-- The row of an order that is created.
abbrev pub new_row : Date → Order → OrderRow
new_row now o = record {
  id = o.id;
  buyer_id = o.buyer_id;
  seller_id = o.seller_id;
  order_type = o.order_type;
  status = o.order_status;
  total_price = o.grand_total;
  shipping_address = StoredAddress.of_entity o.shipping_address;
  payment_method = o.payment_method;
  payment_intent_id = o.payment_intent_id;
  payment_status = o.payment_status;
  notes = o.notes;
  shipped_at = none;
  delivered_at = none;
  cancelled_at = none;
  created_at = now;
  updated_at = now;
  items = map row_of_item o.items;
}

module _ (C : Client) where
  unfoldable pub map_to_domain : OrderRow → Query C Order
  map_to_domain r = do
    address ← or_throw C address_unreadable (deserialize_address r.shipping_address)
    pure (entity_of r address)

  abbrev pub map_found : Option OrderRow → Query C (Option Order)
  map_found none = pure none
  map_found (some r) = do o ← map_to_domain r; pure (some o)

  unfoldable pub find_by_id : String → Query C (Option Order)
  find_by_id id = do found ← query C (λ t. t.orders id); map_found found

  -- The transaction of `save`: the row is written and read again.
  abbrev pub update_row : Date → Order → OrderRow → Query C OrderRow
  update_row now o r = transaction C (λ before. do
    write C (C.put_order o.id (row_from now o r))
    updated ← query C (λ t. t.orders o.id)
    or_throw C record_missing updated)

  abbrev pub save_found : Date → Order → Option OrderRow → Query C Order
  save_found now o none = do
    write C (C.put_order o.id (new_row now o))
    map_to_domain (new_row now o)
  save_found now o (some r) = do updated ← update_row now o r; map_to_domain updated

  unfoldable pub save : Date → Order → Query C Order
  save now o = do existing ← query C (λ t. t.orders o.id); save_found now o existing
