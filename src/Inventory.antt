-- ===== src/Inventory.antt =====
-- src/domain/entities/products/Inventory.ts and src/domain/events/InventoryEvents.ts: the stock of a
-- product. A method is a call on the inventory; `timestamp` is always given (its default is the
-- clock's value at the call).
mod History
mod Invariant
mod Accounting
mod Replay
mod Tests
use ops_marketplace_server.Base.{
  Bool, ℤ, pos, ◌-ℤ◌, ltb_ℤ, leb_ℤ, min_ℤ, if◌then◌else◌, get_or, Option, List, [], push, String,
  ◌==◌, Result, Action, Void, self, pure, throw_if, gets, modify, lift, map_err, ◌>>=◌, ◌>>◌,
}
use ops_marketplace_server.Ids.{InventoryId, ProductId, Date}
use ops_marketplace_server.Quantity
use ops_marketplace_server.Quantity.{Quantity}

pub data Event : Type 0 where
  stock_restocked stock_reserved stock_unreserved stock_reduced :
      InventoryId → ProductId → Quantity → Quantity → Date → Event
  min_threshold_changed : InventoryId → ProductId → ℤ → ℤ → Date → Event

pub data Error : Type 0 where
  restock_not_positive outbound_not_positive reserve_not_positive unreserve_not_positive : Error
  not_enough_available not_enough_to_reserve more_than_reserved : ℤ → ℤ → Error
  of_quantity : Quantity.Error → Error

pub record Inventory : Type 0 where
  pub id : InventoryId
  pub product_id : ProductId
  pub quantity : Quantity
  pub reserved : Quantity
  pub min_threshold : ℤ
  pub last_restocked_at : Date
  pub updated_at : Date
  pub events : List Event

abbrev pub default_threshold : ℤ
default_threshold = pos 10

unfoldable pub create : InventoryId → ProductId → Option ℤ → Option Quantity → Date → Inventory
create id product_id min_threshold initial_quantity now = record {
  id = id;
  product_id = product_id;
  quantity = get_or initial_quantity Quantity.zero_quantity;
  reserved = Quantity.zero_quantity;
  min_threshold = get_or min_threshold default_threshold;
  last_restocked_at = now;
  updated_at = now;
  events = [];
}

unfoldable pub get_available_quantity : Inventory → ℤ
get_available_quantity i = i.quantity.value -ℤ i.reserved.value

abbrev pub touch : Date → Inventory → Inventory
touch timestamp i = record i { updated_at = timestamp }

abbrev pub add_event : Event → Inventory → Inventory
add_event e i = record i { events = push i.events e }

unfoldable pub restock : Quantity → Date → Action Inventory Error Void
unfolding Quantity.add
restock q timestamp = do
  throw_if (leb_ℤ q.value (pos 0)) restock_not_positive
  i ← self
  total ← lift (map_err of_quantity (Quantity.add i.quantity q))
  modify (λ s. record s { quantity = total; last_restocked_at = timestamp })
  modify (touch timestamp)
  modify (add_event (stock_restocked i.id i.product_id q total timestamp))

-- `reserveToReduce`: the reserved quantity falls first if it can.
unfoldable pub reduce_reserved : Quantity → Action Inventory Error Void
unfolding Quantity.subtract Quantity.from_number
reduce_reserved q = do
  i ← self
  let reserve_to_reduce = min_ℤ i.reserved.value q.value
  if ltb_ℤ (pos 0) reserve_to_reduce
      then (do
        cut ← lift (map_err of_quantity (Quantity.from_number reserve_to_reduce))
        rest ← lift (map_err of_quantity (Quantity.subtract i.reserved cut))
        modify (λ s. record s { reserved = rest }))
      else pure tt

unfoldable pub outbound : Quantity → Date → Action Inventory Error Void
unfolding Quantity.subtract reduce_reserved get_available_quantity
outbound q timestamp = do
  throw_if (leb_ℤ q.value (pos 0)) outbound_not_positive
  i ← self
  let available = get_available_quantity i
  throw_if (ltb_ℤ available q.value) (not_enough_available available q.value)
  total ← lift (map_err of_quantity (Quantity.subtract i.quantity q))
  modify (λ s. record s { quantity = total })
  reduce_reserved q
  modify (touch timestamp)
  modify (add_event (stock_reduced i.id i.product_id q total timestamp))

unfoldable pub reserve : Quantity → Date → Action Inventory Error Void
unfolding Quantity.add get_available_quantity
reserve q timestamp = do
  throw_if (leb_ℤ q.value (pos 0)) reserve_not_positive
  i ← self
  let available = get_available_quantity i
  throw_if (ltb_ℤ available q.value) (not_enough_to_reserve available q.value)
  held ← lift (map_err of_quantity (Quantity.add i.reserved q))
  modify (λ s. record s { reserved = held })
  modify (touch timestamp)
  modify (add_event (stock_reserved i.id i.product_id q held timestamp))

unfoldable pub unreserve : Quantity → Date → Action Inventory Error Void
unfolding Quantity.subtract
unreserve q timestamp = do
  throw_if (leb_ℤ q.value (pos 0)) unreserve_not_positive
  i ← self
  throw_if (ltb_ℤ i.reserved.value q.value) (more_than_reserved i.reserved.value q.value)
  held ← lift (map_err of_quantity (Quantity.subtract i.reserved q))
  modify (λ s. record s { reserved = held })
  modify (touch timestamp)
  modify (add_event (stock_unreserved i.id i.product_id q held timestamp))

unfoldable pub update_min_threshold : ℤ → Date → Action Inventory Error Void
update_min_threshold threshold timestamp = do
  i ← self
  modify (λ s. record s { min_threshold = threshold })
  modify (touch timestamp)
  modify (add_event (min_threshold_changed i.id i.product_id i.min_threshold threshold timestamp))

unfoldable pub clear_events : Action Inventory Error Void
clear_events = modify (λ s. record s { events = [] })

unfoldable pub equals : Inventory → Inventory → Bool
equals a b = a.id == b.id
