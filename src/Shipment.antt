-- ===== src/Shipment.antt =====
-- src/domain/entities/orders/Shipment.ts and src/domain/events/ShipmentEvents.ts: a shipment and its
-- methods. An address is its text, which no method looks into; `timestamp` is always given.
mod State
mod Graph
mod History
mod Lifecycle
mod Log
mod Tests
unfoldable pub use State.*
use ops_marketplace_server.Base.{
  Bool, not, if◌then◌else◌, Option, none, some, List, [], push, String, ◌==◌, Result, ok, err, trim,
  is_blank, Action, Void, self, pure, throw_if, modify, ◌>>=◌, ◌>>◌,
}
use ops_marketplace_server.Ids.{ShipmentId, OrderId, ShopId, ShipperId, Date}

-- No method looks into an address.
abbrev pub Address : Type 0
Address = String

pub data Event : Type 0 where
  shipment_created : ShipmentId → OrderId → ShopId → Date → Event
  shipper_assigned : ShipmentId → OrderId → Date → ShipperId → Option String → Event
  shipment_picked_up shipment_in_transit shipment_returned : ShipmentId → OrderId → Date → Event
  shipment_delivered : ShipmentId → OrderId → Date → Date → Event
  shipment_failed : ShipmentId → OrderId → String → Date → Event

-- The status that a message names is the one the shipment was in.
pub data Error : Type 0 where
  cannot_assign cannot_pick_up cannot_transit cannot_deliver cannot_fail cannot_return :
      ShipmentStatus → Error
  pickup_required delivery_required reason_required terminal_tracking terminal_estimate : Error

pub record Shipment : Type 0 where
  pub id : ShipmentId
  pub order_id : OrderId
  pub shop_id : ShopId
  pub shipper_id : Option ShipperId
  pub state : ShipmentStatus
  pub tracking_number : Option String
  pub pickup_address : Address
  pub delivery_address : Address
  pub estimated_delivery_at : Option Date
  pub delivered_at : Option Date
  pub failed_at : Option Date
  pub failure_reason : Option String
  pub created_at : Date
  pub updated_at : Date
  pub events : List Event

new_shipment : ShipmentId → OrderId → ShopId → Address → Address → Option Date → Date → Shipment
new_shipment id order_id shop_id pickup delivery estimated now = record {
  id = id;
  order_id = order_id;
  shop_id = shop_id;
  shipper_id = none;
  state = pending;
  tracking_number = none;
  pickup_address = pickup;
  delivery_address = delivery;
  estimated_delivery_at = estimated;
  delivered_at = none;
  failed_at = none;
  failure_reason = none;
  created_at = now;
  updated_at = now;
  events = push [] (shipment_created id order_id shop_id now);
}

-- An address that is missing is `none`.
unfoldable pub create :
    ShipmentId
    → OrderId
    → ShopId
    → Option Address
    → Option Address
    → Option Date
    → Date
    → Result Error Shipment
unfolding new_shipment
create id order_id shop_id none delivery estimated now = err pickup_required
create id order_id shop_id (some p) none estimated now = err delivery_required
create id order_id shop_id (some p) (some d) estimated now =
    ok (new_shipment id order_id shop_id p d estimated now)

abbrev pub touch : Date → Shipment → Shipment
touch timestamp s = record s { updated_at = timestamp }

abbrev pub add_event : Event → Shipment → Shipment
add_event e s = record s { events = push s.events e }

unfoldable pub assign_shipper : ShipperId → Option String → Date → Action Shipment Error Void
unfolding can_transition_to
assign_shipper shipper_id tracking_number timestamp = do
  s ← self
  throw_if (not (can_transition_to s.state assigned)) (cannot_assign s.state)
  modify (λ s. record s { shipper_id = some shipper_id })
  modify (λ s. record s { tracking_number = tracking_number })
  modify (λ s. record s { state = assigned })
  modify (touch timestamp)
  modify (add_event (shipper_assigned s.id s.order_id timestamp shipper_id tracking_number))

unfoldable pub mark_as_picked_up : Date → Action Shipment Error Void
unfolding can_transition_to
mark_as_picked_up timestamp = do
  s ← self
  throw_if (not (can_transition_to s.state picked_up)) (cannot_pick_up s.state)
  modify (λ s. record s { state = picked_up })
  modify (touch timestamp)
  modify (add_event (shipment_picked_up s.id s.order_id timestamp))

unfoldable pub mark_as_in_transit : Date → Action Shipment Error Void
unfolding can_transition_to
mark_as_in_transit timestamp = do
  s ← self
  throw_if (not (can_transition_to s.state in_transit)) (cannot_transit s.state)
  modify (λ s. record s { state = in_transit })
  modify (touch timestamp)
  modify (add_event (shipment_in_transit s.id s.order_id timestamp))

unfoldable pub mark_as_delivered : Date → Action Shipment Error Void
unfolding can_transition_to
mark_as_delivered timestamp = do
  s ← self
  throw_if (not (can_transition_to s.state delivered)) (cannot_deliver s.state)
  modify (λ s. record s { state = delivered })
  modify (λ s. record s { delivered_at = some timestamp })
  modify (touch timestamp)
  modify (add_event (shipment_delivered s.id s.order_id timestamp timestamp))

unfoldable pub mark_as_failed : String → Date → Action Shipment Error Void
unfolding can_transition_to
mark_as_failed reason timestamp = do
  throw_if (is_blank reason) reason_required
  s ← self
  throw_if (not (can_transition_to s.state failed)) (cannot_fail s.state)
  modify (λ s. record s { state = failed })
  modify (λ s. record s { failed_at = some timestamp })
  modify (λ s. record s { failure_reason = some (trim reason) })
  modify (touch timestamp)
  modify (add_event (shipment_failed s.id s.order_id reason timestamp))

unfoldable pub mark_as_returned : Date → Action Shipment Error Void
unfolding can_transition_to
mark_as_returned timestamp = do
  s ← self
  throw_if (not (can_transition_to s.state returned)) (cannot_return s.state)
  modify (λ s. record s { state = returned })
  modify (touch timestamp)
  modify (add_event (shipment_returned s.id s.order_id timestamp))

unfoldable pub update_tracking_number : String → Date → Action Shipment Error Void
unfolding is_terminal
update_tracking_number tracking_number timestamp = do
  s ← self
  throw_if (is_terminal s.state) terminal_tracking
  modify (λ s. record s { tracking_number = some tracking_number })
  modify (touch timestamp)

unfoldable pub update_estimated_delivery_at : Date → Date → Action Shipment Error Void
unfolding is_terminal
update_estimated_delivery_at date timestamp = do
  s ← self
  throw_if (is_terminal s.state) terminal_estimate
  modify (λ s. record s { estimated_delivery_at = some date })
  modify (touch timestamp)

unfoldable pub clear_events : Action Shipment Error Void
clear_events = modify (λ s. record s { events = [] })

unfoldable pub equals_shipment : Shipment → Shipment → Bool
equals_shipment a b = a.id == b.id
