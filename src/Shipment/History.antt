-- ===== src/Shipment/History.antt =====
-- A sequence of method calls on one shipment, each of which may throw and be caught.
use ops_marketplace_server.Base.{Option, List, [], ◌∷◌, String, Action, Void}
use ops_marketplace_server.Ids.{ShipperId, Date}
use ops_marketplace_server.Shipment.{
  Shipment, Error, assign_shipper, mark_as_picked_up, mark_as_in_transit, mark_as_delivered,
  mark_as_failed, mark_as_returned, update_tracking_number, update_estimated_delivery_at,
  clear_events,
}

pub data Call : Type 0 where
  assigning : ShipperId → Option String → Date → Call
  picking_up departing delivering returning : Date → Call
  failing : String → Date → Call
  tracking : String → Date → Call
  estimating : Date → Date → Call
  clearing : Call

unfoldable pub apply : Call → Action Shipment Error Void
apply (assigning shipper_id n t) = assign_shipper shipper_id n t
apply (picking_up t) = mark_as_picked_up t
apply (departing t) = mark_as_in_transit t
apply (delivering t) = mark_as_delivered t
apply (returning t) = mark_as_returned t
apply (failing reason t) = mark_as_failed reason t
apply (tracking n t) = update_tracking_number n t
apply (estimating d t) = update_estimated_delivery_at d t
apply clearing = clear_events

unfoldable pub run : List Call → Shipment → Shipment
run [] s = s
run (c ∷ cs) s = run cs (apply c s).1
