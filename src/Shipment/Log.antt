-- ===== src/Shipment/Log.antt =====
-- The event log of Shipment.ts as a specification of its way through the diagram.
use ops_marketplace_server.Base.{
  ◌≡◌, refl, ap, subst, none, some, arith, List, [], ◌∷◌, push, length, length-push, All, Option,
  Bool, true, false, ok, ◌+◌, ◌≤◌, ◌⊎◌, inl, inr,
}
use ops_marketplace_server.Shipment.{
  Shipment, Event, shipment_created, shipper_assigned, shipment_picked_up, shipment_in_transit,
  shipment_returned, shipment_delivered, shipment_failed, ShipmentStatus, pending, assigned,
  picked_up, in_transit, delivered, failed, returned, create, new_shipment, assign_shipper,
  mark_as_picked_up, mark_as_in_transit, mark_as_delivered, mark_as_failed, mark_as_returned,
  update_tracking_number, update_estimated_delivery_at, Address, is_terminal,
}
use ops_marketplace_server.Ids.{ShipmentId, OrderId, ShopId, Date}
use ops_marketplace_server.Shipment.Graph.{
  ◌⟶◌, assign, pick_up, set_off, deliver, give_back, fail, rank, rank-⟶,
}
use ops_marketplace_server.Shipment.History.{
  Call, assigning, picking_up, departing, delivering, returning, failing, tracking, estimating,
  clearing, apply, run,
}

-- The state that an event announces.
abbrev pub announced : Event → ShipmentStatus
announced (shipment_created id order_id shop_id t) = pending
announced (shipper_assigned id order_id t shipper_id n) = assigned
announced (shipment_picked_up id order_id t) = picked_up
announced (shipment_in_transit id order_id t) = in_transit
announced (shipment_returned id order_id t) = returned
announced (shipment_delivered id order_id d t) = delivered
announced (shipment_failed id order_id reason t) = failed

-- The events announce a walk along the diagram from pending to a state.
pub data IsWalk : List Event → ShipmentStatus → Type 0 where
  start : (e : Event) → announced e ≡ pending → IsWalk (e ∷ []) pending
  move :
      {es fs : List Event} {s t : ShipmentStatus} (e : Event)
      → IsWalk es s
      → s ⟶ t
      → announced e ≡ t
      → fs ≡ push es e
      → IsWalk fs t

abbrev pub keeps_log : Call → Bool
keeps_log clearing = false
keeps_log _ = true

-- The event that a call records if it moves the shipment.
abbrev event_of : Call → Shipment → Event
event_of (assigning shipper_id n t) s = shipper_assigned s.id s.order_id t shipper_id n
event_of (picking_up t) s = shipment_picked_up s.id s.order_id t
event_of (departing t) s = shipment_in_transit s.id s.order_id t
event_of (delivering t) s = shipment_delivered s.id s.order_id t t
event_of (returning t) s = shipment_returned s.id s.order_id t
event_of (failing reason t) s = shipment_failed s.id s.order_id reason t
event_of (tracking n t) s = shipment_created s.id s.order_id s.shop_id t
event_of (estimating d t) s = shipment_created s.id s.order_id s.shop_id t
event_of clearing s = shipment_created s.id s.order_id s.shop_id 0

-- A call announces an event when it moves the shipment, and else records nothing.
abbrev Announces : Event → Shipment → Shipment → Type 0
Announces e s s' =
    ((s'.state ≡ s.state) × (s'.events ≡ s.events))
    ⊎ ((s.state ⟶ announced e) × (s'.state ≡ announced e) × (s'.events ≡ push s.events e))

ruleset edges = (assign, pick_up, set_off, deliver, give_back, fail)

apply-Announces :
    (c : Call) (s : Shipment) → keeps_log c ≡ true → Announces (event_of c s) s (apply c s).1
unfolding apply assign_shipper mark_as_picked_up mark_as_in_transit mark_as_delivered mark_as_failed
    mark_as_returned update_tracking_number update_estimated_delivery_at is_terminal
apply-Announces (tracking n t) s k = inl (ground arith, ground arith)
apply-Announces (estimating n t) s k = inl (ground arith, ground arith)
apply-Announces clearing s k = cc
apply-Announces _ s k = grind (arith, edges)

IsWalk-apply :
    (c : Call) (s : Shipment)
    → keeps_log c ≡ true
    → IsWalk s.events s.state
    → IsWalk (apply c s).1.events (apply c s).1.state
IsWalk-apply c s k w = elim (apply-Announces c s k) [
  | inl same ↦ rw (same.0, same.1) w
  | inr moved ↦ rw moved.1 (move (event_of c s) w moved.0 refl moved.2)
]

IsWalk-run_from :
    (cs : List Call) (s : Shipment)
    → All (λ c. keeps_log c ≡ true) cs
    → IsWalk s.events s.state
    → IsWalk (run cs s).events (run cs s).state
unfolding run
IsWalk-run_from [] s k w = w
IsWalk-run_from (c ∷ cs) s k w = IsWalk-run_from cs (apply c s).1 k.1 (IsWalk-apply c s k.0 w)

IsWalk-create :
    (id : ShipmentId) (order_id : OrderId) (shop_id : ShopId) (pickup delivery : Option Address)
    (estimated : Option Date) (now : Date) {s : Shipment}
    → create id order_id shop_id pickup delivery estimated now ≡ ok s
    → IsWalk s.events s.state
unfolding create
IsWalk-create id order_id shop_id none delivery estimated now h = cc
IsWalk-create id order_id shop_id (some p) none estimated now h = cc
IsWalk-create id order_id shop_id (some p) (some d) estimated now {s} h =
    let same : new_shipment id order_id shop_id p d estimated now ≡ s = cc in
    subst (λ s. IsWalk s.events s.state) same
      (start (shipment_created id order_id shop_id now) refl)

-- After any sequence of method calls on a new shipment that does not clear the events, and of which
-- each may throw, the recorded events announce a walk along the diagram that begins at pending and
-- ends at the state of the shipment.
pub IsWalk-run :
    (cs : List Call) (id : ShipmentId) (order_id : OrderId) (shop_id : ShopId)
    (pickup delivery : Option Address) (estimated : Option Date) (now : Date) {s : Shipment}
    → create id order_id shop_id pickup delivery estimated now ≡ ok s
    → All (λ c. keeps_log c ≡ true) cs
    → IsWalk (run cs s).events (run cs s).state
IsWalk-run cs id order_id shop_id pickup delivery estimated now h k =
    IsWalk-run_from cs _ k (IsWalk-create id order_id shop_id pickup delivery estimated now h)

-- A walk is as long as the rank of its end allows: it has six events at most.
length-IsWalk : {es : List Event} {s : ShipmentStatus} → IsWalk es s → length es ≤ rank s + 1
length-IsWalk (start e h) = omega arith
length-IsWalk (move {es = es} e w edge a refl_fs) =
    omega (arith, length-IsWalk w, rank-⟶ edge, length-push es e, ap length refl_fs)

rank_le : (s : ShipmentStatus) → rank s ≤ 5
rank_le s = ground arith

-- After any sequence of method calls on a new shipment that does not clear the events, however long
-- it is, at most six events are recorded.
pub length-events-run :
    (cs : List Call) (id : ShipmentId) (order_id : OrderId) (shop_id : ShopId)
    (pickup delivery : Option Address) (estimated : Option Date) (now : Date) {s : Shipment}
    → create id order_id shop_id pickup delivery estimated now ≡ ok s
    → All (λ c. keeps_log c ≡ true) cs
    → length (run cs s).events ≤ 6
length-events-run cs id order_id shop_id pickup delivery estimated now {s} h k = omega (
  arith,
  length-IsWalk (IsWalk-run cs id order_id shop_id pickup delivery estimated now h k),
  rank_le (run cs s).state,
)
