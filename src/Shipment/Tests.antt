-- ===== src/Shipment/Tests.antt =====
-- A shipment at concrete inputs.
use ops_marketplace_server.Base.{is_blank, ◌≡◌, refl, ◌⊎◌, List, [], ◌∷◌, none, some, ok}
use ops_marketplace_server.Shipment.{
  Shipment, pending, failed, delivered, create, shipment_created, mark_as_picked_up, assign_shipper,
  mark_as_in_transit, mark_as_delivered, mark_as_failed, can_transition_to,
}
use ops_marketplace_server.Shipment.Graph.{◌⟶◌}
use ops_marketplace_server.Shipment.History.{
  Call, assigning, picking_up, departing, delivering, failing, apply, run,
}
use ops_marketplace_server.Shipment.Lifecycle.{apply-⟶, IsKept, IsValid, run-Fits}
use ops_marketplace_server.Shipment.Log.{IsWalk, IsWalk-run}

abbrev parcel : Shipment
parcel = record {
  id = "s-1";
  order_id = "o-1";
  shop_id = "shop";
  shipper_id = none;
  state = pending;
  tracking_number = none;
  pickup_address = "farm";
  delivery_address = "home";
  estimated_delivery_at = none;
  delivered_at = none;
  failed_at = none;
  failure_reason = none;
  created_at = 0;
  updated_at = 0;
  events = shipment_created "s-1" "o-1" "shop" 0 ∷ [];
}

parcel_lem : create "s-1" "o-1" "shop" (some "farm") (some "home") none 0 ≡ ok parcel
unfolding create
parcel_lem = refl

-- The first call and the last throw.
abbrev trip : List Call
trip =
    picking_up 1
    ∷ assigning "truck" none 2
    ∷ picking_up 3
    ∷ departing 4
    ∷ delivering 5
    ∷ failing "lost" 6
    ∷ []

trip_delivers : ((run trip parcel).state ≡ delivered) × ((run trip parcel).delivered_at ≡ some 5)
unfolding run apply mark_as_picked_up assign_shipper mark_as_in_transit mark_as_delivered
    mark_as_failed can_transition_to is_blank
trip_delivers = (refl, refl)

apply-⟶_example :
    ((apply (assigning "truck" none 2) parcel).1.state ≡ pending)
    ⊎ (pending ⟶ (apply (assigning "truck" none 2) parcel).1.state)
apply-⟶_example = apply-⟶ (assigning "truck" none 2) parcel

run-Fits_example :
    IsValid (run trip parcel)
    × IsKept (run trip parcel).shipper_id (run (failing "lost" 9 ∷ []) (run trip parcel)).shipper_id
run-Fits_example =
    run-Fits trip (failing "lost" 9 ∷ []) "s-1" "o-1" "shop" (some "farm") (some "home") none 0
      {s = parcel} parcel_lem

abbrev lost : Shipment
lost = record parcel { state = failed }

IsWalk-run_example : IsWalk (run trip parcel).events (run trip parcel).state
IsWalk-run_example =
    IsWalk-run trip "s-1" "o-1" "shop" (some "farm") (some "home") none 0 {s = parcel} parcel_lem
      (refl, (refl, (refl, (refl, (refl, (refl, tt))))))
