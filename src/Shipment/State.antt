-- ===== src/Shipment/State.antt =====
-- src/domain/state/ShipmentState.ts: the states of a shipment and the table of their transitions.
use ops_marketplace_server.Base.{Bool, true, false, ◌||◌, List, [], ◌∷◌}

pub data ShipmentStatus : Type 0 where
  pending assigned picked_up in_transit delivered failed returned : ShipmentStatus

unfoldable pub equals : ShipmentStatus → ShipmentStatus → Bool
equals pending pending = true
equals assigned assigned = true
equals picked_up picked_up = true
equals in_transit in_transit = true
equals delivered delivered = true
equals failed failed = true
equals returned returned = true
equals _ _ = false

-- `includes`.
abbrev pub includes : List ShipmentStatus → ShipmentStatus → Bool
unfolding equals
includes [] s = false
includes (x ∷ xs) s = equals x s || includes xs s

unfoldable pub transitions : ShipmentStatus → List ShipmentStatus
transitions pending = assigned ∷ failed ∷ []
transitions assigned = picked_up ∷ failed ∷ []
transitions picked_up = in_transit ∷ failed ∷ []
transitions in_transit = delivered ∷ failed ∷ []
transitions delivered = returned ∷ []
transitions failed = []
transitions returned = []

unfoldable pub can_transition_to : ShipmentStatus → ShipmentStatus → Bool
unfolding transitions equals
can_transition_to s t = includes (transitions s) t

unfoldable pub is_terminal : ShipmentStatus → Bool
unfolding equals
is_terminal s = equals s delivered || equals s failed || equals s returned

unfoldable pub can_be_cancelled : ShipmentStatus → Bool
unfolding equals
can_be_cancelled s = equals s pending || equals s assigned
