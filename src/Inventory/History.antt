-- ===== src/Inventory/History.antt =====
-- A sequence of method calls on one inventory, each of which may throw and be caught.
use ops_marketplace_server.Base.{ℤ, List, [], ◌∷◌, Void, Action}
use ops_marketplace_server.Ids.{Date}
use ops_marketplace_server.Quantity
use ops_marketplace_server.Quantity.{Quantity}
use ops_marketplace_server.Inventory.{
  Inventory, Error, restock, outbound, reserve, unreserve, update_min_threshold, clear_events,
}

pub data Call : Type 0 where
  restocking outgoing reserving unreserving : Quantity → Date → Call
  threshold : ℤ → Date → Call
  clearing : Call

unfoldable pub apply : Call → Action Inventory Error Void
apply (restocking q t) = restock q t
apply (outgoing q t) = outbound q t
apply (reserving q t) = reserve q t
apply (unreserving q t) = unreserve q t
apply (threshold n t) = update_min_threshold n t
apply clearing = clear_events

unfoldable pub run : List Call → Inventory → Inventory
run [] i = i
run (c ∷ cs) i = run cs (apply c i).1

-- The quantity that a call is given is one that its constructor accepts.
abbrev pub IsWellFormed : Call → Type 0
IsWellFormed (restocking q t) = Quantity.IsValid q
IsWellFormed (outgoing q t) = Quantity.IsValid q
IsWellFormed (reserving q t) = Quantity.IsValid q
IsWellFormed (unreserving q t) = Quantity.IsValid q
IsWellFormed (threshold n t) = Unit
IsWellFormed clearing = Unit
