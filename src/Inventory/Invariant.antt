-- ===== src/Inventory/Invariant.antt =====
-- The invariant of the stock of a product, over the methods of Inventory.ts.
use ops_marketplace_server.Base.{ℤ, ◌≤ℤ◌, List, [], ◌∷◌, All, Option, some, arith, int_laws}
use ops_marketplace_server.Ids.{InventoryId, ProductId, Date}
use ops_marketplace_server.Quantity
use ops_marketplace_server.Quantity.{Quantity}
use ops_marketplace_server.Inventory.{
  Inventory, create, restock, outbound, reserve, unreserve, update_min_threshold, clear_events,
}
use ops_marketplace_server.Inventory.History.{
  Call, restocking, outgoing, reserving, unreserving, threshold, clearing, apply, run, IsWellFormed,
}

-- Both quantities are within a quantity's bounds, and no more is reserved than is in stock.
pub record IsValid (i : Inventory) : Type 0 where
  pub quantity_valid : Quantity.IsValid i.quantity
  pub reserved_valid : Quantity.IsValid i.reserved
  pub covered : i.reserved.value ≤ℤ i.quantity.value

restock-IsValid :
    (q : Quantity) (t : Date) (i : Inventory)
    → Quantity.IsValid q
    → IsValid i
    → IsValid (restock q t i).1
unfolding restock
restock-IsValid q t i hq h = grind int_laws

pub reserve-IsValid :
    (q : Quantity) (t : Date) (i : Inventory)
    → Quantity.IsValid q
    → IsValid i
    → IsValid (reserve q t i).1
unfolding reserve
reserve-IsValid q t i hq h = grind int_laws

unreserve-IsValid :
    (q : Quantity) (t : Date) (i : Inventory)
    → Quantity.IsValid q
    → IsValid i
    → IsValid (unreserve q t i).1
unfolding unreserve
unreserve-IsValid q t i hq h = grind int_laws

outbound-IsValid :
    (q : Quantity) (t : Date) (i : Inventory)
    → Quantity.IsValid q
    → IsValid i
    → IsValid (outbound q t i).1
unfolding outbound
outbound-IsValid q t i hq h = grind int_laws

update_min_threshold-IsValid :
    (n : ℤ) (t : Date) (i : Inventory) → IsValid i → IsValid (update_min_threshold n t i).1
unfolding update_min_threshold
update_min_threshold-IsValid n t i h = ground arith

clear_events-IsValid : (i : Inventory) → IsValid i → IsValid (clear_events i).1
unfolding clear_events
clear_events-IsValid i h = ground arith

-- Every method keeps the invariant, whether it returns or throws.
pub apply-IsValid : (c : Call) (i : Inventory) → IsWellFormed c → IsValid i → IsValid (apply c i).1
unfolding apply
apply-IsValid (restocking q t) i w h = restock-IsValid q t i w h
apply-IsValid (outgoing q t) i w h = outbound-IsValid q t i w h
apply-IsValid (reserving q t) i w h = reserve-IsValid q t i w h
apply-IsValid (unreserving q t) i w h = unreserve-IsValid q t i w h
apply-IsValid (threshold n t) i w h = update_min_threshold-IsValid n t i h
apply-IsValid clearing i w h = clear_events-IsValid i h

run-IsValid_from :
    (cs : List Call) (i : Inventory) → All IsWellFormed cs → IsValid i → IsValid (run cs i)
unfolding run
run-IsValid_from [] i w h = h
run-IsValid_from (c ∷ cs) i w h = run-IsValid_from cs (apply c i).1 w.1 (apply-IsValid c i w.0 h)

pub create-IsValid :
    (id : InventoryId) (product_id : ProductId) (n : Option ℤ) (q : Quantity) (now : Date)
    → Quantity.IsValid q
    → IsValid (create id product_id n (some q) now)
unfolding create
create-IsValid id product_id n q now h = ground arith

-- A new inventory whose initial quantity is within bounds, driven by any sequence of method calls
-- with quantities within bounds, of which each may throw, has quantities within 0 and 1,000,000,000
-- and never reserves more than it has.
pub run-IsValid :
    (cs : List Call) (id : InventoryId) (product_id : ProductId) (n : Option ℤ) (q : Quantity)
    (now : Date)
    → All IsWellFormed cs
    → Quantity.IsValid q
    → IsValid (run cs (create id product_id n (some q) now))
run-IsValid cs id product_id n q now w h =
    run-IsValid_from cs (create id product_id n (some q) now) w
      (create-IsValid id product_id n q now h)
