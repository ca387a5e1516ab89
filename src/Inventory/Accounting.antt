-- ===== src/Inventory/Accounting.antt =====
-- The methods of Inventory.ts as moves of the stock: their conditions and their amounts.
use ops_marketplace_server.Base.{
  ℤ, pos, ◌+ℤ◌, ◌≤ℤ◌, ◌<ℤ◌, min_ℤ, ap, pos_part, neg_part, ◌≡◌, ◌↔◌, ok, err, arith, int_laws,
}
use ops_marketplace_server.Ids.{Date}
use ops_marketplace_server.Quantity
use ops_marketplace_server.Quantity.{Quantity}
use ops_marketplace_server.Inventory.{
  Inventory, Error, get_available_quantity, restock, outbound, reserve, unreserve,
  update_min_threshold, clear_events,
}
use ops_marketplace_server.Inventory.History.{
  Call, restocking, outgoing, reserving, unreserving, threshold, clearing, apply, IsWellFormed,
}
use ops_marketplace_server.Inventory.Invariant.{IsValid, reserve-IsValid}

restock_atomic :
    (q : Quantity) (t : Date) (i : Inventory) {e : Error}
    → (restock q t i).0 ≡ err e
    → (restock q t i).1 ≡ i
unfolding restock
restock_atomic q t i h = ground arith

reserve_atomic :
    (q : Quantity) (t : Date) (i : Inventory) {e : Error}
    → (reserve q t i).0 ≡ err e
    → (reserve q t i).1 ≡ i
unfolding reserve
reserve_atomic q t i h = ground arith

unreserve_atomic :
    (q : Quantity) (t : Date) (i : Inventory) {e : Error}
    → (unreserve q t i).0 ≡ err e
    → (unreserve q t i).1 ≡ i
unfolding unreserve
unreserve_atomic q t i h = ground arith

outbound_atomic :
    (q : Quantity) (t : Date) (i : Inventory) {e : Error}
    → Quantity.IsValid q
    → IsValid i
    → (outbound q t i).0 ≡ err e
    → (outbound q t i).1 ≡ i
unfolding outbound
outbound_atomic q t i w v h = grind int_laws

update_min_threshold_atomic :
    (n : ℤ) (t : Date) (i : Inventory) {e : Error}
    → (update_min_threshold n t i).0 ≡ err e
    → (update_min_threshold n t i).1 ≡ i
unfolding update_min_threshold
update_min_threshold_atomic n t i h = cc

clear_events_atomic :
    (i : Inventory) {e : Error} → (clear_events i).0 ≡ err e → (clear_events i).1 ≡ i
unfolding clear_events
clear_events_atomic i h = cc

-- A method that is given a quantity within bounds and throws on a valid inventory leaves it exactly
-- as it was.
pub apply_atomic :
    (c : Call) (i : Inventory) {e : Error}
    → IsWellFormed c
    → IsValid i
    → (apply c i).0 ≡ err e
    → (apply c i).1 ≡ i
unfolding apply
apply_atomic (restocking q t) i w v h = restock_atomic q t i h
apply_atomic (outgoing q t) i w v h = outbound_atomic q t i w v h
apply_atomic (reserving q t) i w v h = reserve_atomic q t i h
apply_atomic (unreserving q t) i w v h = unreserve_atomic q t i h
apply_atomic (threshold n t) i w v h = update_min_threshold_atomic n t i h
apply_atomic clearing i w v h = clear_events_atomic i h

-- On a valid inventory `reserve`, given a quantity within bounds, returns exactly when the quantity
-- is positive and available.
pub reserve_iff :
    (q : Quantity) (t : Date) (i : Inventory)
    → Quantity.IsValid q
    → IsValid i
    → ((reserve q t i).0 ≡ ok tt) ↔ ((pos 0 <ℤ q.value) × (q.value ≤ℤ get_available_quantity i))
unfolding reserve
reserve_iff q t i w v = (λ h. grind int_laws, λ h. grind int_laws)

-- On a valid inventory `outbound` succeeds exactly when the quantity is positive and available.
pub outbound_iff :
    (q : Quantity) (t : Date) (i : Inventory)
    → Quantity.IsValid q
    → IsValid i
    → ((outbound q t i).0 ≡ ok tt) ↔ ((pos 0 <ℤ q.value) × (q.value ≤ℤ get_available_quantity i))
unfolding outbound
outbound_iff q t i w v = (λ h. grind int_laws, λ h. grind int_laws)

-- When a call of `outbound` on a valid inventory returns, the goods have left the stock, and were
-- taken from the reserved quantity as far as that goes: the available quantity falls only by what
-- was not reserved.
pub outbound_moves :
    (q : Quantity) (t : Date) (i : Inventory)
    → Quantity.IsValid q
    → IsValid i
    → (outbound q t i).0 ≡ ok tt
    → let i' = (outbound q t i).1 in
      (i'.quantity.value +ℤ q.value ≡ i.quantity.value)
      × (i'.reserved.value +ℤ min_ℤ i.reserved.value q.value ≡ i.reserved.value)
      × (get_available_quantity i' +ℤ q.value
          ≡ get_available_quantity i +ℤ min_ℤ i.reserved.value q.value)
unfolding outbound
outbound_moves q t i w v h = (grind int_laws, grind int_laws, grind int_laws)

-- A reservation that succeeds moves its quantity from available to reserved and leaves the stock.
pub reserve_moves :
    (q : Quantity) (t : Date) (i : Inventory)
    → (reserve q t i).0 ≡ ok tt
    → let i' = (reserve q t i).1 in
      (i'.quantity ≡ i.quantity)
      × (i'.reserved.value ≡ i.reserved.value +ℤ q.value)
      × (get_available_quantity i' +ℤ q.value ≡ get_available_quantity i)
unfolding reserve
reserve_moves q t i h = (grind int_laws, grind int_laws, grind int_laws)

-- On a valid inventory, releasing a quantity right after it was reserved returns and restores both
-- quantities.
pub unreserve-reserve :
    (q : Quantity) (t u : Date) (i : Inventory)
    → Quantity.IsValid q
    → IsValid i
    → (reserve q t i).0 ≡ ok tt
    → let (r, i') = unreserve q u (reserve q t i).1 in
      (r ≡ ok tt) × (i'.quantity ≡ i.quantity) × (i'.reserved ≡ i.reserved)
unfolding unreserve reserve
unreserve-reserve q t u i w v h = (grind int_laws, grind int_laws, grind int_laws)

-- On a valid inventory, goods that were just reserved can go out exactly when twice their quantity
-- was available: the test of `outbound` counts the reservation of the same goods against them.
pub outbound-reserve_iff :
    (q : Quantity) (t u : Date) (i : Inventory)
    → Quantity.IsValid q
    → IsValid i
    → (reserve q t i).0 ≡ ok tt
    → ((outbound q u (reserve q t i).1).0 ≡ ok tt)
      ↔ (q.value +ℤ q.value ≤ℤ get_available_quantity i)
outbound-reserve_iff q t u i w v h =
    let i' : Inventory = (reserve q t i).1 in
    let moved = (reserve_moves q t i h).2 in
    let up = ap pos_part moved in
    let down = ap neg_part moved in
    let positive = ((reserve_iff q t i w v).0 h).0 in
    let goes_out = outbound_iff q u i' w (reserve-IsValid q t i w v) in
    (λ k. let fits = (goes_out.0 k).1 in omega int_laws, λ k. goes_out.1 (positive, omega int_laws))
