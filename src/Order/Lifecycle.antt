-- ===== src/Order/Lifecycle.antt =====
-- The methods of Order.ts over a life of an order: the dates that belong to its status, its totals
-- and its items.
use ops_marketplace_server.Base.{
  ◌+ℤ◌, ◌≡◌, arith, List, [], ◌∷◌, Option, is_some, is_empty, true, false, ok, err, String,
}
use ops_marketplace_server.Ids.{Date}
use ops_marketplace_server.Order.{
  Order, Input, Error, OrderStatus, pending, shipped, delivered, cancelled, create,
  update_order_status, update_payment_status, set_payment_intent, mark_payment_succeeded,
  mark_as_paid, ship, deliver, cancel, update_shipping_address, add_note,
}
use ops_marketplace_server.Order.History.{
  Call, setting_status, shipping, delivering, cancelling, apply, run,
}

status_atomic :
    (s : OrderStatus) (at t : Date) (o : Order) {e : Error}
    → (update_order_status s at t o).0 ≡ err e
    → (update_order_status s at t o).1 ≡ o
unfolding update_order_status
status_atomic pending at t o h = ground arith
status_atomic _ at t o h = ground arith

cancel_atomic :
    (r : Option String) (at t : Date) (o : Order) {e : Error}
    → (cancel r at t o).0 ≡ err e
    → (cancel r at t o).1 ≡ o
unfolding cancel
cancel_atomic r at t o {e} h = ground (arith, status_atomic cancelled at t o {e = e})

-- A method that throws leaves the order exactly as it was.
pub order_atomic : (c : Call) (o : Order) {e : Error} → (apply c o).0 ≡ err e → (apply c o).1 ≡ o
unfolding apply update_payment_status set_payment_intent mark_payment_succeeded mark_as_paid ship
    deliver update_shipping_address add_note
order_atomic (setting_status s at t) o {e} h = status_atomic s at t o h
order_atomic (cancelling r at t) o {e} h = cancel_atomic r at t o h
order_atomic (shipping at t) o {e} h = ground (arith, status_atomic shipped at t o {e = e})
order_atomic (delivering at t) o {e} h = ground (arith, status_atomic delivered at t o {e = e})
order_atomic _ o {e} h = ground arith

-- The dates that a status promises.
abbrev pub HasDate : OrderStatus → Order → Type 0
HasDate shipped o = is_some o.shipped_at ≡ true
HasDate delivered o = is_some o.delivered_at ≡ true
HasDate cancelled o = is_some o.cancelled_at ≡ true
HasDate _ o = Unit

pub record IsValid (o : Order) : Type 0 where
  pub dated : HasDate o.order_status o
  pub summed : o.grand_total ≡ o.subtotal +ℤ o.shipping_fee
  pub stocked : is_empty o.items ≡ false

status_dated :
    (s : OrderStatus) (at t : Date) (o : Order)
    → HasDate o.order_status o
    → HasDate (update_order_status s at t o).1.order_status (update_order_status s at t o).1
unfolding update_order_status
status_dated pending at t o h = ground arith
status_dated _ at t o h = ground arith

cancel_dated :
    (r : Option String) (at t : Date) (o : Order)
    → HasDate o.order_status o
    → HasDate (cancel r at t o).1.order_status (cancel r at t o).1
unfolding cancel
cancel_dated r at t o h = ground (arith, status_dated cancelled at t o h)

dated-apply :
    (c : Call) (o : Order)
    → HasDate o.order_status o
    → HasDate (apply c o).1.order_status (apply c o).1
unfolding apply update_payment_status set_payment_intent mark_payment_succeeded mark_as_paid ship
    deliver update_shipping_address add_note
dated-apply (setting_status s at t) o h = status_dated s at t o h
dated-apply (shipping at t) o h = ground (arith, status_dated shipped at t o h)
dated-apply (delivering at t) o h = ground (arith, status_dated delivered at t o h)
dated-apply (cancelling r at t) o h = cancel_dated r at t o h
dated-apply _ o h = ground arith

-- What no method writes.
abbrev IsSame : Order → Order → Type 0
IsSame o o' =
    (o'.items ≡ o.items)
    × (o'.subtotal ≡ o.subtotal)
    × (o'.shipping_fee ≡ o.shipping_fee)
    × (o'.grand_total ≡ o.grand_total)

status-IsSame :
    (s : OrderStatus) (at t : Date) (o : Order) → IsSame o (update_order_status s at t o).1
unfolding update_order_status
status-IsSame pending at t o = (ground arith, ground arith, ground arith, ground arith)
status-IsSame _ at t o = (ground arith, ground arith, ground arith, ground arith)

apply-IsSame : (c : Call) (o : Order) → IsSame o (apply c o).1
unfolding apply update_payment_status set_payment_intent mark_payment_succeeded mark_as_paid ship
    deliver cancel update_shipping_address add_note
apply-IsSame (setting_status s at t) o = status-IsSame s at t o
apply-IsSame (shipping at t) o = ground (arith, status-IsSame shipped at t o)
apply-IsSame (delivering at t) o = ground (arith, status-IsSame delivered at t o)
apply-IsSame (cancelling r at t) o = ground (arith, status-IsSame cancelled at t o)
apply-IsSame _ o = ground arith

apply-IsValid : (c : Call) (o : Order) → IsValid o → IsValid (apply c o).1
apply-IsValid c o v =
    let (items, subtotal, fee, total) = apply-IsSame c o in
    record {
      dated = dated-apply c o v.dated;
      summed = rw (total, subtotal, fee) v.summed;
      stocked = rw items v.stocked;
    }

run-IsValid_from : (cs : List Call) (o : Order) → IsValid o → IsValid (run cs o)
unfolding run
run-IsValid_from [] o v = v
run-IsValid_from (c ∷ cs) o v = run-IsValid_from cs (apply c o).1 (apply-IsValid c o v)

-- After any sequence of method calls on a created order, of which each may throw, a shipped, delivered
-- or cancelled order has the date of that, the grand total is the subtotal and the shipping fee, and
-- the order has an item.
pub run_order-IsValid :
    (cs : List Call) (id : String) (now : Date) (input : Input) {o : Order}
    → create id now input ≡ ok o
    → IsValid (run cs o)
unfolding create
run_order-IsValid cs id now input {o} h = run-IsValid_from cs o (ground arith)
