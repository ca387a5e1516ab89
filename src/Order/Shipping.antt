-- ===== src/Order/Shipping.antt =====
-- The methods of Order.ts that ship, deliver and cancel an order, and the orders that are finished.
use ops_marketplace_server.Base.{
  ◌&&◌, not, ◌≡◌, refl, ◌∙◌, ◌↔◌, arith, List, [], ◌∷◌, Option, some, Bool, true, false, ◌||◌, ok,
  err, String,
}
use ops_marketplace_server.Ids.{Date}
use ops_marketplace_server.Payment.{is_paid}
use ops_marketplace_server.Order.{
  cancel_shipped, Order, OrderStatus, pending, confirmed, processing, shipped, delivered, cancelled,
  refunded, equals, update_order_status, update_payment_status, set_payment_intent,
  mark_payment_succeeded, mark_as_paid, ship, deliver, cancel, update_shipping_address, add_note,
  cancel_shipped,
}
use ops_marketplace_server.Order.History.{
  Call, setting_status, shipping, delivering, cancelling, apply, run,
}

abbrev pub is_final : OrderStatus → Bool
is_final delivered = true
is_final cancelled = true
is_final refunded = true
is_final _ = false

-- The statuses from which `ship` and `cancel` go on.
abbrev pub is_shippable : OrderStatus → Bool
is_shippable pending = true
is_shippable confirmed = true
is_shippable processing = true
is_shippable _ = false

abbrev pub is_cancellable : OrderStatus → Bool
is_cancellable pending = true
is_cancellable confirmed = true
is_cancellable cancelled = true
is_cancellable _ = false

-- `ship` returns exactly when the order is paid and is pending, confirmed or in processing.
pub ship_iff :
    (at t : Date) (o : Order)
    → ((ship at t o).0 ≡ ok tt)
      ↔ ((is_shippable o.order_status ≡ true) × (is_paid o.payment_status ≡ true))
unfolding ship update_order_status
ship_iff at t o = (λ h. ground arith, λ h. ground arith)

-- `deliver` returns exactly when the order has shipped and is paid.
pub deliver_iff :
    (at t : Date) (o : Order)
    → ((deliver at t o).0 ≡ ok tt)
      ↔ ((o.order_status ≡ shipped) × (is_paid o.payment_status ≡ true))
unfolding deliver update_order_status
deliver_iff at t o = (λ h. ground arith, λ h. ground arith)

-- `cancel` returns exactly when the order is pending, confirmed or cancelled already.
pub cancel_iff :
    (r : Option String) (at t : Date) (o : Order)
    → ((cancel r at t o).0 ≡ ok tt) ↔ (is_cancellable o.order_status ≡ true)
unfolding cancel update_order_status
cancel_iff r at t o = (λ h. ground arith, λ h. ground arith)

-- A `ship` that returns makes the order shipped, with the date of the call.
pub ship_sets :
    (at t : Date) (o : Order)
    → (ship at t o).0 ≡ ok tt
    → ((ship at t o).1.order_status ≡ shipped) × ((ship at t o).1.shipped_at ≡ some at)
unfolding ship update_order_status
ship_sets at t o h = (ground arith, ground arith)

status_final :
    (s : OrderStatus) (at t : Date) (o : Order)
    → is_final o.order_status ≡ true
    → (update_order_status s at t o).1 ≡ o
unfolding update_order_status
status_final pending at t o h = ground arith
status_final _ at t o h = ground arith

-- The part of an order that a final status freezes.
abbrev pub IsFrozen : Order → Order → Type 0
IsFrozen o o' =
    (o'.order_status ≡ o.order_status)
    × (o'.shipped_at ≡ o.shipped_at)
    × (o'.delivered_at ≡ o.delivered_at)
    × (o'.cancelled_at ≡ o.cancelled_at)

apply-IsFrozen : (c : Call) (o : Order) → is_final o.order_status ≡ true → IsFrozen o (apply c o).1
unfolding apply update_payment_status set_payment_intent mark_payment_succeeded mark_as_paid ship
    deliver cancel update_shipping_address add_note
apply-IsFrozen (setting_status s at t) o h = ground (arith, status_final s at t o h)
apply-IsFrozen (shipping at t) o h = ground (arith, status_final shipped at t o h)
apply-IsFrozen (delivering at t) o h = ground (arith, status_final delivered at t o h)
apply-IsFrozen (cancelling r at t) o h = ground (arith, status_final cancelled at t o h)
apply-IsFrozen _ o h = ground arith

-- A delivered, cancelled or refunded order keeps its status and its dates of shipping, delivery and
-- cancellation under every sequence of method calls.
pub run-IsFrozen :
    (cs : List Call) (o : Order) → is_final o.order_status ≡ true → IsFrozen o (run cs o)
unfolding run
run-IsFrozen [] o h = (refl, refl, refl, refl)
run-IsFrozen (c ∷ cs) o h =
    let (status, sent, arrived, stopped) = apply-IsFrozen c o h in
    let later = run-IsFrozen cs (apply c o).1 (rw status h) in
    (later.0 ∙ status, later.1 ∙ sent, later.2 ∙ arrived, later.3 ∙ stopped)

-- Which changes of status `updateOrderStatus` accepts.
unfoldable pub is_accepted : OrderStatus → OrderStatus → Bool → Bool
unfolding equals
is_accepted old shipped paid = equals shipped old || (not (is_final old) && paid)
is_accepted old delivered paid = equals delivered old || (not (is_final old) && paid)
is_accepted old cancelled paid = is_cancellable old
is_accepted old new paid = equals new old || not (is_final old)

-- `updateOrderStatus` accepts every change from a status that is not final, but for shipping and
-- delivery only if the order is paid, and for cancelling only from pending and confirmed.
pub update_order_status_iff :
    (new : OrderStatus) (at t : Date) (o : Order)
    → ((update_order_status new at t o).0 ≡ ok tt)
      ↔ (is_accepted o.order_status new (is_paid o.payment_status) ≡ true)
unfolding update_order_status is_accepted
update_order_status_iff pending at t o = (λ h. ground arith, λ h. ground arith)
update_order_status_iff _ at t o = (λ h. ground arith, λ h. ground arith)

-- A shipped order, which `cancel` refuses, is cancelled all the same by setting its status back to
-- pending first; it keeps the date at which it was shipped.
pub cancel_after_shipping :
    (r : Option String) (at t u v : Date) (o : Order)
    → o.order_status ≡ shipped
    → let o' = (cancel r at t (update_order_status pending u v o).1).1 in
      ((cancel r at t o).0 ≡ err cancel_shipped)
      × (o'.order_status ≡ cancelled)
      × (o'.shipped_at ≡ o.shipped_at)
unfolding cancel update_order_status
cancel_after_shipping r at t u v o h = (ground arith, ground arith, ground arith)
