-- ===== src/Order/History.antt =====
-- A sequence of method calls on one order, each of which may throw and be caught.
use ops_marketplace_server.Base.{Option, List, [], ◌∷◌, String, Action, Void}
use ops_marketplace_server.Ids.{Date}
use ops_marketplace_server.Payment.{PaymentStatus}
use ops_marketplace_server.Order.{
  Order, Error, OrderStatus, update_order_status, update_payment_status, set_payment_intent,
  mark_payment_succeeded, mark_as_paid, ship, deliver, cancel, update_shipping_address, add_note,
}

pub data Call : Type 0 where
  setting_status : OrderStatus → Date → Date → Call
  setting_payment : PaymentStatus → Date → Call
  setting_intent succeeding : String → Date → Call
  paying : Date → Call
  shipping delivering : Date → Date → Call
  cancelling : Option String → Date → Date → Call
  moving noting : String → Date → Call

unfoldable pub apply : Call → Action Order Error Void
apply (setting_status s at t) = update_order_status s at t
apply (setting_payment s t) = update_payment_status s t
apply (setting_intent i t) = set_payment_intent i t
apply (succeeding i t) = mark_payment_succeeded i t
apply (paying t) = mark_as_paid t
apply (shipping at t) = ship at t
apply (delivering at t) = deliver at t
apply (cancelling reason at t) = cancel reason at t
apply (moving address t) = update_shipping_address address t
apply (noting note t) = add_note note t

unfoldable pub run : List Call → Order → Order
run [] o = o
run (c ∷ cs) o = run cs (apply c o).1
