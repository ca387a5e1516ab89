-- ===== src/Orders/UseCases.antt =====
-- The use cases of src/modules/order/applications/use-cases that change an order: it is found, a method of
-- the entity is called, and it is saved. The events that they publish are not modelled; `at`, `touched` and
-- `now` are the times that the method and the save read.
use ops_marketplace_server.Base.{
  Option, none, some, String, Action, Result, ok, err, Void, throw, pure, is_empty_text,
  if◌then◌else◌, ◌>>=◌, ◌>>◌,
}
use ops_marketplace_server.Ids.{Date}
use ops_marketplace_server.Payment.{PaymentStatus}
use ops_marketplace_server.Order
use ops_marketplace_server.Order.{Order, OrderStatus}
use ops_marketplace_server.Database.{Client, Query, order_error, order_missing, or_throw}
use ops_marketplace_server.Orders.Repository.{find_by_id, save}

abbrev pub set_intent : Option String → Date → Action Order Order.Error Void
set_intent none now = pure tt
set_intent (some intent) now =
    if is_empty_text intent then pure tt else Order.set_payment_intent intent now

module _ (C : Client) where
  -- What a method made of the order, or the error that it threw.
  abbrev pub changed : Result Order.Error Void × Order → Query C Order
  changed (ok v, o) = pure o
  changed (err e, o) = throw (order_error e)

  unfoldable pub execute : Action Order Order.Error Void → Date → String → Query C Order
  execute method now id = do
    found ← find_by_id C id
    o ← or_throw C order_missing found
    o' ← changed (method o)
    save C now o'

  abbrev pub cancel_use_case : Option String → Date → Date → Date → String → Query C Order
  cancel_use_case reason at touched = execute (Order.cancel reason at touched)

  abbrev pub update_order_status_use_case :
      OrderStatus → Date → Date → Date → String → Query C Order
  update_order_status_use_case status at touched =
      execute (Order.update_order_status status at touched)

  abbrev pub update_payment_status_use_case :
      PaymentStatus → Option String → Date → Date → String → Query C Order
  update_payment_status_use_case status intent touched =
      execute (Order.update_payment_status status touched >> set_intent intent touched)

  abbrev pub ship_use_case : Date → Date → Date → String → Query C Order
  ship_use_case at touched = execute (Order.ship at touched)

  abbrev pub deliver_use_case : Date → Date → Date → String → Query C Order
  deliver_use_case at touched = execute (Order.deliver at touched)

  abbrev pub update_shipping_address_use_case : String → Date → Date → String → Query C Order
  update_shipping_address_use_case address touched =
      execute (Order.update_shipping_address address touched)

  abbrev pub mark_order_as_paid_use_case : String → Date → Date → String → Query C Order
  mark_order_as_paid_use_case intent touched = execute (Order.mark_payment_succeeded intent touched)
