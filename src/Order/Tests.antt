-- ===== src/Order/Tests.antt =====
-- An order at concrete inputs.
use ops_marketplace_server.Base.{
  ◌≡◌, refl, ◌↔◌, pos, List, [], ◌∷◌, none, some, ok, err, true, ◌+ℤ◌, ◌*ℤ◌,
}
use ops_marketplace_server.Payment.{PaymentStatus}
use ops_marketplace_server.Order.{
  Order, OrderItem, Input, pending, shipped, delivered, cancelled, retail, create, ship, deliver,
  cancel, update_order_status, cancel_shipped, mark_as_paid, get_total_price, change_quantity,
  quantity_not_positive,
}
use ops_marketplace_server.Order.History.{
  Call, paying, shipping, delivering, cancelling, apply, run,
}
use ops_marketplace_server.Order.Lifecycle.{IsValid, run_order-IsValid}
use ops_marketplace_server.Order.Shipping.{
  is_cancellable, IsFrozen, cancel_iff, run-IsFrozen, cancel_after_shipping,
}

abbrev rice : OrderItem
rice = record {
  shop_id = "shop";
  product_id = "rice";
  product_name = "Rice";
  quantity = pos 3;
  retail_price = pos 20;
  wholesale_price = some (pos 15);
}

abbrev input : Input
input = record {
  buyer_id = "b";
  seller_id = "s";
  order_type = retail;
  sub_total = pos 45;
  shipping_fee = pos 5;
  items = rice ∷ [];
  shipping_address = "home";
  payment_method = "COD";
  notes = none;
}

abbrev order : Order
order = record {
  id = "o";
  buyer_id = "b";
  seller_id = "s";
  order_type = retail;
  items = rice ∷ [];
  subtotal = pos 45;
  shipping_fee = pos 5;
  grand_total = pos 50;
  shipping_address = "home";
  payment_method = "COD";
  payment_status = PaymentStatus.succeeded;
  order_status = pending;
  created_at = 0;
  updated_at = 0;
  payment_intent_id = none;
  shipped_at = none;
  delivered_at = none;
  cancelled_at = none;
  notes = none;
}

abbrev fresh : Order
fresh = record order { payment_status = PaymentStatus.pending }

abbrev sent : Order
sent = record order { order_status = shipped; shipped_at = some 1 }

abbrev done : Order
done = record order { order_status = delivered }

create_lem : create "o" 0 input ≡ ok fresh
unfolding create ◌+ℤ◌
create_lem = refl

rice_price :
    (get_total_price rice ≡ pos 45) × ((change_quantity (pos 0) rice).0 ≡ err quantity_not_positive)
unfolding get_total_price change_quantity ◌*ℤ◌
rice_price = (refl, refl)

-- The first call throws.
abbrev calls : List Call
calls =
    delivering 1 1 ∷ paying 2 ∷ shipping 3 3 ∷ delivering 4 4 ∷ cancelling (some "late") 5 5 ∷ []

calls_deliver :
    ((run calls fresh).order_status ≡ delivered) × ((run calls fresh).shipped_at ≡ some 3)
unfolding run apply deliver mark_as_paid ship cancel update_order_status
calls_deliver = (refl, refl)

run_order-IsValid_example : IsValid (run calls fresh)
run_order-IsValid_example = run_order-IsValid calls "o" 0 input {o = fresh} create_lem

cancel_iff_example : ((cancel none 1 1 sent).0 ≡ ok tt) ↔ (is_cancellable shipped ≡ true)
cancel_iff_example = cancel_iff none 1 1 sent

run-IsFrozen_example : IsFrozen done (run calls done)
run-IsFrozen_example = run-IsFrozen calls done refl

cancel_after_shipping_example :
    let o' = (cancel none 4 4 (update_order_status pending 3 3 sent).1).1 in
    ((cancel none 4 4 sent).0 ≡ err cancel_shipped)
    × (o'.order_status ≡ cancelled)
    × (o'.shipped_at ≡ some 1)
cancel_after_shipping_example = cancel_after_shipping none 4 4 3 3 sent refl
