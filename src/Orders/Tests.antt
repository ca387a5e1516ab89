-- ===== src/Orders/Tests.antt =====
-- An order that a checkout stored and one that the repository stored, on tables in memory.
use ops_marketplace_server.Base.{
  String, pos, ◌≡◌, refl, true, if◌then◌else◌, ◌==◌, none, some, [], ◌∷◌, ok, err,
}
use ops_marketplace_server.Order
use ops_marketplace_server.Order.{Order, OrderStatus, OrderType, equals}
use ops_marketplace_server.Payment.{PaymentStatus}
use ops_marketplace_server.Database.{
  Tables, OrderRow, AddressRow, StoredAddress, address_unreadable, query, write, edit, transaction,
}
use ops_marketplace_server.Database.Memory.{strict}
use ops_marketplace_server.Database.Triples.{IsLive}
use ops_marketplace_server.Orders.{
  get_order, release_product, release_items, release_order, cancel_order,
}
use ops_marketplace_server.Orders.Repository.{
  deserialize_address, entity_of, row_from, map_to_domain, find_by_id, save,
}
use ops_marketplace_server.Orders.UseCases.{execute}
use ops_marketplace_server.Orders.Release.{units_of, Lowered, cancel_order_again}
use ops_marketplace_server.Orders.Cancelling.{Cancelled, cancel_order_lem}
use ops_marketplace_server.Orders.Saving.{Stores, Answers, execute_lem}

abbrev columns : AddressRow
columns = record {
  id = "home";
  user_id = "user";
  country = some "VN";
  city = none;
  district = none;
  ward = none;
  street = none;
  detail = none;
  postal_code = none;
}

abbrev order : StoredAddress → OrderRow
order address = record {
  id = "o";
  buyer_id = "user";
  seller_id = "seller";
  order_type = OrderType.retail;
  status = OrderStatus.pending;
  total_price = pos 300;
  shipping_address = address;
  payment_method = "COD";
  payment_intent_id = none;
  payment_status = PaymentStatus.pending;
  notes = none;
  shipped_at = none;
  delivered_at = none;
  cancelled_at = none;
  created_at = 1;
  updated_at = 1;
  items =
      record {
        shop_id = "s";
        product_id = "p";
        product_name = "a";
        quantity = pos 3;
        price = pos 100;
      }
      ∷ [];
}

abbrev with_order : OrderRow → Tables
with_order o = record {
  accounts = λ _. none;
  account_ids = λ _ _. none;
  entries = [];
  payouts = λ _. none;
  payments = [];
  orders = λ id. if id == "o" then some o else none;
  shop_owners = λ _. none;
  owner_shops = λ _. none;
  refunds = [];
  bank_rows = [];
  goods = record {
    products = λ _. none;
    inventories =
        λ p. if p == "p" then some (record { stock = 5; reserved = pos 4; version = 1 }) else none;
    carts = [];
    cart_items = [];
    addresses = λ _. none;
  };
  is_open = true;
}

abbrev bought : OrderRow
bought = order (StoredAddress.of_columns columns)

abbrev released : Tables
released = (release_order strict "o" (with_order bought)).1

release_returned : release_order strict "o" (with_order bought) ≡ (ok tt, released)
unfolding release_order release_items release_product transaction query edit write
release_returned = refl

cancel_order_again_example :
    (cancel_order strict "user" "o" 5 5 5 (with_order bought) ≡ (err address_unreadable, released))
    × ((IsLive strict released × (released.orders ≡ (with_order bought).orders))
        × Lowered (λ p. units_of p bought.items) (with_order bought).goods released.goods)
unfolding equals
cancel_order_again_example =
    cancel_order_again strict "user" "o" bought columns 5 5 5 (with_order bought) refl refl refl
      refl refl release_returned

abbrev wholesale : Tables
wholesale = with_order (order (StoredAddress.of_entity "1 A"))

abbrev cancelled : Tables
cancelled = (execute strict (Order.cancel none 5 6) 7 "o" wholesale).1

abbrev cancelled_order : OrderRow
cancelled_order = record (order (StoredAddress.of_entity "1 A")) {
  status = OrderStatus.cancelled;
  updated_at = 7;
}

cancel_returned :
    execute strict (Order.cancel none 5 6) 7 "o" wholesale
    ≡ (ok (entity_of cancelled_order "1 A"), cancelled)
unfolding execute find_by_id map_to_domain save entity_of row_from Order.cancel
    Order.update_order_status transaction query write equals
cancel_returned = refl

execute_lem_example :
    (r : OrderRow) × ((address : String) × ((x : Order) × ((row : OrderRow) × (((wholesale.orders
                  "o"
                ≡ some r)
              × (deserialize_address r.shipping_address ≡ some address))
            × ((Order.cancel none 5 6 (entity_of r address) ≡ (ok tt, x))
                × ((cancelled.orders x.id ≡ some row)
                    × (Stores x (wholesale.orders x.id) row
                        × (Answers x (wholesale.orders x.id) (entity_of cancelled_order "1 A")
                            × (cancelled.goods ≡ wholesale.goods)))))))))
execute_lem_example = execute_lem strict (Order.cancel none 5 6) 7 "o" wholesale cancel_returned

abbrev undone : Tables
undone = (cancel_order strict "user" "o" 5 6 7 wholesale).1

cancel_order_returned :
    cancel_order strict "user" "o" 5 6 7 wholesale ≡ (ok (entity_of cancelled_order "1 A"), undone)
unfolding cancel_order get_order release_order release_items release_product edit execute find_by_id
    map_to_domain save entity_of row_from Order.cancel Order.update_order_status transaction query
    write equals
cancel_order_returned = refl

cancel_order_lem_example :
    Cancelled strict "user" "o" 5 6 7 wholesale (entity_of cancelled_order "1 A") undone
cancel_order_lem_example = cancel_order_lem strict "user" "o" 5 6 7 wholesale cancel_order_returned
