-- ===== src/Checkout/Totals.antt =====
-- The amounts of a checkout: the payment takes what the lines of the cart come to.
use ops_marketplace_server.Base.{ℤ, ap, pos, ◌+ℤ◌, ◌≡◌, refl, sym, ◌∙◌, map, List, [], ◌∷◌}
use ops_marketplace_server.Database.{AddressRow, OrderRow, PaymentItem, PaymentRow}
use ops_marketplace_server.Payment.{PaymentMethod}
use ops_marketplace_server.Checkout.{
  Line, Group, Request, group_lines, order_of, payment_item, payment_of, line_price, total_of,
  sum_of_orders,
}
use ops_marketplace_server.Checkout.Groups.{sum_groups, sum_groups-group, total_of-lines}

unfoldable pub sum_of_items : List PaymentItem → ℤ
sum_of_items [] = pos 0
sum_of_items (i ∷ is) = i.amount +ℤ sum_of_items is

pub sum_of_items-map : (os : List OrderRow) → sum_of_items (map payment_item os) ≡ sum_of_orders os
unfolding sum_of_items sum_of_orders
sum_of_items-map [] = refl
sum_of_items-map (o ∷ os) = rw (sum_of_items-map os) refl

sum_of_orders-groups :
    (r : Request) (a : AddressRow) (gs : List Group)
    → sum_of_orders (map (order_of r a) gs) ≡ sum_groups line_price gs
unfolding sum_of_orders sum_groups
sum_of_orders-groups r a [] = refl
sum_of_orders-groups r a (g ∷ gs) = rw (total_of-lines g.lines, sum_of_orders-groups r a gs) refl

pub sum_of_orders-lines :
    (r : Request) (a : AddressRow) (ls : List Line)
    → sum_of_orders (map (order_of r a) (group_lines ls)) ≡ total_of ls
sum_of_orders-lines r a ls =
    sum_of_orders-groups r a (group_lines ls)
    ∙ sum_groups-group line_price ls
    ∙ sym (total_of-lines ls)

pub payment_of-lines :
    (r : Request) (a : AddressRow) (ls : List Line) (m : PaymentMethod) (os : List OrderRow)
    (p : PaymentRow)
    → os ≡ map (order_of r a) (group_lines ls)
    → p ≡ payment_of r m os
    → (p.amount ≡ total_of ls) × (sum_of_items p.items ≡ total_of ls)
payment_of-lines r a ls m os p is_os is_p =
    let total = ap sum_of_orders is_os ∙ sum_of_orders-lines r a ls in
    (
      ap (λ (q : PaymentRow). q.amount) is_p ∙ total,
      ap (λ (q : PaymentRow). sum_of_items q.items) is_p ∙ sum_of_items-map os ∙ total,
    )
