-- ===== src/Checkout/Lockout.antt =====
-- What a user can still do with a cart after createOrdersFromCart: the row of the completed cart stays, and
-- a user has one row at most.
use ops_marketplace_server.Base.{ℕ, ◌≤◌, ◌≡◌, sym, subst, List, String, ok}
use ops_marketplace_server.Database.{Client, OrderRow, PaymentRow}
use ops_marketplace_server.Carts.{get_cart, add_item}
use ops_marketplace_server.Carts.Locked.{
  count_carts, IsLocked, completed-IsLocked, Fails, get_cart-Fails, add_item-Fails,
}
use ops_marketplace_server.Checkout.{Request, create_orders_from_cart}
use ops_marketplace_server.Checkout.Results.{create_orders_from_cart_lem}

create_orders_from_cart-IsLocked :
    (C : Client) (r : Request) (s : C.State) {os : List OrderRow} {p : PaymentRow} {s' : C.State}
    → count_carts r.user_id (C.seen s).goods.carts ≤ 1
    → create_orders_from_cart C r s ≡ (ok (os, p), s')
    → IsLocked r.user_id (C.seen s').goods.carts
create_orders_from_cart-IsLocked C r s {s' = s'} one e =
    let (cart, (found, paid)) = create_orders_from_cart_lem C r s e in
    subst (IsLocked r.user_id) (sym paid.1.1.1.1.1.0)
      (completed-IsLocked r.user_id (C.seen s).goods.carts cart one found)

-- Over every database in which a user has one row of a cart at most: once createOrdersFromCart has returned
-- for the user, showing the user's cart throws and writes nothing, and so does adding any quantity of any
-- product to it, whatever ids the database would choose for the new rows.
pub create_orders_from_cart-Fails :
    (C : Client) (r : Request) (s : C.State) {os : List OrderRow} {p : PaymentRow} {s' : C.State}
    → count_carts r.user_id (C.seen s).goods.carts ≤ 1
    → create_orders_from_cart C r s ≡ (ok (os, p), s')
    → (new_id new_item product : String) (n : ℕ)
    → Fails C (get_cart C new_id r.user_id) s'
      × Fails C (add_item C new_id new_item r.user_id product n) s'
create_orders_from_cart-Fails C r s {s' = s'} one e new_id new_item product n =
    let locked = create_orders_from_cart-IsLocked C r s one e in
    (
      get_cart-Fails C s' new_id r.user_id locked,
      add_item-Fails C s' new_id r.user_id locked new_item product n,
    )
