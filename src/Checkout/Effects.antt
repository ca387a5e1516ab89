-- ===== src/Checkout/Effects.antt =====
-- The orders of a checkout are in the table, and the carts and their items as they were, until the end
-- of its transaction.
use ops_marketplace_server.Base.{
  not, throw_if, ℤ, pos, ◌≡◌, refl, sym, subst, arith, eq_iff, eq_refl, All, map, Option, none,
  some, List, [], ◌∷◌, String, pure, ◌>>=◌, ◌>>◌,
}
use ops_marketplace_server.Database.{
  Client, Tables, CartRow, CartItemRow, AddressRow, OrderRow, PaymentRow, InventoryRow,
  find_payment, put_payment_row, put_row,
}
use ops_marketplace_server.Database.Triples.{
  Triple-throw_if, Triple, IsLive, Triple-bind, Triple-read, Triple-edit_last, Triple-write_last,
}
use ops_marketplace_server.Checkout.{
  amount_too_large, total_of, fits_column, Line, Group, Request, order_of, reserve, reserve_found,
  reserve_product, reserve_lines, insert_order, create_order, create_orders,
}

-- The orders are in the table under their ids.
abbrev pub HasOrders : List OrderRow → Tables → Type 0
HasOrders os t = All (λ (o : OrderRow). t.orders o.id ≡ some o) os

HasOrders-put :
    (os : List OrderRow) (new : OrderRow) (t : Tables)
    → t.orders new.id ≡ none
    → HasOrders os t
    → HasOrders os (record t { orders = put_row new.id new t.orders })
HasOrders-put [] new t free h = tt
HasOrders-put (o ∷ os) new t free h =
    let same = eq_iff new.id o.id in
    let here = h.0 in (grind (arith, same, here, free), HasOrders-put os new t free h.1)

pub find_payment-put :
    (p : PaymentRow) (rows : List PaymentRow) → find_payment p.id (put_payment_row p rows) ≡ some p
unfolding find_payment put_payment_row
find_payment-put p [] = ground (arith, eq_refl p.id)
find_payment-put p (x ∷ rows) =
    ground (arith, eq_refl p.id, eq_iff x.id p.id, find_payment-put p rows)

module _ (C : Client) (carts : List CartRow) (items : List CartItemRow) where
  -- The carts and their items are those, and the orders are there.
  abbrev pub Holds : List OrderRow → C.State → Type 0
  Holds os u =
      IsLive C u
      × (((C.seen u).goods.carts ≡ carts)
          × (((C.seen u).goods.cart_items ≡ items) × HasOrders os (C.seen u)))

  reserve_found-Holds :
      (os : List OrderRow) (product : String) (n : ℤ) (row : Option InventoryRow)
      → Triple C (Holds os) (reserve_found C product n row) (λ _ u. Holds os u)
  reserve_found-Holds os product n none = λ s p. tt
  reserve_found-Holds os product n (some row) =
      Triple-edit_last C (Holds os) (λ _ u. Holds os u)
        (λ g. record g { inventories = put_row product (reserve n row) g.inventories })
        (λ u live p. rw C.put_goods_lem p)

  reserve_product-Holds :
      (os : List OrderRow) (product : String) (n : ℤ)
      → Triple C (Holds os) (reserve_product C product n) (λ _ u. Holds os u)
  unfolding reserve_product
  reserve_product-Holds os product n =
      Triple-read C (Holds os) (λ _ u. Holds os u) (λ t. t.goods.inventories product)
        (reserve_found C product n) (λ row s p. reserve_found-Holds os product n row s p.1.1)

  reserve_lines-Holds :
      (os : List OrderRow) (ls : List Line)
      → Triple C (Holds os) (reserve_lines C ls) (λ _ u. Holds os u)
  unfolding reserve_lines
  reserve_lines-Holds os [] = λ s p. p
  reserve_lines-Holds os (l ∷ ls) =
      let n = pos l.item.quantity in
      Triple-bind C (Holds os) (λ _ u. Holds os u) (λ _ u. Holds os u)
        (reserve_product C l.item.product_id n) (λ _. reserve_lines C ls)
        (reserve_product-Holds os l.item.product_id n) (λ _. reserve_lines-Holds os ls)

  insert_order-Holds :
      (os : List OrderRow) (o : OrderRow) (old : Option OrderRow)
      → Triple C
          (λ u. ((C.seen u).orders o.id ≡ old) × (IsLive C u × Holds os u))
          (insert_order C o old)
          (λ _ u. Holds (o ∷ os) u)
  insert_order-Holds os o none =
      Triple-write_last C (λ u. ((C.seen u).orders o.id ≡ none) × (IsLive C u × Holds os u))
        (λ _ u. Holds (o ∷ os) u) (C.put_order o.id o)
        (λ u live p.
          let kept =
            subst (λ t. HasOrders os t) (sym (C.put_order_lem o.id o u))
              (HasOrders-put os o (C.seen u) p.0 p.1.1.1.1.1) in
          (
            rw C.put_order_lem p.1.1.0,
            (
              rw C.put_order_lem p.1.1.1.0,
              (rw C.put_order_lem p.1.1.1.1.0, (rw (C.put_order_lem, eq_refl o.id) refl, kept)),
            ),
          ))
  insert_order-Holds os o (some old) = λ s p. tt

  create_order-Holds :
      (os : List OrderRow) (r : Request) (a : AddressRow) (g : Group)
      → Triple C
          (Holds os)
          (create_order C r a g)
          (λ o u. (o ≡ order_of r a g) × Holds (order_of r a g ∷ os) u)
  unfolding create_order
  create_order-Holds os r a g =
      let o = order_of r a g in
      let R = λ (x : OrderRow) (u : C.State). (x ≡ o) × Holds (o ∷ os) u in
      let rest =
        λ (old : Option OrderRow). insert_order C o old >> (reserve_lines C g.lines >> pure o) in
      Triple-read C (Holds os) R (λ t. t.orders o.id)
        (λ old. throw_if (not (fits_column (total_of g.lines))) amount_too_large >> rest old)
        (λ old.
          Triple-throw_if C (λ u. ((C.seen u).orders o.id ≡ old) × (IsLive C u × Holds os u)) R
            (not (fits_column (total_of g.lines))) amount_too_large (rest old)
            (λ _.
              Triple-bind C (λ u. ((C.seen u).orders o.id ≡ old) × (IsLive C u × Holds os u))
                (λ _ u. Holds (o ∷ os) u) R (insert_order C o old)
                (λ _. reserve_lines C g.lines >> pure o) (insert_order-Holds os o old)
                (λ _.
                  Triple-bind C (Holds (o ∷ os)) (λ _ u. Holds (o ∷ os) u) R
                    (reserve_lines C g.lines) (λ _. pure o) (reserve_lines-Holds (o ∷ os) g.lines)
                    (λ _ s p. (refl, p)))))

  pub create_orders-Holds :
      (os : List OrderRow) (r : Request) (a : AddressRow) (gs : List Group)
      → Triple C
          (Holds os)
          (create_orders C r a gs)
          (λ new u. (new ≡ map (order_of r a) gs) × (Holds os u × HasOrders new (C.seen u)))
  unfolding create_orders
  create_orders-Holds os r a [] = λ s p. (refl, (p, tt))
  create_orders-Holds os r a (g ∷ gs) =
      let o = order_of r a g in
      let R = λ (new : List OrderRow) (u : C.State).
        (new ≡ map (order_of r a) (g ∷ gs)) × (Holds os u × HasOrders new (C.seen u)) in
      Triple-bind C (Holds os) (λ x u. (x ≡ o) × Holds (o ∷ os) u) R (create_order C r a g)
        (λ x. create_orders C r a gs >>= λ rest. pure (x ∷ rest)) (create_order-Holds os r a g)
        (λ x s p.
          Triple-bind C (Holds (o ∷ os))
            (λ rest u.
              (rest ≡ map (order_of r a) gs) × (Holds (o ∷ os) u × HasOrders rest (C.seen u)))
            R (create_orders C r a gs) (λ rest. pure (x ∷ rest))
            (create_orders-Holds (o ∷ os) r a gs)
            (λ rest u q.
              let same : x ∷ rest ≡ map (order_of r a) (g ∷ gs) = rw (p.0, q.0) refl in
              let there : HasOrders (x ∷ rest) (C.seen u) = (rw p.0 q.1.0.1.1.1.0, q.1.1) in
              (same, ((q.1.0.0, (q.1.0.1.0, (q.1.0.1.1.0, q.1.0.1.1.1.1))), there)))
            s p.1)
