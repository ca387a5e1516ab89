-- ===== src/Orders/Saving.antt =====
-- What a use case that changes an order has stored when it returns.
use ops_marketplace_server.Base.{
  ◌≡◌, refl, sym, ap, subst, ◌∙◌, eq_refl, Option, none, some, String, Action, Result, ok, err,
  Void, pure, ◌>>=◌, ◌>>◌,
}
use ops_marketplace_server.Ids.{Date}
use ops_marketplace_server.Order
use ops_marketplace_server.Order.{Order}
use ops_marketplace_server.Database.{
  Client, Tables, OrderRow, address_unreadable, order_missing, record_missing, query, write,
  or_throw,
}
use ops_marketplace_server.Database.Returns.{more, Returns, returned}
use ops_marketplace_server.Database.Triples.{
  Triple, IsLive, Triple-bind, Triple-read, Triple-write, Triple-found, Triple-transaction,
}
use ops_marketplace_server.Orders.Repository.{
  deserialize_address, entity_of, row_from, new_row, map_to_domain, map_found, find_by_id,
  update_row, save_found, save,
}
use ops_marketplace_server.Orders.UseCases.{changed, execute}

-- The row that `save` leaves, for what was there.
abbrev pub stored : Date → Order → Option OrderRow → OrderRow
stored now o none = new_row now o
stored now o (some r) = row_from now o r

module _ (C : Client) (t : Tables) where
  abbrev pub Sees : C.State → Type 0
  Sees u = C.seen u ≡ t

  abbrev pub Saved : Date → Order → Order → C.State → Type 0
  Saved now x o u =
      ((C.seen u).orders x.id ≡ some (stored now x (t.orders x.id)))
      × ((o ≡ entity_of (stored now x (t.orders x.id)) x.shipping_address)
          × ((C.seen u).goods ≡ t.goods))

  -- The row is there, and the goods are as they were.
  abbrev There : String → OrderRow → C.State → Type 0
  There id row u = ((C.seen u).orders id ≡ some row) × ((C.seen u).goods ≡ t.goods)

  found-row :
      (id : String) (row : OrderRow) (found : Option OrderRow)
      → Triple C
          (λ u. ((C.seen u).orders id ≡ found) × (IsLive C u × There id row u))
          (or_throw C record_missing found)
          (λ y u. IsLive C u × ((y ≡ row) × There id row u))
  found-row id row none = λ s p. tt
  found-row id row (some y) =
      λ s p. let same : some y ≡ some row = sym p.0 ∙ p.1.1.0 in (p.1.0, (cc same, p.1.1))

  save_found-Saved :
      (now : Date) (x : Order) (old : Option OrderRow)
      → t.orders x.id ≡ old
      → Triple C Sees (save_found C now x old) (Saved now x)
  unfolding map_to_domain row_from
  save_found-Saved now x none was =
      Triple-write C Sees (There x.id (new_row now x)) (Saved now x)
        (C.put_order x.id (new_row now x)) (λ _. map_to_domain C (new_row now x))
        (λ u live p. (rw (C.put_order_lem, eq_refl x.id) refl, rw (C.put_order_lem, p) refl))
        (λ s p. rw was (p.0, (refl, p.1)))
  save_found-Saved now x (some r) was =
      let row = row_from now x r in
      let Written = λ (y : OrderRow) (u : C.State). (y ≡ row) × There x.id row u in
      Triple-bind C Sees Written (Saved now x) (update_row C now x r) (map_to_domain C)
        (Triple-transaction C Sees Written
          (λ before.
            write C (C.put_order x.id row)
            >> (query C (λ t. t.orders x.id) >>= or_throw C record_missing))
          (λ before.
            Triple-write C Sees (There x.id row) (λ y u. IsLive C u × Written y u)
              (C.put_order x.id row)
              (λ _. query C (λ t. t.orders x.id) >>= or_throw C record_missing)
              (λ u live p. (rw (C.put_order_lem, eq_refl x.id) refl, rw (C.put_order_lem, p) refl))
              (Triple-read C (There x.id row) (λ y u. IsLive C u × Written y u) (λ t. t.orders x.id)
                (or_throw C record_missing) (λ found. found-row x.id row found))))
        (λ y s p.
          subst (λ y. Returns (Saved now x) (map_to_domain C y s)) (sym p.0)
            (rw was (p.1.0, (refl, p.1.1))))

  save-Saved : (now : Date) (x : Order) → Triple C Sees (save C now x) (Saved now x)
  unfolding save
  save-Saved now x =
      Triple-read C Sees (Saved now x) (λ v. v.orders x.id) (save_found C now x)
        (λ old s p.
          save_found-Saved now x old (ap (λ (v : Tables). v.orders x.id) (sym p.1.1) ∙ p.0) s p.1.1)

  -- The row that was found, read as an entity, and what the method made of that.
  abbrev pub Executed : Action Order Order.Error Void → Date → String → Order → C.State → Type 0
  Executed m now id o u =
      (r : OrderRow) × ((address : String) × ((x : Order) × (((t.orders id ≡ some r)
              × (deserialize_address r.shipping_address ≡ some address))
            × ((m (entity_of r address) ≡ (ok tt, x)) × Saved now x o u))))

  -- What was read of the row with an id.
  abbrev Known : String → Option Order → Type 0
  Known id o =
      (x : Order)
      → o ≡ some x
      → (r : OrderRow) × ((address : String) × (((t.orders id ≡ some r)
              × (deserialize_address r.shipping_address ≡ some address))
            × (x ≡ entity_of r address)))

  map_found-Known :
      (id : String) (found : Option OrderRow)
      → t.orders id ≡ found
      → Triple C Sees (map_found C found) (λ o u. Sees u × Known id o)
  unfolding map_to_domain
  map_found-Known id none was = λ s p. (p, λ x e. absurd (cc e))
  map_found-Known id (some r) was =
      let Q = λ (o : Option Order) (u : C.State). Sees u × Known id o in
      Triple-bind C Sees (λ y u. Sees u × Known id (some y)) Q (map_to_domain C r)
        (λ y. pure (some y))
        (Triple-found C Sees (λ y u. Sees u × Known id (some y)) address_unreadable
          (deserialize_address r.shipping_address) (λ address. pure (entity_of r address))
          (λ address readable s p. (p, λ x e. (r, (address, ((was, readable), cc e))))))
        (λ y s p. p)

  find_by_id-Known : (id : String) → Triple C Sees (find_by_id C id) (λ o u. Sees u × Known id o)
  unfolding find_by_id
  find_by_id-Known id =
      Triple-read C Sees (λ o u. Sees u × Known id o) (λ v. v.orders id) (map_found C)
        (λ found s p.
          map_found-Known id found (ap (λ (v : Tables). v.orders id) (sym p.1.1) ∙ p.0) s p.1.1)

  changed-Executed :
      (m : Action Order Order.Error Void) (now : Date) (id : String) (x : Order)
      → Known id (some x)
      → (result : Result Order.Error Void × Order) → m x ≡ result
      → Triple C Sees (changed C result >>= save C now) (Executed m now id)
  changed-Executed m now id x known (ok v, y) e s p =
      let (r, (address, (read, is_x))) = known x refl in
      more (Saved now y) (Executed m now id) (save C now y s)
        (λ o u saved. (r, (address, (y, (read, (subst (λ z. m z ≡ (ok tt, y)) is_x e, saved))))))
        (save-Saved now y s p)
  changed-Executed m now id x known (err z, y) e s p = tt

  pub execute-Executed :
      (m : Action Order Order.Error Void) (now : Date) (id : String)
      → Triple C Sees (execute C m now id) (Executed m now id)
  unfolding execute
  execute-Executed m now id =
      let call = λ (x : Order). changed C (m x) >>= save C now in
      let rest = λ (found : Option Order). or_throw C order_missing found >>= call in
      Triple-bind C Sees (λ o u. Sees u × Known id o) (Executed m now id) (find_by_id C id) rest
        (find_by_id-Known id)
        (λ found s p.
          Triple-found C Sees (Executed m now id) order_missing found call
            (λ x is_x. changed-Executed m now id x (subst (Known id) is_x p.1) (m x) refl) s p.0)

-- The row has what the entity has in every column but the three dates, which are those of the row
-- that was there, or absent.
abbrev kept : (OrderRow → Option Date) → Option OrderRow → Option Date
kept date none = none
kept date (some r) = date r

abbrev pub Stores : Order → Option OrderRow → OrderRow → Type 0
Stores x old row =
    ((row.buyer_id ≡ x.buyer_id)
      × ((row.seller_id ≡ x.seller_id)
          × ((row.status ≡ x.order_status)
              × ((row.payment_status ≡ x.payment_status)
                  × ((row.total_price ≡ x.grand_total)
                      × ((row.notes ≡ x.notes) × (row.payment_intent_id ≡ x.payment_intent_id)))))))
    × ((row.shipped_at ≡ kept (λ r. r.shipped_at) old)
        × ((row.delivered_at ≡ kept (λ r. r.delivered_at) old)
            × (row.cancelled_at ≡ kept (λ r. r.cancelled_at) old)))

-- What a caller gets back, next to the entity that the method left.
abbrev pub Answers : Order → Option OrderRow → Order → Type 0
Answers x old o =
    ((o.order_status ≡ x.order_status)
      × ((o.payment_status ≡ x.payment_status)
          × ((o.notes ≡ x.notes) × (o.shipping_address ≡ x.shipping_address))))
    × (((o.grand_total ≡ x.grand_total)
          × ((o.subtotal ≡ x.grand_total) × (o.shipping_fee ≡ x.grand_total)))
        × ((o.shipped_at ≡ kept (λ r. r.shipped_at) old)
            × ((o.delivered_at ≡ kept (λ r. r.delivered_at) old)
                × (o.cancelled_at ≡ kept (λ r. r.cancelled_at) old))))

stored-Stores : (now : Date) (x : Order) (old : Option OrderRow) → Stores x old (stored now x old)
unfolding row_from
stored-Stores now x none =
    ((refl, (refl, (refl, (refl, (refl, (refl, refl)))))), (refl, (refl, refl)))
stored-Stores now x (some r) =
    ((refl, (refl, (refl, (refl, (refl, (refl, refl)))))), (refl, (refl, refl)))

stored-Answers :
    (now : Date) (x : Order) (old : Option OrderRow)
    → Answers x old (entity_of (stored now x old) x.shipping_address)
unfolding row_from entity_of
stored-Answers now x none =
    ((refl, (refl, (refl, refl))), ((refl, (refl, refl)), (refl, (refl, refl))))
stored-Answers now x (some r) =
    ((refl, (refl, (refl, refl))), ((refl, (refl, refl)), (refl, (refl, refl))))

-- Over every database: if a use case that calls a method of an order returns, the order's row was
-- there and its address was readable, and the method returned on the entity that the row is read as.
-- The row under the entity's id then has the buyer, the seller, both statuses, the grand total, the
-- notes and the payment intent of the entity that the method left, but the dates of shipping,
-- delivery and cancelling that the row had before, whatever the method set; the order that is
-- returned has the same statuses, notes and address as that entity, those earlier dates, and the
-- grand total for its subtotal and its shipping fee too. Products, stock, carts and addresses are
-- as they were.
pub execute_lem :
    (C : Client) (m : Action Order Order.Error Void) (now : Date) (id : String) (s : C.State)
    {o : Order} {u : C.State}
    → execute C m now id s ≡ (ok o, u)
    → (r : OrderRow) × ((address : String) × ((x : Order) × ((row : OrderRow) × ((((C.seen s).orders
                    id
                  ≡ some r)
                × (deserialize_address r.shipping_address ≡ some address))
              × ((m (entity_of r address) ≡ (ok tt, x))
                  × (((C.seen u).orders x.id ≡ some row)
                      × (Stores x ((C.seen s).orders x.id) row
                          × (Answers x ((C.seen s).orders x.id) o
                              × ((C.seen u).goods ≡ (C.seen s).goods)))))))))
execute_lem C m now id s {o = o} {u = u} e =
    let (r, (address, (x, (read, (called, (saved, (is_o, goods))))))) =
      returned (Executed C (C.seen s) m now id) (execute-Executed C (C.seen s) m now id s refl) e in
    let old = (C.seen s).orders x.id in
    (
      r,
      (
        address,
        (
          x,
          (
            stored now x old,
            (
              read,
              (
                called,
                (
                  saved,
                  (
                    stored-Stores now x old,
                    (subst (λ y. Answers x old y) (sym is_o) (stored-Answers now x old), goods),
                  ),
                ),
              ),
            ),
          ),
        ),
      ),
    )
