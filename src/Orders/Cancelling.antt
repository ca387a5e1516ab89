-- ===== src/Orders/Cancelling.antt =====
-- What `cancelOrder` of src/modules/order/orders.service.ts has done when it returns.
use ops_marketplace_server.Base.{
  ◌≡◌, refl, sym, ap, subst, ◌∙◌, ◌==◌, arith, true, not, Option, none, some, String, Result, ok,
  Void, throw_if, ◌>>◌,
}
use ops_marketplace_server.Ids.{Date}
use ops_marketplace_server.Order
use ops_marketplace_server.Order.{Order, OrderStatus, equals}
use ops_marketplace_server.Database.{
  Client, Tables, OrderRow, order_missing, order_not_pending, or_throw,
}
use ops_marketplace_server.Database.Returns.{returned, more}
use ops_marketplace_server.Database.Triples.{
  Triple, IsLive, Triple-bind, Triple-read, Triple-throw_if,
}
use ops_marketplace_server.Orders.{items_of, of_buyer, get_order, release_order, cancel_order}
use ops_marketplace_server.Orders.Repository.{entity_of, row_from}
use ops_marketplace_server.Orders.UseCases.{cancel_use_case}
use ops_marketplace_server.Orders.Release.{units_of, Lowered, Left, release_order-Left}
use ops_marketplace_server.Orders.Saving.{Executed, stored, execute-Executed}

is_pending :
    (status : OrderStatus) → equals status OrderStatus.pending ≡ true → status ≡ OrderStatus.pending
unfolding equals
is_pending OrderStatus.pending e = refl
is_pending status e = ground (arith, e)

-- The entity's method on a pending order.
abbrev cancelled_at : Date → Date → Order → Order
cancelled_at at touched x = record x {
  order_status = OrderStatus.cancelled;
  cancelled_at = some at;
  updated_at = touched;
}

cancel-pending :
    (at touched : Date) (x : Order)
    → equals x.order_status OrderStatus.pending ≡ true
    → (Order.cancel none at touched x).1 ≡ cancelled_at at touched x
unfolding Order.cancel Order.update_order_status equals
cancel-pending at touched x pending = ground arith

stored-status :
    (now : Date) (x : Order) (old : Option OrderRow) → (stored now x old).status ≡ x.order_status
unfolding row_from
stored-status now x none = refl
stored-status now x (some r) = refl

-- The entity that a row was read as, cancelled.
read-cancelled :
    (at touched : Date) (r : OrderRow) (address : String) (x : Order)
    → equals r.status OrderStatus.pending ≡ true
    → Order.cancel none at touched (entity_of r address) ≡ (ok tt, x)
    → (x.order_status ≡ OrderStatus.cancelled) × (x.id ≡ r.id)
unfolding entity_of
read-cancelled at touched r address x pending e =
    let made : x ≡ cancelled_at at touched (entity_of r address) =
      sym (ap (λ (p : Result Order.Error Void × Order). p.1) e)
      ∙ cancel-pending at touched (entity_of r address) pending in
    (ap (λ (y : Order). y.order_status) made, ap (λ (y : Order). y.id) made)

module _ (C : Client) (user id : String) (at touched now : Date) (t : Tables) where
  -- What `cancelOrder` found, and what it leaves and returns.
  abbrev pub Cancelled : Order → C.State → Type 0
  Cancelled o u =
      (r : OrderRow) × ((((t.orders id ≡ some r) × ((r.buyer_id == user) ≡ true))
          × (equals r.status OrderStatus.pending ≡ true))
        × (Lowered (λ p. units_of p r.items) t.goods (C.seen u).goods
            × ((o.order_status ≡ OrderStatus.cancelled)
                × ((row : OrderRow) × (((C.seen u).orders r.id ≡ some row)
                      × (row.status ≡ OrderStatus.cancelled))))))

  executed :
      (r : OrderRow) (v : C.State) (o : Order) (u : C.State)
      → t.orders id ≡ some r
      → (r.buyer_id == user) ≡ true
      → equals r.status OrderStatus.pending ≡ true
      → Left C t.goods t.orders (λ p. units_of p (items_of (t.orders id))) v
      → Executed C (C.seen v) (Order.cancel none at touched) now id o u
      → Cancelled o u
  unfolding entity_of
  executed r v o u there buyer pending left (r', (address, (x, (read, (e, saved))))) =
      let same : r' ≡ r = cc (read.0, left.1.0, there) in
      let (status, is_id) =
        read-cancelled at touched r address x pending
          (subst (λ q. Order.cancel none at touched (entity_of q address) ≡ (ok tt, x)) same e) in
      let row = stored now x ((C.seen v).orders x.id) in
      let row_status = stored-status now x ((C.seen v).orders x.id) ∙ status in
      let low =
        subst (λ g. Lowered (λ p. units_of p (items_of (t.orders id))) t.goods g) (sym saved.1.1)
          left.1.1 in
      (
        r,
        (
          ((there, buyer), pending),
          (
            subst (λ q. Lowered (λ p. units_of p (items_of q)) t.goods (C.seen u).goods) there low,
            (
              ap (λ (y : Order). y.order_status) saved.1.0 ∙ row_status,
              (row, (subst (λ k. (C.seen u).orders k ≡ some row) is_id saved.0, row_status)),
            ),
          ),
        ),
      )

  -- The rest of the call on the order that was found.
  found-Cancelled :
      (r : OrderRow)
      → t.orders id ≡ some r
      → (r.buyer_id == user) ≡ true
      → Triple C
          (λ u. IsLive C u × (C.seen u ≡ t))
          (throw_if (not (equals r.status OrderStatus.pending)) order_not_pending
            >> (release_order C id >> cancel_use_case C none at touched now id))
          Cancelled
  found-Cancelled r there buyer =
      let P = λ (u : C.State). IsLive C u × (C.seen u ≡ t) in
      let L = λ (_ : Void) (v : C.State).
        Left C t.goods t.orders (λ p. units_of p (items_of (t.orders id))) v in
      let cancel = cancel_use_case C none at touched now id in
      Triple-throw_if C P Cancelled (not (equals r.status OrderStatus.pending)) order_not_pending
        (release_order C id >> cancel)
        (λ pending.
          Triple-bind C P L Cancelled (release_order C id) (λ _. cancel) (release_order-Left C id t)
            (λ _ v left.
              more (Executed C (C.seen v) (Order.cancel none at touched) now id) Cancelled
                (cancel v)
                (λ o u done. executed r v o u there buyer (ground (arith, pending)) left done)
                (execute-Executed C (C.seen v) (Order.cancel none at touched) now id v refl)))

  -- The order of the buyer, or none.
  order_of_buyer :
      (found : Option OrderRow) (r : OrderRow)
      → of_buyer user found ≡ some r
      → (found ≡ some r) × ((r.buyer_id == user) ≡ true)
  order_of_buyer none r e = absurd (cc e)
  order_of_buyer (some q) r e = (ground (arith, e), ground (arith, e))

  found-order :
      (found : Option OrderRow)
      → Triple C
          (λ u. (of_buyer user ((C.seen u).orders id) ≡ found) × (IsLive C u × (C.seen u ≡ t)))
          (or_throw C order_missing found)
          (λ r u. (of_buyer user (t.orders id) ≡ some r) × (IsLive C u × (C.seen u ≡ t)))
  found-order none = λ s p. tt
  found-order (some r) =
      λ s p. (ap (λ (v : Tables). of_buyer user (v.orders id)) (sym p.1.1) ∙ p.0, p.1)

  cancel_order-Cancelled :
      Triple C (λ u. C.seen u ≡ t) (cancel_order C user id at touched now) Cancelled
  unfolding cancel_order get_order
  cancel_order-Cancelled =
      let P = λ (u : C.State). C.seen u ≡ t in
      let rest = λ (r : OrderRow).
        throw_if (not (equals r.status OrderStatus.pending)) order_not_pending
        >> (release_order C id >> cancel_use_case C none at touched now id) in
      let Found = λ (r : OrderRow) (u : C.State).
        (of_buyer user (t.orders id) ≡ some r) × (IsLive C u × P u) in
      Triple-bind C P Found Cancelled (get_order C user id) rest
        (Triple-read C P Found (λ v. of_buyer user (v.orders id)) (or_throw C order_missing)
          (λ found s p. found-order found s p))
        (λ r s p.
          let (there, buyer) = order_of_buyer (t.orders id) r p.0 in
          found-Cancelled r there buyer s p.1)

-- Over every database: if cancelOrder returns, the order was there, its buyer is the user and it was
-- pending; each reservation that was there is lower by the units of its product in the order; the order
-- that is returned is cancelled; and so is the row under the order's id.
pub cancel_order_lem :
    (C : Client) (user id : String) (at touched now : Date) (s : C.State) {o : Order} {u : C.State}
    → cancel_order C user id at touched now s ≡ (ok o, u)
    → Cancelled C user id at touched now (C.seen s) o u
cancel_order_lem C user id at touched now s e =
    returned (Cancelled C user id at touched now (C.seen s))
      (cancel_order-Cancelled C user id at touched now (C.seen s) s refl) e
