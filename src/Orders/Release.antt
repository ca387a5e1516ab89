-- ===== src/Orders/Release.antt =====
-- What cancelOrder releases of the reservations of an order, and what becomes of an order whose
-- address its repository cannot read.
use ops_marketplace_server.Base.{
  Action, inr, inl, Bool-cases, ℤ, pos, ◌+ℤ◌, ◌-ℤ◌, ◌≡◌, refl, sym, ap, subst, ◌∙◌, ◌==◌, eq_iff,
  int_laws, bind_ok, bind_err, true, not, if◌then◌else◌, Option, none, some, List, [], ◌∷◌, String,
  ok, err, Void, throw_if, ◌>>=◌, ◌>>◌,
}
use ops_marketplace_server.Ids.{Date}
use ops_marketplace_server.Order
use ops_marketplace_server.Order.{Order, OrderStatus, equals}
use ops_marketplace_server.Database.{
  Client, Tables, Goods, InventoryRow, OrderRow, OrderItemRow, AddressRow, StoredAddress, put_row,
  address_unreadable, order_missing, order_not_pending, query, or_throw,
}
use ops_marketplace_server.Database.Returns.{Returns, returned, transaction-Returns}
use ops_marketplace_server.Database.Triples.{
  Triple, IsLive, Triple-bind, Triple-more, Triple-read, Triple-edit_last,
}
use ops_marketplace_server.Ledger.Posting.{query_live}
use ops_marketplace_server.Orders.{
  release, items_of, of_buyer, get_order, release_found, release_product, release_items,
  release_order, cancel_order,
}
use ops_marketplace_server.Orders.Repository.{save, map_to_domain, map_found, find_by_id}
use ops_marketplace_server.Orders.UseCases.{changed, cancel_use_case, execute}

-- The units of a product in the items of an order.
unfoldable pub units_of : String → List OrderItemRow → ℤ
units_of p [] = pos 0
units_of p (i ∷ is) = (if i.product_id == p then i.quantity else pos 0) +ℤ units_of p is

-- Each reservation that was there is lower by that much.
abbrev pub Lowered : (String → ℤ) → Goods → Goods → Type 0
Lowered d g g' =
    (p : String) (row : InventoryRow)
    → g.inventories p ≡ some row
    → (row' : InventoryRow) × ((g'.inventories p ≡ some row')
        × (row'.reserved ≡ row.reserved -ℤ d p))

release-Lowered :
    (g g' : Goods) (i : OrderItemRow) (row : InventoryRow) (d : String → ℤ)
    → g'.inventories i.product_id ≡ some row
    → Lowered d g g'
    → Lowered
        (λ p. d p +ℤ (if i.product_id == p then i.quantity else pos 0))
        g
        (record g' { inventories = put_row i.product_id (release i.quantity row) g'.inventories })
release-Lowered g g' i row d there low p was is_was =
    let (now, (found, lower)) = low p was is_was in
    elim (Bool-cases (i.product_id == p)) [
      | inl same ↦ (
        release i.quantity row,
        grind (int_laws, same, eq_iff i.product_id p, there, found, lower),
      )
      | inr other ↦ (now, grind (int_laws, other, found, lower))
    ]

module _ (C : Client) (g : Goods) (orders : String → Option OrderRow) where
  abbrev pub Left : (String → ℤ) → C.State → Type 0
  Left d u = IsLive C u × (((C.seen u).orders ≡ orders) × Lowered d g (C.seen u).goods)

  Left-same : (d e : String → ℤ) (u : C.State) → ((p : String) → d p ≡ e p) → Left d u → Left e u
  Left-same d e u same (live, (kept, low)) = (
    live,
    (
      kept,
      λ p row there.
          let (row', (found, lower)) = low p row there in
          (row', (found, subst (λ n. row'.reserved ≡ row.reserved -ℤ n) (same p) lower)),
    ),
  )

  release_found-Left :
      (i : OrderItemRow) (d : String → ℤ) (row : Option InventoryRow)
      → Triple C
          (λ u. ((C.seen u).goods.inventories i.product_id ≡ row) × (IsLive C u × Left d u))
          (release_found C i.product_id i.quantity row)
          (λ _ u. Left (λ p. d p +ℤ (if i.product_id == p then i.quantity else pos 0)) u)
  release_found-Left i d none = λ s p. tt
  release_found-Left i d (some row) =
      Triple-edit_last C _
        (λ _ u. Left (λ p. d p +ℤ (if i.product_id == p then i.quantity else pos 0)) u)
        (λ g. record g {
          inventories = put_row i.product_id (release i.quantity row) g.inventories;
        })
        (λ u live p.
          rw C.put_goods_lem
            (live, (p.1.1.1.0, release-Lowered g (C.seen u).goods i row d p.0 p.1.1.1.1)))

  release_items-Left :
      (is : List OrderItemRow) (d : String → ℤ)
      → Triple C (Left d) (release_items C is) (λ _ u. Left (λ p. d p +ℤ units_of p is) u)
  unfolding release_items release_product units_of
  release_items-Left [] d = λ s p. Left-same d (λ p. d p +ℤ pos 0) s (λ q. grind int_laws) p
  release_items-Left (i ∷ is) d =
      let d' = λ (p : String). d p +ℤ (if i.product_id == p then i.quantity else pos 0) in
      let R = λ (_ : Void) (u : C.State). Left (λ p. d p +ℤ units_of p (i ∷ is)) u in
      Triple-bind C (Left d) (λ _ u. Left d' u) R (release_product C i.product_id i.quantity)
        (λ _. release_items C is)
        (Triple-read C (Left d) (λ _ u. Left d' u) (λ t. t.goods.inventories i.product_id)
          (release_found C i.product_id i.quantity) (release_found-Left i d))
        (λ _.
          Triple-more C (Left d') (λ _ u. Left (λ p. d' p +ℤ units_of p is) u) R
            (release_items C is) (release_items-Left is d')
            (λ _ u q.
              Left-same (λ p. d' p +ℤ units_of p is) (λ p. d p +ℤ units_of p (i ∷ is)) u
                (λ q. grind int_laws) q))

refl-Lowered : (g : Goods) → Lowered (λ p. pos 0) g g
refl-Lowered g p row there = (row, (there, grind int_laws))

pub release_order-Left :
    (C : Client) (id : String) (t : Tables)
    → Triple C
        (λ v. IsLive C v × (C.seen v ≡ t))
        (release_order C id)
        (λ _ v. Left C t.goods t.orders (λ p. units_of p (items_of (t.orders id))) v)
unfolding release_order
release_order-Left C id t s (live, here) =
    let is = items_of (t.orders id) in
    let L = Left C t.goods t.orders in
    let Q = λ (_ : Void) (v : C.State). L (λ p. units_of p is) v in
    let body = λ (before : C.State). query C (λ t. items_of (t.orders id)) >>= release_items C in
    let Start = λ (v : C.State). (items_of ((C.seen v).orders id) ≡ is) × L (λ p. pos 0) v in
    transaction-Returns C Q body s (
      Triple-read C Start (λ x v. IsLive C v × Q x v) (λ t. items_of (t.orders id))
        (release_items C)
        (λ read v p.
          let same : is ≡ read = sym p.1.1.0 ∙ p.0 in
          subst (λ read. Returns (λ x w. IsLive C w × Q x w) (release_items C read v)) same
            (Triple-more C (L (λ p. pos 0)) (λ x w. L (λ p. pos 0 +ℤ units_of p is) w)
              (λ x w. IsLive C w × Q x w) (release_items C is)
              (release_items-Left C t.goods t.orders is (λ p. pos 0))
              (λ x w q. (
                q.0,
                Left-same C t.goods t.orders (λ p. pos 0 +ℤ units_of p is) (λ p. units_of p is) w
                    (λ p. grind int_laws) q,
              ))
              v p.1.1.1))
        s
        (
          ap (λ (v : Tables). items_of (v.orders id)) here,
          (live, (ap (λ (v : Tables). v.orders) here, rw here (refl-Lowered t.goods))),
        ))

-- The use case on an order whose address is the columns that a checkout wrote.
execute-columns :
    (C : Client) (id : String) (o : OrderRow) (a : AddressRow) (m : Action Order Order.Error Void)
    (now : Date) (s : C.State)
    → IsLive C s
    → (C.seen s).orders id ≡ some o
    → o.shipping_address ≡ StoredAddress.of_columns a
    → execute C m now id s ≡ (err address_unreadable, s)
unfolding execute find_by_id map_to_domain
execute-columns C id o a m now s live there columns =
    bind_err (find_by_id C id)
      (λ found. or_throw C order_missing found >>= λ o. changed C (m o) >>= λ o'. save C now o')
      (bind_ok (query C (λ t. t.orders id)) (map_found C) (query_live C s live (λ t. t.orders id))
        ∙ rw (there, columns) refl)

get_order-found :
    (C : Client) (user id : String) (o : OrderRow) (s : C.State)
    → IsLive C s
    → (C.seen s).orders id ≡ some o
    → (o.buyer_id == user) ≡ true
    → get_order C user id s ≡ (ok o, s)
unfolding get_order
get_order-found C user id o s live there buyer =
    bind_ok (query C (λ t. of_buyer user (t.orders id))) (or_throw C order_missing)
      (query_live C s live (λ t. of_buyer user (t.orders id)))
    ∙ rw (there, buyer) refl

-- Over every database that is not given up: if the user is the buyer of a pending order that a checkout
-- stored, its address the columns of the checkout, and the transaction that releases the order's items
-- returns, then cancelOrder throws; the orders are left as they were, so the order is still
-- pending and the same call can be made again; and each reservation that was there is lower by
-- the units of its product in the order.
pub cancel_order_again :
    (C : Client) (user id : String) (o : OrderRow) (a : AddressRow) (at touched now : Date)
    (s : C.State) {u : C.State}
    → IsLive C s
    → (C.seen s).orders id ≡ some o
    → (o.buyer_id == user) ≡ true
    → equals o.status OrderStatus.pending ≡ true
    → o.shipping_address ≡ StoredAddress.of_columns a
    → release_order C id s ≡ (ok tt, u)
    → (cancel_order C user id at touched now s ≡ (err address_unreadable, u))
      × ((IsLive C u × ((C.seen u).orders ≡ (C.seen s).orders))
          × Lowered (λ p. units_of p o.items) (C.seen s).goods (C.seen u).goods)
unfolding cancel_order
cancel_order_again C user id o a at touched now s {u = u} live there buyer pending columns
      released =
    let left =
      returned
        (λ _ v.
          Left C (C.seen s).goods (C.seen s).orders
            (λ p. units_of p (items_of ((C.seen s).orders id))) v)
        (release_order-Left C id (C.seen s) s (live, refl)) released in
    let still : (C.seen u).orders id ≡ some o =
      ap (λ (f : String → Option OrderRow). f id) left.1.0 ∙ there in
    let failed =
      execute-columns C id o a (Order.cancel none at touched) now u left.0 still columns in
    let rest = λ (r : OrderRow).
      throw_if (not (equals r.status OrderStatus.pending)) order_not_pending
      >> (release_order C id >> cancel_use_case C none at touched now id) in
    (
      bind_ok (get_order C user id) rest (get_order-found C user id o s live there buyer)
          ∙ (bind_ok (throw_if (not (equals o.status OrderStatus.pending)) order_not_pending)
                (λ _. release_order C id >> cancel_use_case C none at touched now id) {s = s}
                {s' = s} {a = tt} (rw pending refl)
              ∙ (bind_ok (release_order C id) (λ _. cancel_use_case C none at touched now id)
                    released
                  ∙ failed)),
      (
        (left.0, left.1.0),
        subst (λ r. Lowered (λ p. units_of p (items_of r)) (C.seen s).goods (C.seen u).goods) there
            left.1.1,
      ),
    )
