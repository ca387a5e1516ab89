-- ===== src/Checkout/Bounds.antt =====
-- The calls on the carts and their checkouts, one after another: the reservations stay within the
-- stock, whether a call returns or throws.
use ops_marketplace_server.Base.{
  is_blank, pure, ltb_ℤ, bind_holds, ◌≤◌, arith, ℕ, pos, ◌≡◌, refl, sym, subst, int_laws, is_empty,
  is_empty_text, Option, none, some, List, [], ◌∷◌, String, throw_if, ◌>>=◌, ◌>>◌,
}
use ops_marketplace_server.Database.{
  amount_negative, Client, Query, Tables, Goods, CartRow, CartStatus, AddressRow, OrderRow,
  PaymentRow, find_active_cart, items_of_cart, set_cart_status, Error, cart_is_empty,
  address_missing, address_required, query, transaction, or_throw,
}
use ops_marketplace_server.Database.Leaves.{
  Leaves, Leaves-after, Leaves-read, Leaves-found, Leaves-throw_if, Leaves-transaction,
}
use ops_marketplace_server.Database.Triples.{Triple, Triple-more, Triple-edit}
use ops_marketplace_server.Ledger.Keeps.{
  Always-throw_if, Always-bind, Always, Always-read, Always-or_throw,
}
use ops_marketplace_server.Carts.{get_cart, add_item, update_item, remove_item, clear_cart}
use ops_marketplace_server.Carts.Unique.{HasStock, HasUniqueItems}
use ops_marketplace_server.Carts.Sound.{
  IsSound, Sound, get_cart-Sound, add_item-Sound, update_item-Sound, remove_item-Sound,
  clear_cart-Sound,
}
use ops_marketplace_server.Checkout.{
  id_empty, without_postal_code, Group, Request, group_lines, check_lines, throw_some, of_user,
  find_address, cart_lines, checkout_body, place_orders, publish_orders, create_from_lines,
  create_orders_from_cart, use_case_body, checkout_lines, checkout,
}
use ops_marketplace_server.Checkout.Groups.{sum_lines, sum_groups, sum_groups-group}
use ops_marketplace_server.Checkout.Stock.{
  want, HasRoom, count_lines, count_lines-cart, lines_of-AreRead, check_lines-HasRoom,
}
use ops_marketplace_server.Checkout.Reserved.{plus, Room, Room-same, body-Room}

-- A call of a user. The ids of new rows are chosen by the database.
pub data Call : Type 0 where
  show_cart : (new_id user : String) → Call
  add : (new_id new_item user product : String) → ℕ → Call
  update : (user product : String) → ℕ → Call
  remove : (user product : String) → Call
  clear : (user : String) → Call
  order_cart : Request → Call
  check_out : Request → Call

HasRoom-none : (g : Goods) → HasRoom (λ _. pos 0) g → HasStock g
HasRoom-none g room p row there = let was = room p row there in grind (int_laws, was)

module _ (C : Client) where
  -- The state after a call, whether it returned or threw.
  unfoldable pub after : Call → C.State → C.State
  after (show_cart new_id user) s = (get_cart C new_id user s).1
  after (add new_id new_item user product n) s = (add_item C new_id new_item user product n s).1
  after (update user product n) s = (update_item C user product n s).1
  after (remove user product) s = (remove_item C user product s).1
  after (clear user) s = (clear_cart C user s).1
  after (order_cart r) s = (create_orders_from_cart C r s).1
  after (check_out r) s = (checkout C r s).1

  unfoldable pub run : List Call → C.State → C.State
  run [] s = s
  run (c ∷ cs) s = run cs (after c s)

  -- The state is that which was read, and it is sound.
  abbrev Read : Tables → C.State → Type 0
  Read t u = (C.seen u ≡ t) × Sound C u

  sound : (t : Tables) (u : C.State) → Read t u → IsSound (C.seen u)
  sound t u p = p.1

  address-Read : (t : Tables) (r : Request) → Always C (Read t) (find_address C r)
  address-Read t r =
      Always-read C (Read t) (λ v. of_user C r.user_id (v.goods.addresses r.address_id))
        (or_throw C address_missing) (Always-or_throw C (Read t) address_missing)

  throw_some-Leaves :
      {A : Type 0} (t : Tables) (o : Option Error) (k : Query C A)
      → (o ≡ none → Leaves C IsSound (Read t) k)
      → Leaves C IsSound (Read t) (throw_some C o >> k)
  throw_some-Leaves t none k h s p = h refl s p
  throw_some-Leaves t (some e) k h s p = p.1

  few_lines :
      (t : Tables) (cart : CartRow)
      → HasUniqueItems t.goods.cart_items
      → (p : String) → count_lines p (cart_lines C t cart) ≤ 1
  few_lines t cart items p =
      omega (arith, count_lines-cart t.goods cart.id p t.goods.cart_items, items cart.id p)

  -- What the lines that were tested ask for is there.
  lines-Room :
      (t : Tables) (cart : CartRow)
      → check_lines (cart_lines C t cart) ≡ none
      → (u : C.State) → Read t u
      → Room C (plus (λ p. sum_groups (want p) (group_lines (cart_lines C t cart))) (λ _. pos 0)) u
  lines-Room t cart checked u p =
      let (stock, items) = subst IsSound p.0 p.1 in
      let ls = cart_lines C t cart in
      let is = items_of_cart cart.id t.goods.cart_items in
      let few = λ (q : String). few_lines t cart items q in
      let room = check_lines-HasRoom t.goods ls (lines_of-AreRead t.goods is) few checked stock in
      Room-same C (λ q. sum_lines (want q) ls)
        (plus (λ q. sum_groups (want q) (group_lines ls)) (λ _. pos 0)) u
        (λ q. let same = sum_groups-group (want q) ls in grind (int_laws, same))
        (subst (λ v. HasRoom (λ q. sum_lines (want q) ls) v.goods) (sym p.0) room, p.1.1)

  asked-Sound :
      (r : Request) (cart_id : String) (a : AddressRow) (gs : List Group)
      → Triple C
          (Room C (plus (λ q. sum_groups (want q) gs) (λ _. pos 0)))
          (checkout_body C r cart_id a gs)
          (λ _ u. IsSound (C.seen u))
  asked-Sound r cart_id a gs =
      Triple-more C (Room C (plus (λ q. sum_groups (want q) gs) (λ _. pos 0)))
        (λ _ u. Room C (λ _. pos 0) u) (λ _ u. IsSound (C.seen u)) (checkout_body C r cart_id a gs)
        (body-Room C r cart_id a gs (λ _. pos 0))
        (λ _ u room. (HasRoom-none (C.seen u).goods room.0, room.1))

  body-Sound :
      (t : Tables) (r : Request) (cart : CartRow) (a : AddressRow)
      → check_lines (cart_lines C t cart) ≡ none
      → Triple C
          (Read t)
          (checkout_body C r cart.id a (group_lines (cart_lines C t cart)))
          (λ _ u. IsSound (C.seen u))
  body-Sound t r cart a checked s p =
      asked-Sound r cart.id a (group_lines (cart_lines C t cart)) s (lines-Room t cart checked s p)

  rest-Sound :
      (t : Tables) (r : Request) (cart : CartRow)
      (body : AddressRow → Query C (List OrderRow × PaymentRow))
      → ((a : AddressRow)
          → check_lines (cart_lines C t cart) ≡ none
          → Triple C (Read t) (body a) (λ _ u. IsSound (C.seen u)))
      → Leaves C IsSound (Read t) (
          find_address C r >>= λ a.
          throw_some C (check_lines (cart_lines C t cart)) >> transaction C (λ before. body a))
  rest-Sound t r cart body h =
      let o = check_lines (cart_lines C t cart) in
      Leaves-after C IsSound (Read t) (sound t) (find_address C r)
        (λ a. throw_some C o >> transaction C (λ before. body a)) (address-Read t r)
        (λ a. throw_some-Leaves t o (transaction C (λ before. body a)) (λ checked.
          Leaves-transaction C IsSound (Read t) (sound t) (λ before. body a)
            (λ before. h a checked)))

  place_orders-Sound :
      (t : Tables) (r : Request) (cart : CartRow)
      → Leaves C IsSound (Read t) (place_orders C r cart.id (cart_lines C t cart))
  place_orders-Sound t r cart =
      let ls = cart_lines C t cart in
      let body = λ (a : AddressRow). checkout_body C r cart.id a (group_lines ls) in
      Leaves-throw_if C IsSound (Read t) (sound t) (is_empty ls) cart_is_empty
        (find_address C r >>= λ a.
          throw_some C (check_lines ls) >> transaction C (λ before. body a))
        (rest-Sound t r cart body (body-Sound t r cart))

  publish-Sound : (os : List OrderRow) → Always C (Sound C) (publish_orders C os)
  unfolding publish_orders
  publish-Sound [] = λ s p. p
  publish-Sound (o ∷ os) =
      let rest = publish_orders C os in
      let priced = throw_if (ltb_ℤ o.total_price (pos 0)) amount_negative >> rest in
      let sold = throw_if (is_blank o.seller_id) id_empty >> priced in
      let bought = throw_if (is_blank o.buyer_id) id_empty >> sold in
      Always-throw_if C (Sound C) (is_blank o.id) id_empty bought (
        Always-throw_if C (Sound C) (is_blank o.buyer_id) id_empty sold (
          Always-throw_if C (Sound C) (is_blank o.seller_id) id_empty priced (
            Always-throw_if C (Sound C) (ltb_ℤ o.total_price (pos 0)) amount_negative rest
              (publish-Sound os))))

  from_lines-Sound :
      (t : Tables) (r : Request) (cart : CartRow)
      → Leaves C IsSound (Read t) (create_from_lines C r cart.id (cart_lines C t cart))
  from_lines-Sound t r cart s p =
      let place = place_orders C r cart.id (cart_lines C t cart) in
      let placed = place_orders-Sound t r cart s p in
      bind_holds (Sound C) place (λ x. publish_orders C x.0 >> pure x) s placed
        (λ x.
          Always-bind C (Sound C) (publish_orders C x.0) (λ _. pure x) (publish-Sound x.0)
            (λ _ u q. q) (place s).1 placed)

  checkout_lines-Sound :
      (t : Tables) (r : Request) (cart : CartRow)
      → Leaves C IsSound (Read t) (checkout_lines C r cart.id (cart_lines C t cart))
  unfolding use_case_body
  checkout_lines-Sound t r cart =
      let ls = cart_lines C t cart in
      let body = λ (a : AddressRow). use_case_body C r cart.id a ls in
      let rest = find_address C r >>= λ a.
      throw_some C (check_lines ls) >> transaction C (λ before. body a) in
      Leaves-throw_if C IsSound (Read t) (sound t) (is_empty ls) cart_is_empty
        (throw_if (is_empty_text r.address_id) address_required >> rest)
        (Leaves-throw_if C IsSound (Read t) (sound t) (is_empty_text r.address_id) address_required
          rest
          (rest-Sound t r cart body (λ a checked.
            let asked = plus (λ q. sum_groups (want q) (group_lines ls)) (λ _. pos 0) in
            Triple-edit C (Read t) (Room C asked) (λ _ u. IsSound (C.seen u))
              (λ g. record g { carts = set_cart_status cart.id CartStatus.checking_out g.carts })
              (λ _. checkout_body C r cart.id (without_postal_code a) (group_lines ls))
              (λ u live p. rw C.put_goods_lem (lines-Room t cart checked u p))
              (asked-Sound r cart.id (without_postal_code a) (group_lines ls)))))

  head-Sound :
      (r : Request) (k : Tables → CartRow → Query C (List OrderRow × PaymentRow))
      → ((t : Tables) (cart : CartRow) → Leaves C IsSound (Read t) (k t cart))
      → Always C (Sound C) (
          query C (λ t. t) >>= λ t.
          or_throw C cart_is_empty (find_active_cart r.user_id t.goods.carts) >>= k t)
  head-Sound r k h =
      let found = λ (t : Tables).
        or_throw C cart_is_empty (find_active_cart r.user_id t.goods.carts) >>= k t in
      Leaves-read C IsSound (Sound C) (λ u p. p) (λ t. t) found
        (λ t.
          Leaves-found C IsSound (Read t) (sound t) cart_is_empty
            (find_active_cart r.user_id t.goods.carts) (k t) (λ cart _. h t cart))

  after-Sound : (c : Call) → (s : C.State) → Sound C s → Sound C (after c s)
  unfolding after create_orders_from_cart checkout
  after-Sound (show_cart new_id user) = get_cart-Sound C new_id user
  after-Sound (add new_id new_item user product n) = add_item-Sound C new_id new_item user product n
  after-Sound (update user product n) = update_item-Sound C user product n
  after-Sound (remove user product) = remove_item-Sound C user product
  after-Sound (clear user) = clear_cart-Sound C user
  after-Sound (order_cart r) =
      head-Sound r (λ t cart. create_from_lines C r cart.id (cart_lines C t cart))
        (λ t cart. from_lines-Sound t r cart)
  after-Sound (check_out r) =
      head-Sound r (λ t cart. checkout_lines C r cart.id (cart_lines C t cart))
        (λ t cart. checkout_lines-Sound t r cart)

-- Over every database: if no reservation is above its stock and no cart has two items of one
-- product, then the same holds after any list of calls that show a cart, add, change or remove an
-- item, clear a cart or check it out by either checkout, each run to its end before the next,
-- whether they return or throw.
pub run-Sound : (C : Client) (calls : List Call) (s : C.State) → Sound C s → Sound C (run C calls s)
unfolding run
run-Sound C [] s p = p
run-Sound C (c ∷ cs) s p = run-Sound C cs (after C c s) (after-Sound C c s p)
