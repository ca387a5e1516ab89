-- ===== src/Checkout/Ready.antt =====
-- The orders of a checkout can be created one after another.
use ops_marketplace_server.Base.{
  not, throw_if, map, true, ◌≡◌, refl, sym, subst, ◌==◌, All, false, Option, none, List, [], ◌∷◌,
  String, pure, ◌>>=◌, ◌>>◌,
}
use ops_marketplace_server.Database.{Client, AddressRow, OrderRow, find_payment, put_row}
use ops_marketplace_server.Database.Triples.{IsLive}
use ops_marketplace_server.Database.Succeeds.{
  Succeeds-after, Succeeds, Succeeds-bind, Succeeds-read, Succeeds-write,
}
use ops_marketplace_server.Checkout.{
  amount_too_large, total_of, fits_column, Group, Request, order_of, reserve_lines, insert_order,
  create_order, create_orders,
}
use ops_marketplace_server.Checkout.Stocked.{AreStocked, Kept, stocked-Kept, reserve_lines-Kept}

module _ (C : Client) where
  -- The ids of the orders are new, and no two of them are the same.
  abbrev pub AreNew : Request → List Group → (String → Option OrderRow) → Type 0
  AreNew r [] f = Unit
  AreNew r (g ∷ gs) f =
      (f (r.order_id g.shop_id) ≡ none)
      × (All (λ (h : Group). (r.order_id g.shop_id == r.order_id h.shop_id) ≡ false) gs
          × AreNew r gs f)

  put-AreNew :
      (r : Request) (gs : List Group) (k : String) (o : OrderRow) (f : String → Option OrderRow)
      → All (λ (h : Group). (k == r.order_id h.shop_id) ≡ false) gs
      → AreNew r gs f
      → AreNew r gs (put_row k o f)
  put-AreNew r [] k o f other new = tt
  put-AreNew r (g ∷ gs) k o f (unequal, other) (new, (distinct, rest)) =
      (rw unequal new, (distinct, put-AreNew r gs k o f other rest))

  abbrev pub Ready : Request → List Group → C.State → Type 0
  Ready r gs u =
      IsLive C u
      × (AreNew r gs (C.seen u).orders
          × (All (λ (g : Group). AreStocked C g.lines u) gs
              × (find_payment r.payment_id (C.seen u).payments ≡ none)))

  All-Kept :
      (gs : List Group) (s u : C.State)
      → Kept C s u
      → All (λ (g : Group). AreStocked C g.lines s) gs
      → All (λ (g : Group). AreStocked C g.lines u) gs
  All-Kept [] s u kept h = tt
  All-Kept (g ∷ gs) s u kept (h, rest) =
      (stocked-Kept C g.lines s u kept h, All-Kept gs s u kept rest)

  Ready-Kept :
      (r : Request) (gs : List Group) (s u : C.State) → Kept C s u → Ready r gs s → Ready r gs u
  Ready-Kept r gs s u kept (live, (new, (stocked, payment))) = (
    kept.0,
    (
      subst (AreNew r gs) (sym kept.1.0) new,
      (
        All-Kept gs s u kept stocked,
        subst (λ ps. find_payment r.payment_id ps ≡ none) (sym kept.1.1.0) payment,
      ),
    ),
  )

  -- The order of a group is inserted, and the lines of the group can still be reserved.
  inserted-Ready :
      (r : Request) (a : AddressRow) (g : Group) (gs : List Group) (s : C.State)
      → Ready r (g ∷ gs) s
      → Ready r gs (C.put_order (r.order_id g.shop_id) (order_of r a g) s)
        × AreStocked C g.lines (C.put_order (r.order_id g.shop_id) (order_of r a g) s)
  inserted-Ready r a g gs s (live, (new, (stocked, payment))) = rw C.put_order_lem (
    (
      live,
      (
        put-AreNew r gs (r.order_id g.shop_id) (order_of r a g) (C.seen s).orders new.1.0 new.1.1,
        (stocked.1, payment),
      ),
    ),
    stocked.0,
  )

  create_order-Ready :
      (r : Request) (a : AddressRow) (g : Group) (gs : List Group) (s : C.State)
      → fits_column (total_of g.lines) ≡ true
      → Ready r (g ∷ gs) s
      → Succeeds C (create_order C r a g) s (λ o u. (o ≡ order_of r a g) × Ready r gs u)
  unfolding create_order
  create_order-Ready r a g gs s fits ready =
      let o = order_of r a g in
      let R = λ (x : OrderRow) (u : C.State). (x ≡ o) × Ready r gs u in
      let rest = reserve_lines C g.lines >> pure o in
      let test = throw_if (not (fits_column (total_of g.lines))) amount_too_large in
      let (next, stocked) = inserted-Ready r a g gs s ready in
      Succeeds-read C R (λ t. t.orders o.id) (λ old. test >> (insert_order C o old >> rest)) s
        ready.0 ready.1.0.0
        (Succeeds-after C R test (λ _. insert_order C o none >> rest) {s = s} {u = s} {a = tt}
          (rw fits refl)
          (Succeeds-write C R (C.put_order o.id o) (λ _. rest) s ready.0
            (Succeeds-bind C (λ _ u. Kept C (C.put_order o.id o s) u) R (reserve_lines C g.lines)
              (λ _. pure o) (C.put_order o.id o s)
              (reserve_lines-Kept C g.lines (C.put_order o.id o s) next.0 stocked)
              (λ _ u kept.
                (o, (u, (refl, (refl, Ready-Kept r gs (C.put_order o.id o s) u kept next))))))))

  pub create_orders-Ready :
      (r : Request) (a : AddressRow) (gs : List Group) (s : C.State)
      → All (λ (g : Group). fits_column (total_of g.lines) ≡ true) gs
      → Ready r gs s
      → Succeeds C (create_orders C r a gs) s (λ os u. (os ≡ map (order_of r a) gs) × Ready r [] u)
  unfolding create_orders
  create_orders-Ready r a [] s fits ready = ([], (s, (refl, (refl, ready))))
  create_orders-Ready r a (g ∷ gs) s fits ready =
      let R =
        λ (os : List OrderRow) (u : C.State). (os ≡ map (order_of r a) (g ∷ gs)) × Ready r [] u in
      Succeeds-bind C (λ o u. (o ≡ order_of r a g) × Ready r gs u) R (create_order C r a g)
        (λ o. create_orders C r a gs >>= λ os. pure (o ∷ os)) s
        (create_order-Ready r a g gs s fits.0 ready)
        (λ o u next.
          Succeeds-bind C (λ os v. (os ≡ map (order_of r a) gs) × Ready r [] v) R
            (create_orders C r a gs) (λ os. pure (o ∷ os)) u
            (create_orders-Ready r a gs u fits.1 next.1)
            (λ os v done.
              let same : o ∷ os ≡ map (order_of r a) (g ∷ gs) = rw (next.0, done.0) refl in
              (o ∷ os, (v, (refl, (same, done.1))))))
