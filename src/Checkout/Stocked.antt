-- ===== src/Checkout/Stocked.antt =====
-- The reservations of a checkout succeed where each line has its stock in the table.
use ops_marketplace_server.Base.{
  inr, inl, Bool-cases, ◌≡◌, refl, ◌∙◌, ◌==◌, arith, ℤ, pos, All, Option, some, List, [], ◌∷◌,
  String,
}
use ops_marketplace_server.Database.{Client, Goods, InventoryRow, put_row}
use ops_marketplace_server.Database.Triples.{IsLive}
use ops_marketplace_server.Database.Succeeds.{Succeeds, Succeeds-bind, Succeeds-read, edit_live}
use ops_marketplace_server.Checkout.{Line, reserve, reserve_found, reserve_product, reserve_lines}

module _ (C : Client) where
  -- The stock of each line is in the table.
  abbrev pub AreStocked : List Line → C.State → Type 0
  AreStocked ls u =
      All
        (λ (l : Line).
          (row : InventoryRow) × ((C.seen u).goods.inventories l.item.product_id ≡ some row))
        ls

  -- What was in the table still is, and nothing but the stock is different.
  abbrev pub Kept : C.State → C.State → Type 0
  Kept s u =
      IsLive C u
      × (((C.seen u).orders ≡ (C.seen s).orders)
          × (((C.seen u).payments ≡ (C.seen s).payments)
              × ((p : String) (row : InventoryRow)
                  → (C.seen s).goods.inventories p ≡ some row
                  → (row' : InventoryRow) × ((C.seen u).goods.inventories p ≡ some row'))))

  put-there :
      (f : String → Option InventoryRow) (k p : String) (x row : InventoryRow)
      → f p ≡ some row
      → (row' : InventoryRow) × (put_row k x f p ≡ some row')
  put-there f k p x row e = elim (Bool-cases (k == p)) [
    | inl same ↦ (x, ground (arith, same))
    | inr other ↦ (row, ground (arith, other, e))
  ]

  reserve_product-Kept :
      (product : String) (n : ℤ) (s : C.State) (row : InventoryRow)
      → IsLive C s
      → (C.seen s).goods.inventories product ≡ some row
      → Succeeds C (reserve_product C product n) s (λ _ u. Kept s u)
  unfolding reserve_product
  reserve_product-Kept product n s row live there =
      let f =
        λ (g : Goods). record g { inventories = put_row product (reserve n row) g.inventories } in
      Succeeds-read C (λ _ u. Kept s u) (λ t. t.goods.inventories product)
        (reserve_found C product n) s live there
        (
          tt,
          (
            C.put_goods (f (C.seen s).goods) s,
            (
              edit_live C f s live,
              rw C.put_goods_lem (
                live,
                (
                  refl,
                  (
                    refl,
                    λ p was. put-there (C.seen s).goods.inventories product p (reserve n row) was,
                  ),
                ),
              ),
            ),
          ),
        )

  Kept-more : (s u v : C.State) → Kept s u → Kept u v → Kept s v
  Kept-more s u v (_, (orders, (payments, rows))) (live, (orders', (payments', rows'))) = (
    live,
    (
      orders' ∙ orders,
      (
        payments' ∙ payments,
        λ p row there. let (row', there') = rows p row there in rows' p row' there',
      ),
    ),
  )

  pub stocked-Kept : (ls : List Line) (s u : C.State) → Kept s u → AreStocked ls s → AreStocked ls u
  stocked-Kept [] s u kept h = tt
  stocked-Kept (l ∷ ls) s u kept ((row, there), rest) =
      (kept.1.1.1 l.item.product_id row there, stocked-Kept ls s u kept rest)

  pub reserve_lines-Kept :
      (ls : List Line) (s : C.State)
      → IsLive C s
      → AreStocked ls s
      → Succeeds C (reserve_lines C ls) s (λ _ u. Kept s u)
  unfolding reserve_lines
  reserve_lines-Kept [] s live h = (tt, (s, (refl, (live, (refl, (refl, λ p row e. (row, e)))))))
  reserve_lines-Kept (l ∷ ls) s live ((row, there), rest) =
      Succeeds-bind C (λ _ u. Kept s u) (λ _ u. Kept s u)
        (reserve_product C l.item.product_id (pos l.item.quantity)) (λ _. reserve_lines C ls) s
        (reserve_product-Kept l.item.product_id (pos l.item.quantity) s row live there)
        (λ _ u kept.
          let (x, (v, (e, kept'))) =
            reserve_lines-Kept ls u kept.0 (stocked-Kept ls s u kept rest) in
          (x, (v, (e, Kept-more s u v kept kept'))))
