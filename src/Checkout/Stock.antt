-- ===== src/Checkout/Stock.antt =====
-- The stock that the lines of a checkout ask for, and what the tests of a checkout promise of it.
use ops_marketplace_server.Base.{
  ℕ, ◌+◌, ◌≤◌, ℤ, pos, ◌+ℤ◌, ◌≤ℤ◌, ltb_ℤ, ◌≡◌, refl, Option-cases, inl, inr, arith, int_laws,
  eq_iff, ◌==◌, All, false, if◌then◌else◌, none, some, List, [], ◌∷◌, String,
}
use ops_marketplace_server.Database.{Goods, CartItemRow, InventoryRow, items_of_cart}
use ops_marketplace_server.Carts.{available_stock}
use ops_marketplace_server.Carts.Unique.{HasStock, count_items}
use ops_marketplace_server.Checkout.{Line, lines_of, check_lines}
use ops_marketplace_server.Checkout.Groups.{sum_lines}

-- What a line asks of a product.
abbrev pub want : String → Line → ℤ
want p l = if l.item.product_id == p then pos l.item.quantity else pos 0

-- With that much more of each product reserved, no reservation is above its stock.
abbrev pub HasRoom : (String → ℤ) → Goods → Type 0
HasRoom d g =
    (p : String) (row : InventoryRow)
    → g.inventories p ≡ some row
    → row.reserved +ℤ d p ≤ℤ pos row.stock

unfoldable pub count_lines : String → List Line → ℕ
count_lines p [] = 0
count_lines p (l ∷ ls) = (if l.item.product_id == p then 1 else 0) + count_lines p ls

-- The lines were read with those inventories.
abbrev pub AreRead : Goods → List Line → Type 0
AreRead g ls = All (λ (l : Line). l.inventory ≡ g.inventories l.item.product_id) ls

pub lines_of-AreRead : (g : Goods) (is : List CartItemRow) → AreRead g (lines_of g is)
unfolding lines_of
lines_of-AreRead g [] = tt
lines_of-AreRead g (i ∷ is) = elim (Option-cases (g.products i.product_id)) [
  | inl gone ↦ rw (lines_of, gone) (lines_of-AreRead g is)
  | inr (p, there) ↦ rw (lines_of, there) (refl, lines_of-AreRead g is)
]

pub count_lines-cart :
    (g : Goods) (cart p : String) (is : List CartItemRow)
    → count_lines p (lines_of g (items_of_cart cart is)) ≤ count_items cart p is
unfolding count_lines lines_of items_of_cart count_items
count_lines-cart g cart p [] = omega arith
count_lines-cart g cart p (i ∷ is) = elim (Option-cases (g.products i.product_id)) [
  | inl gone ↦ ground (arith, gone, count_lines-cart g cart p is)
  | inr (q, there) ↦ ground (arith, there, count_lines-cart g cart p is)
]

none_wanted : (p : String) (ls : List Line) → count_lines p ls ≡ 0 → sum_lines (want p) ls ≡ pos 0
unfolding count_lines sum_lines
none_wanted p [] h = refl
none_wanted p (l ∷ ls) h = let rest = none_wanted p ls in grind (int_laws, rest)

pub checked_rest : (l : Line) (ls : List Line) → check_lines (l ∷ ls) ≡ none → check_lines ls ≡ none
unfolding check_lines
checked_rest l ls h = grind arith

pub checked_line :
    (l : Line) (ls : List Line)
    → check_lines (l ∷ ls) ≡ none
    → ltb_ℤ (available_stock l.inventory) (pos l.item.quantity) ≡ false
unfolding check_lines
checked_line l ls h = grind arith

-- The tests of the lines leave room for what they ask, if no two lines are of one product.
pub check_lines-HasRoom :
    (g : Goods) (ls : List Line)
    → AreRead g ls
    → ((p : String) → count_lines p ls ≤ 1)
    → check_lines ls ≡ none
    → HasStock g
    → HasRoom (λ p. sum_lines (want p) ls) g
unfolding sum_lines count_lines
check_lines-HasRoom g [] read one h fits p row there =
    let fit = fits p row there in grind (int_laws, fit)
check_lines-HasRoom g (l ∷ ls) read one h fits p row there =
    let line = checked_line l ls h in
    let rest =
      check_lines-HasRoom g ls read.1 (λ q. omega (arith, one q)) (checked_rest l ls h) fits p row
        there in
    let few = one p in
    let absent = none_wanted p ls in
    let same = eq_iff l.item.product_id p in
    let was = read.0 in grind (int_laws, line, rest, few, absent, same, was, there)
