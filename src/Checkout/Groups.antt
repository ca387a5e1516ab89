-- ===== src/Checkout/Groups.antt =====
-- What grouping the lines of a cart by their shops keeps.
use ops_marketplace_server.Base.{
  ◌&&◌, eqb, ◌+◌, ◌≤◌, ℕ, ℤ, pos, ◌+ℤ◌, ◌≡◌, refl, sym, ◌∙◌, arith, int_laws, eq_iff, ◌==◌,
  if◌then◌else◌, List, [], ◌∷◌, ◌++◌, String, push,
}
use ops_marketplace_server.Checkout.{
  Line, Group, insert_line, group_from, group_lines, line_price, total_of,
}

-- The reference: the lines of a shop, in the order of the cart.
unfoldable pub lines_of_shop : String → List Line → List Line
lines_of_shop k [] = []
lines_of_shop k (l ∷ ls) =
    if l.product.shop_id == k then l ∷ lines_of_shop k ls else lines_of_shop k ls

-- What a map of groups has under a key.
unfoldable pub get_lines : String → List Group → List Line
get_lines k [] = []
get_lines k (g ∷ gs) = if g.shop_id == k then g.lines else get_lines k gs

get_lines-insert :
    (k : String) (l : Line) (gs : List Group)
    → get_lines k (insert_line l gs)
      ≡ (if l.product.shop_id == k then push (get_lines k gs) l else get_lines k gs)
unfolding get_lines insert_line
get_lines-insert k l [] = ground arith
get_lines-insert k l (g ∷ gs) = ground (
  arith,
  get_lines-insert k l gs,
  eq_iff g.shop_id l.product.shop_id,
  eq_iff g.shop_id k,
  eq_iff l.product.shop_id k,
)

append_nil : (xs : List Line) → xs ++ [] ≡ xs
append_nil [] = refl
append_nil (x ∷ xs) = rw (append_nil xs) refl

append_assoc : (xs ys zs : List Line) → (xs ++ ys) ++ zs ≡ xs ++ (ys ++ zs)
append_assoc [] ys zs = refl
append_assoc (x ∷ xs) ys zs = rw (append_assoc xs ys zs) refl

get_lines-from :
    (k : String) (gs : List Group) (ls : List Line)
    → get_lines k (group_from gs ls) ≡ get_lines k gs ++ lines_of_shop k ls
unfolding group_from lines_of_shop
get_lines-from k gs [] = sym (append_nil (get_lines k gs))
get_lines-from k gs (l ∷ ls) =
    get_lines-from k (insert_line l gs) ls
    ∙ ground (
      arith,
      get_lines-insert k l gs,
      append_assoc (get_lines k gs) (l ∷ []) (lines_of_shop k ls),
    )

-- How many keys of the map are that shop.
unfoldable pub count_groups : String → List Group → ℕ
count_groups k [] = 0
count_groups k (g ∷ gs) = (if g.shop_id == k then 1 else 0) + count_groups k gs

count-insert :
    (k : String) (l : Line) (gs : List Group)
    → count_groups k (insert_line l gs)
      ≡ count_groups k gs + (if l.product.shop_id == k && eqb (count_groups k gs) 0 then 1 else 0)
unfolding count_groups insert_line
count-insert k l [] = ground arith
count-insert k l (g ∷ gs) = ground (
  arith,
  count-insert k l gs,
  eq_iff g.shop_id l.product.shop_id,
  eq_iff g.shop_id k,
  eq_iff l.product.shop_id k,
)

count-from :
    (k : String) (gs : List Group) (ls : List Line)
    → count_groups k gs ≤ 1
    → count_groups k (group_from gs ls) ≤ 1
unfolding group_from
count-from k gs [] h = h
count-from k gs (l ∷ ls) h =
    count-from k (insert_line l gs) ls (ground (arith, count-insert k l gs))

-- The map that a checkout builds line by line has each shop as a key once at most, and under each
-- shop the lines of that shop, in the order of the cart, and nothing under another.
pub get_lines-group :
    (k : String) (ls : List Line)
    → (get_lines k (group_lines ls) ≡ lines_of_shop k ls) × (count_groups k (group_lines ls) ≤ 1)
unfolding get_lines count_groups
get_lines-group k ls = (get_lines-from k [] ls, count-from k [] ls (omega arith))

-- A sum over lines, and over groups of them.
unfoldable pub sum_lines : (Line → ℤ) → List Line → ℤ
sum_lines f [] = pos 0
sum_lines f (l ∷ ls) = f l +ℤ sum_lines f ls

unfoldable pub sum_groups : (Line → ℤ) → List Group → ℤ
sum_groups f [] = pos 0
sum_groups f (g ∷ gs) = sum_lines f g.lines +ℤ sum_groups f gs

sum_lines-push :
    (f : Line → ℤ) (ls : List Line) (l : Line) → sum_lines f (push ls l) ≡ sum_lines f ls +ℤ f l
unfolding sum_lines
sum_lines-push f [] l = grind int_laws
sum_lines-push f (x ∷ ls) l = grind (int_laws, sum_lines-push f ls l)

sum_groups-insert :
    (f : Line → ℤ) (l : Line) (gs : List Group)
    → sum_groups f (insert_line l gs) ≡ sum_groups f gs +ℤ f l
unfolding sum_groups insert_line sum_lines
sum_groups-insert f l [] = grind int_laws
sum_groups-insert f l (g ∷ gs) =
    let rest = sum_groups-insert f l gs in
    let pushed = sum_lines-push f g.lines l in grind (int_laws, rest, pushed)

sum_groups-from :
    (f : Line → ℤ) (gs : List Group) (ls : List Line)
    → sum_groups f (group_from gs ls) ≡ sum_groups f gs +ℤ sum_lines f ls
unfolding group_from sum_lines
sum_groups-from f gs [] = grind int_laws
sum_groups-from f gs (l ∷ ls) =
    let rest = sum_groups-from f (insert_line l gs) ls in
    let inserted = sum_groups-insert f l gs in grind (int_laws, rest, inserted)

-- Nothing is lost and nothing counted twice by the grouping.
pub sum_groups-group :
    (f : Line → ℤ) (ls : List Line) → sum_groups f (group_lines ls) ≡ sum_lines f ls
unfolding sum_groups
sum_groups-group f ls = let from = sum_groups-from f [] ls in grind (int_laws, from)

pub total_of-lines : (ls : List Line) → total_of ls ≡ sum_lines line_price ls
unfolding total_of sum_lines
total_of-lines [] = refl
total_of-lines (l ∷ ls) = rw (total_of-lines ls) refl
