-- ===== src/Inventory/Tests.antt =====
-- The inventory at concrete inputs.
use ops_marketplace_server.Base.{
  pos, ◌+ℤ◌, ◌-ℤ◌, ◌≤ℤ◌, ◌≡◌, ◌↔◌, refl, List, [], ◌∷◌, none, some, ok, arith,
}
use ops_marketplace_server.Quantity.{Quantity}
use ops_marketplace_server.Inventory.{
  update_min_threshold, restock, Inventory, more_than_reserved, create, get_available_quantity,
  reserve, unreserve, outbound,
}
use ops_marketplace_server.Inventory.History.{
  Call, restocking, outgoing, reserving, unreserving, threshold, apply, run,
}
use ops_marketplace_server.Inventory.Invariant.{IsValid, run-IsValid}
use ops_marketplace_server.Inventory.Accounting.{
  apply_atomic, unreserve-reserve, outbound-reserve_iff,
}
use ops_marketplace_server.Inventory.Replay.{view, replay, view-run}

abbrev two : Quantity
two = record { value = pos 2 }

abbrev six : Quantity
six = record { value = pos 6 }

abbrev ten : Quantity
ten = record { value = pos 10 }

abbrev shelf : Inventory
shelf = record {
  id = "inv-1";
  product_id = "rice";
  quantity = ten;
  reserved = six;
  min_threshold = pos 5;
  last_restocked_at = 0;
  updated_at = 0;
  events = [];
}

abbrev day : List Call
day =
    reserving six 1
    ∷ outgoing two 2
    ∷ outgoing six 3
    ∷ unreserving ten 4
    ∷ restocking two 5
    ∷ threshold (pos 3) 6
    ∷ []

-- The third call and the fourth throw.
day_stock :
    let i = run day (create "inv-1" "rice" none (some ten) 0) in
    (i.quantity ≡ ten) × (i.reserved.value ≡ pos 4) × (i.updated_at ≡ 6)
unfolding run apply create reserve outbound unreserve restock update_min_threshold ◌+ℤ◌ ◌-ℤ◌
day_stock = (refl, refl, refl)

shelf-IsValid : IsValid shelf
shelf-IsValid = omega arith

run-IsValid_example : IsValid (run day (create "inv-1" "rice" none (some ten) 0))
run-IsValid_example = run-IsValid day "inv-1" "rice" none ten 0 (omega arith) (omega arith)

apply_atomic_example : (apply (unreserving ten 1) shelf).1 ≡ shelf
unfolding apply unreserve
apply_atomic_example =
    apply_atomic (unreserving ten 1) shelf {e = more_than_reserved (pos 6) (pos 10)} (omega arith)
      shelf-IsValid refl

unreserve-reserve_example :
    let (r, i') = unreserve two 2 (reserve two 1 shelf).1 in
    (r ≡ ok tt) × (i'.quantity ≡ ten) × (i'.reserved ≡ six)
unfolding reserve ◌-ℤ◌ ◌+ℤ◌
unreserve-reserve_example = unreserve-reserve two 1 2 shelf (omega arith) shelf-IsValid refl

outbound-reserve_iff_example :
    ((outbound two 2 (reserve two 1 shelf).1).0 ≡ ok tt)
    ↔ (pos 2 +ℤ pos 2 ≤ℤ get_available_quantity shelf)
unfolding reserve ◌-ℤ◌ ◌+ℤ◌
outbound-reserve_iff_example = outbound-reserve_iff two 1 2 shelf (omega arith) shelf-IsValid refl

view-run_example :
    let i = create "inv-1" "rice" none (some ten) 0 in
    view (run day i) ≡ replay (run day i).events (view i)
view-run_example =
    view-run day "inv-1" "rice" none ten 0 (omega arith)
      (refl, (refl, (refl, (refl, (refl, (refl, tt)))))) (omega arith)
