-- ===== src/Quantity/Laws.antt =====
-- `add` and `subtract` of Quantity.ts, in the form that the clients use.
use ops_marketplace_server.Base.{ℤ, pos, ◌-ℤ◌, ◌+ℤ◌, ◌≤ℤ◌, ◌≡◌, ok, arith, int_laws}
use ops_marketplace_server.Quantity.{Quantity, max_value, construct, add, subtract, IsValid}

pub construct-IsValid : (v : ℤ) {q : Quantity} → construct v ≡ ok q → IsValid q × (q.value ≡ v)
unfolding construct
construct-IsValid v h = ground arith

pub construct_total :
    (v : ℤ) → pos 0 ≤ℤ v → v ≤ℤ max_value → construct v ≡ ok (record { value = v })
unfolding construct
construct_total v h k = ground arith

pub add_total :
    (a b : Quantity)
    → IsValid a
    → IsValid b
    → a.value +ℤ b.value ≤ℤ max_value
    → add a b ≡ ok (record { value = a.value +ℤ b.value })
unfolding add
add_total a b h k fits = construct_total (a.value +ℤ b.value) (omega int_laws) fits

pub subtract_total :
    (a b : Quantity)
    → IsValid a
    → IsValid b
    → b.value ≤ℤ a.value
    → subtract a b ≡ ok (record { value = a.value -ℤ b.value })
unfolding subtract
subtract_total a b h k fits =
    ground (arith, construct_total (a.value -ℤ b.value) (omega int_laws) (omega int_laws))
