-- ===== src/Quantity.antt =====
-- src/domain/value-objects/Quantity.ts: a bounded whole number of items. The `number`s that reach
-- the constructor are integers here, so `Number.isInteger` and `Math.floor` change nothing.
mod Laws
use ops_marketplace_server.Base.{
  ℕ, ℤ, pos, Bool, ◌-ℤ◌, ◌+ℤ◌, ◌≤ℤ◌, ltb_ℤ, leb_ℤ, eqb_ℤ, if◌then◌else◌, Result, ok, err,
}

pub record Quantity : Type 0 where
  pub value : ℤ

pub data Error : Type 0 where
  negative too_large : Error
  insufficient : ℤ → ℤ → Error

abbrev pub max_value : ℤ
max_value = pos 1_000_000_000

unfoldable pub construct : ℤ → Result Error Quantity
construct v =
    if ltb_ℤ v (pos 0)
    then err negative
    else if ltb_ℤ max_value v
    then err too_large
    else ok (record { value = v })

unfoldable pub from_number : ℤ → Result Error Quantity
unfolding construct
from_number v = construct v

abbrev pub zero_quantity : Quantity
zero_quantity = record { value = pos 0 }

unfoldable pub add : Quantity → Quantity → Result Error Quantity
unfolding construct
add a b = construct (a.value +ℤ b.value)

unfoldable pub subtract : Quantity → Quantity → Result Error Quantity
unfolding construct
subtract a b =
    if ltb_ℤ a.value b.value
    then err (insufficient a.value b.value)
    else construct (a.value -ℤ b.value)

unfoldable pub is_greater_than : Quantity → Quantity → Bool
is_greater_than a b = ltb_ℤ b.value a.value

unfoldable pub is_greater_than_or_equal : Quantity → Quantity → Bool
is_greater_than_or_equal a b = leb_ℤ b.value a.value

unfoldable pub is_less_than : Quantity → Quantity → Bool
is_less_than a b = ltb_ℤ a.value b.value

unfoldable pub is_less_than_or_equal : Quantity → Quantity → Bool
is_less_than_or_equal a b = leb_ℤ a.value b.value

unfoldable pub equals : Quantity → Quantity → Bool
equals a b = eqb_ℤ a.value b.value

-- What the constructor guarantees of every quantity.
abbrev pub IsValid : Quantity → Type 0
IsValid q = (pos 0 ≤ℤ q.value) × (q.value ≤ℤ max_value)
