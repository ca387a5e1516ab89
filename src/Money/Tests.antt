-- ===== src/Money/Tests.antt =====
-- Money at concrete inputs.
use ops_marketplace_server.Base.{
  ◌≤◌, ◌≡◌, ◌↔◌, refl, pos, ◌+ℤ◌, ◌-ℤ◌, List, [], ◌∷◌, length, ok, err, arith,
}
use ops_marketplace_server.Money.{Money, amount_negative, allocate, sum, shares}
use ops_marketplace_server.Money.Allocate.{amounts, total, total-allocate, allocate_iff}

abbrev seven : Money
seven = record { amount = pos 700; currency = "VND" }

abbrev three : Money
three = record { amount = pos 300; currency = "VND" }

-- One unit in three parts: the first takes what the others leave.
thirds :
    (ms : List Money) × (allocate 100 "VND" (1 ∷ 1 ∷ 1 ∷ []) ≡ ok ms)
    × (amounts ms ≡ pos 34 ∷ pos 33 ∷ pos 33 ∷ [])
unfolding allocate ◌+ℤ◌ ◌-ℤ◌
thirds = (_, refl, refl)

-- Three hundredths in five parts: each is rounded up to one, and the first would be -1.
fifths : allocate 3 "VND" (1 ∷ 1 ∷ 1 ∷ 1 ∷ 1 ∷ []) ≡ err amount_negative
unfolding allocate ◌+ℤ◌ ◌-ℤ◌
fifths = refl

total-allocate_example : (total (amounts thirds.0) ≡ pos 100) × (length thirds.0 ≡ 3)
total-allocate_example = total-allocate 100 (1 ∷ 1 ∷ 1 ∷ []) "VND" thirds.1

allocate_iff_example :
    ((ms : List Money) × (allocate 3 "VND" (1 ∷ 1 ∷ 1 ∷ 1 ∷ 1 ∷ []) ≡ ok ms))
    ↔ (sum (shares (sum (1 ∷ 1 ∷ 1 ∷ 1 ∷ 1 ∷ [])) 3 (1 ∷ 1 ∷ 1 ∷ 1 ∷ [])) ≤ 3)
unfolding sum
allocate_iff_example = allocate_iff 3 1 (1 ∷ 1 ∷ 1 ∷ 1 ∷ []) "VND" (omega arith)
