-- ===== src/Money/Laws.antt =====
-- Sums, differences and comparisons of money, Money.ts.
use ops_marketplace_server.Base.{pos, ◌-ℤ◌, ◌≤ℤ◌, ◌≡◌, ◌↔◌, eq_iff, ok, true, int_laws}
use ops_marketplace_server.Money.{Money, add, subtract, less_than_or_equal, construct}

abbrev pub IsValid : Money → Type 0
IsValid m = pos 0 ≤ℤ m.amount

-- Taking away what was added gives back the first money, in amount and currency.
pub subtract-add : (a b : Money) {c : Money} → IsValid a → add a b ≡ ok c → subtract c b ≡ ok a
unfolding add subtract construct
subtract-add a b v h = grind (int_laws, eq_iff a.currency b.currency)

-- The difference of two amounts in one currency is returned exactly when the second is not larger;
-- otherwise the constructor refuses it.
pub subtract_iff :
    (a b : Money)
    → a.currency ≡ b.currency
    → ((c : Money) × (subtract a b ≡ ok c)) ↔ (b.amount ≤ℤ a.amount)
unfolding subtract construct
subtract_iff a b e = (
  λ h. let (c, r) = h in grind (int_laws, eq_iff a.currency b.currency),
  λ h. (
    record { amount = a.amount -ℤ b.amount; currency = a.currency },
    grind (int_laws, eq_iff a.currency b.currency),
  ),
)

-- `lessThanOrEqual`, which is written as "less or equal by value", is the order of the amounts.
pub less_than_or_equal_iff :
    (a b : Money)
    → a.currency ≡ b.currency
    → (less_than_or_equal a b ≡ ok true) ↔ (a.amount ≤ℤ b.amount)
unfolding less_than_or_equal
less_than_or_equal_iff a b e = (
  λ h. grind (int_laws, eq_iff a.currency b.currency),
  λ h. grind (int_laws, eq_iff a.currency b.currency),
)
