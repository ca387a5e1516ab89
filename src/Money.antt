-- ===== src/Money.antt =====
-- src/domain/value-objects/Money.ts: an amount in a currency. The program holds an amount as a
-- floating-point number of units; here it is the exact number of hundredths of a unit, so the
-- methods that leave the hundredths (`multiply`, `divide`, `percentage`) are not modelled, nor is the
-- rounding of sums. A currency is its three-letter code.
mod Laws
mod Allocate
mod Tests
use ops_marketplace_server.Base.{
  ℕ, ◌+◌, ◌*◌, ◌/◌, ℤ, pos, negsuc, ◌+ℤ◌, ◌-ℤ◌, ltb_ℤ, eqb_ℤ, eqb, Bool, ◌&&◌, ◌||◌, not,
  if◌then◌else◌, List, [], ◌∷◌, map, String, ◌==◌, Result, ok, err,
}

pub record Money : Type 0 where
  pub amount : ℤ
  pub currency : String

pub data Error : Type 0 where
  amount_negative ratio_zero : Error
  currency_mismatch : String → String → Error

-- The constructor with its `validate`.
unfoldable pub construct : ℤ → String → Result Error Money
construct amount currency =
    if ltb_ℤ amount (pos 0)
    then err amount_negative
    else ok (record { amount = amount; currency = currency })

unfoldable pub from_cents : ℤ → String → Result Error Money
unfolding construct
from_cents cents currency = construct cents currency

unfoldable pub to_cents : Money → ℤ
to_cents m = m.amount

unfoldable pub zero_money : String → Result Error Money
unfolding construct
zero_money currency = construct (pos 0) currency

unfoldable pub add : Money → Money → Result Error Money
unfolding construct
add a b =
    if a.currency == b.currency
    then construct (a.amount +ℤ b.amount) a.currency
    else err (currency_mismatch a.currency b.currency)

unfoldable pub subtract : Money → Money → Result Error Money
unfolding construct
subtract a b =
    if a.currency == b.currency
    then construct (a.amount -ℤ b.amount) a.currency
    else err (currency_mismatch a.currency b.currency)

unfoldable pub equals : Money → Money → Bool
equals a b = eqb_ℤ a.amount b.amount && a.currency == b.currency

unfoldable pub greater_than : Money → Money → Result Error Bool
greater_than a b =
    if a.currency == b.currency
    then ok (ltb_ℤ b.amount a.amount)
    else err (currency_mismatch a.currency b.currency)

unfoldable pub less_than : Money → Money → Result Error Bool
less_than a b =
    if a.currency == b.currency
    then ok (ltb_ℤ a.amount b.amount)
    else err (currency_mismatch a.currency b.currency)

-- `a || b`, where `a` may throw and `b` may not.
abbrev or_else : Result Error Bool → Bool → Result Error Bool
or_else (ok a) b = ok (a || b)
or_else (err e) b = err e

unfoldable pub greater_than_or_equal : Money → Money → Result Error Bool
unfolding greater_than equals
greater_than_or_equal a b = or_else (greater_than a b) (equals a b)

unfoldable pub less_than_or_equal : Money → Money → Result Error Bool
unfolding less_than equals
less_than_or_equal a b = or_else (less_than a b) (equals a b)

pub sum : List ℕ → ℕ
sum [] = 0
sum (x ∷ xs) = x + sum xs

-- `Math.round((cents * ratio) / total)` for whole numbers: the half is rounded up.
unfoldable pub rounded_share : ℕ → ℕ → ℕ → ℕ
rounded_share total cents ratio = (2 * cents * ratio + total) / (2 * total)

-- `results` after the loop, and what `remaining` is then.
pub shares : ℕ → ℕ → List ℕ → List ℕ
unfolding rounded_share
shares total cents [] = []
shares total cents (r ∷ rs) = rounded_share total cents r ∷ shares total cents rs

remaining : ℤ → List ℕ → ℤ
remaining left [] = left
remaining left (s ∷ ss) = remaining (left -ℤ pos s) ss

-- `results[0] += remaining`.
abbrev correct_first : ℤ → List ℕ → List ℤ
correct_first rest [] = []
correct_first rest (s ∷ ss) = (pos s +ℤ rest) ∷ map pos ss

-- `results.map((c) => Money.fromCents(c, currency))`, which throws at the first that throws.
unfoldable pub all_from_cents : String → List ℤ → Result Error (List Money)
unfolding from_cents
all_from_cents currency [] = ok []
all_from_cents currency (c ∷ cs) = elim (from_cents c currency) [
  | err e ↦ err e
  | ok m ↦ elim (all_from_cents currency cs) [ err e ↦ err e | ok ms ↦ ok (m ∷ ms) ]
]

-- The ratios are whole numbers; `cents` is the amount, which no constructed money has negative.
unfoldable pub allocate : ℕ → String → List ℕ → Result Error (List Money)
unfolding sum shares remaining all_from_cents
allocate cents currency ratios =
    if eqb (sum ratios) 0
    then err ratio_zero
    else (let results = shares (sum ratios) cents ratios in
        all_from_cents currency (correct_first (remaining (pos cents) results) results))
