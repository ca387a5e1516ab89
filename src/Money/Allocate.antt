-- ===== src/Money/Allocate.antt =====
-- The allocation of an amount by ratios, `allocate` of Money.ts.
use ops_marketplace_server.Base.{
  false, suc, subst, sym, eqb, if◌then◌else◌, inl, inr, Bool-cases, inr, sym, inl, eqb, subst,
  Bool-cases, suc, ℕ, ◌+◌, ◌*◌, ◌≤◌, ◌<◌, ℤ, pos, ◌+ℤ◌, ◌-ℤ◌, ◌≤ℤ◌, ◌≡◌, ◌↔◌, ◌≢◌, refl, ap, ◌∙◌,
  List, [], ◌∷◌, map, length, String, Result, ok, err, arith, int_laws,
}
use ops_marketplace_server.Money.{
  Money, Error, amount_negative, ratio_zero, sum, rounded_share, shares, remaining, correct_first,
  all_from_cents, allocate,
}

abbrev pub amounts : List Money → List ℤ
amounts [] = []
amounts (m ∷ ms) = m.amount ∷ amounts ms

abbrev pub total : List ℤ → ℤ
total [] = pos 0
total (c ∷ cs) = c +ℤ total cs

total-map_pos : (ss : List ℕ) → total (map pos ss) ≡ pos (sum ss)
unfolding sum
total-map_pos [] = refl
total-map_pos (s ∷ ss) = rw (total-map_pos ss) (omega int_laws)

remaining-sum : (left : ℤ) (ss : List ℕ) → remaining left ss ≡ left -ℤ pos (sum ss)
unfolding remaining sum
remaining-sum left [] = omega int_laws
remaining-sum left (s ∷ ss) = rw (remaining-sum (left -ℤ pos s) ss) (omega int_laws)

length-shares : (t c : ℕ) (rs : List ℕ) → length (shares t c rs) ≡ length rs
unfolding shares
length-shares t c [] = refl
length-shares t c (r ∷ rs) = ap suc (length-shares t c rs)

-- The moneys are made exactly when no number of cents is negative.
all_from_cents_pos :
    (currency : String) (ss : List ℕ)
    → (ms : List Money) × (all_from_cents currency (map pos ss) ≡ ok ms) × (amounts ms ≡ map pos ss)
unfolding all_from_cents
all_from_cents_pos currency [] = ([], refl, refl)
all_from_cents_pos currency (s ∷ ss) =
    let (ms, made, same) = all_from_cents_pos currency ss in
    (record { amount = pos s; currency = currency } ∷ ms, ground arith, ground arith)

-- What a list of cents makes: moneys of these amounts, or an error.
abbrev Makes : List ℤ → Result Error (List Money) → Type 0
Makes cs (ok ms) = amounts ms ≡ cs
Makes cs (err e) = e ≡ amount_negative

all_from_cents-Makes : (currency : String) (cs : List ℤ) → Makes cs (all_from_cents currency cs)
unfolding all_from_cents
all_from_cents-Makes currency [] = refl
all_from_cents-Makes currency (c ∷ cs) = ground (arith, all_from_cents-Makes currency cs)

-- The correction of the first share leaves it what the other shares leave of the amount.
first_share :
    (c s : ℕ) (ss : List ℕ)
    → correct_first (remaining (pos c) (s ∷ ss)) (s ∷ ss) ≡ (pos c -ℤ pos (sum ss)) ∷ map pos ss
unfolding remaining sum
first_share c s ss =
    ap (λ x. x ∷ map pos ss) (rw (remaining-sum (pos c -ℤ pos s) ss) (omega int_laws))

-- The cents of the parts, as the code computes them.
abbrev parts : ℕ → ℕ → List ℕ → List ℤ
parts cents r rs =
    let others = shares (sum (r ∷ rs)) cents rs in (pos cents -ℤ pos (sum others)) ∷ map pos others

allocate_lem :
    (cents r : ℕ) (rs : List ℕ) (currency : String)
    → allocate cents currency (r ∷ rs) ≡ (
        if eqb (sum (r ∷ rs)) 0 then err ratio_zero else all_from_cents currency (parts cents r rs))
unfolding allocate
allocate_lem cents r rs currency =
    let t : ℕ = sum (r ∷ rs) in
    ap (λ x. if eqb t 0 then err ratio_zero else all_from_cents currency x)
      (first_share cents (rounded_share t cents r) (shares t cents rs))

all_from_cents_of_allocate :
    (cents r : ℕ) (rs : List ℕ) (currency : String) {ms : List Money}
    → allocate cents currency (r ∷ rs) ≡ ok ms
    → all_from_cents currency (parts cents r rs) ≡ ok ms
all_from_cents_of_allocate cents r rs currency h = elim (Bool-cases (eqb (sum (r ∷ rs)) 0)) [
  | inl e ↦
      let wrong : err ratio_zero ≡ ok _ = rw e at (sym (allocate_lem cents r rs currency) ∙ h) in cc
  | inr e ↦ rw e at (sym (allocate_lem cents r rs currency) ∙ h)
]

-- If `allocate` returns, the first part is what the rounded shares of the others leave of the amount,
-- and each other part is its rounded share of it.
pub amounts-allocate :
    (cents r : ℕ) (rs : List ℕ) (currency : String) {ms : List Money}
    → allocate cents currency (r ∷ rs) ≡ ok ms
    → let others = shares (sum (r ∷ rs)) cents rs in
      amounts ms ≡ (pos cents -ℤ pos (sum others)) ∷ map pos others
amounts-allocate cents r rs currency h =
    subst (Makes (parts cents r rs)) (all_from_cents_of_allocate cents r rs currency h)
      (all_from_cents-Makes currency (parts cents r rs))

length-amounts : (ms : List Money) → length (amounts ms) ≡ length ms
length-amounts [] = refl
length-amounts (m ∷ ms) = ap suc (length-amounts ms)

length-map_pos : (ss : List ℕ) → length (map pos ss) ≡ length ss
length-map_pos [] = refl
length-map_pos (s ∷ ss) = ap suc (length-map_pos ss)

-- If `allocate` returns, the parts add up to the amount, and there is one for each ratio.
pub total-allocate :
    (cents : ℕ) (ratios : List ℕ) (currency : String) {ms : List Money}
    → allocate cents currency ratios ≡ ok ms
    → (total (amounts ms) ≡ pos cents) × (length ms ≡ length ratios)
unfolding allocate
total-allocate cents [] currency h = cc
total-allocate cents (r ∷ rs) currency {ms} h =
    let others = shares (sum (r ∷ rs)) cents rs in
    let same = amounts-allocate cents r rs currency h in
    (
      rw same (rw (total-map_pos others) (omega int_laws)),
      omega (
        arith,
        length-amounts ms,
        ap length same,
        length-map_pos others,
        length-shares (sum (r ∷ rs)) cents rs,
      ),
    )

all_from_cents_head :
    (currency : String) (c : ℤ) (cs : List ℤ) {ms : List Money}
    → all_from_cents currency (c ∷ cs) ≡ ok ms
    → pos 0 ≤ℤ c
unfolding all_from_cents
all_from_cents_head currency c cs h = ground arith

all_from_cents_cons :
    (currency : String) (c : ℤ) (cs : List ℤ) (ms : List Money)
    → pos 0 ≤ℤ c
    → all_from_cents currency cs ≡ ok ms
    → all_from_cents currency (c ∷ cs) ≡ ok (record { amount = c; currency = currency } ∷ ms)
unfolding all_from_cents
all_from_cents_cons currency c cs ms p h = ground arith

allocate_nonzero :
    (cents r : ℕ) (rs : List ℕ) (currency : String)
    → sum (r ∷ rs) ≢ 0
    → allocate cents currency (r ∷ rs) ≡ all_from_cents currency (parts cents r rs)
allocate_nonzero cents r rs currency h =
    let off : eqb (sum (r ∷ rs)) 0 ≡ false = ground arith in
    allocate_lem cents r rs currency ∙ rw off refl

-- With a ratio that is not zero, `allocate` returns exactly when the rounded shares of the parts after
-- the first do not exceed the amount; otherwise the first part is negative and `fromCents` throws.
pub allocate_iff :
    (cents r : ℕ) (rs : List ℕ) (currency : String)
    → sum (r ∷ rs) ≢ 0
    → ((ms : List Money) × (allocate cents currency (r ∷ rs) ≡ ok ms))
      ↔ (sum (shares (sum (r ∷ rs)) cents rs) ≤ cents)
allocate_iff cents r rs currency h =
    let others = shares (sum (r ∷ rs)) cents rs in
    let first : ℤ = pos cents -ℤ pos (sum others) in
    let (ms, made, same) = all_from_cents_pos currency others in
    (
      λ k.
          let fits =
            all_from_cents_head currency first (map pos others)
              (all_from_cents_of_allocate cents r rs currency k.1) in
          omega int_laws,
      λ k. (
        record { amount = first; currency = currency } ∷ ms,
        allocate_nonzero cents r rs currency h
            ∙ all_from_cents_cons currency first (map pos others) ms (omega int_laws) made,
      ),
    )

-- With a positive total of the ratios, a rounded share is within half a unit of the exact one.
pub rounded_share_near :
    (t c r : ℕ)
    → 0 < t
    → (2 * t * rounded_share t c r ≤ 2 * c * r + t) × (2 * c * r < 2 * t * rounded_share t c r + t)
unfolding rounded_share
rounded_share_near t c r h = (grind arith, grind arith)
