-- ===== src/Payouts/Banks/Counts.antt =====
-- The number of default bank accounts of a user, and what the writes of payouts.service.ts do to it.

use ops_marketplace_server.Base.{
  ℕ, ◌+◌, ◌≤◌, ◌≡◌, refl, arith, ◌==◌, ◌&&◌, if◌then◌else◌, Option, none, some, List, [], ◌∷◌, push,
  String,
}
use ops_marketplace_server.Database.{BankRow, find_bank, clear_defaults, mark_default, delete_bank}

unfoldable pub count_defaults : String → List BankRow → ℕ
count_defaults v [] = 0
count_defaults v (r ∷ rs) = (if r.user_id == v && r.is_default then 1 else 0) + count_defaults v rs

abbrev pub owner_of : Option BankRow → Option String
owner_of none = none
owner_of (some r) = some r.user_id

-- One, for the user whose row it is.
abbrev pub one_for : String → Option String → ℕ
one_for v none = 0
one_for v (some o) = if o == v then 1 else 0

pub count-clear : (u : String) (rs : List BankRow) → count_defaults u (clear_defaults u rs) ≡ 0
unfolding count_defaults clear_defaults
count-clear u [] = refl
count-clear u (r ∷ rs) = ground (arith, count-clear u rs)

pub count-clear_le :
    (v u : String) (rs : List BankRow)
    → count_defaults v (clear_defaults u rs) ≤ count_defaults v rs
unfolding count_defaults clear_defaults
count-clear_le v u [] = omega arith
count-clear_le v u (r ∷ rs) = ground (arith, count-clear_le v u rs)

pub owner-clear :
    (id u : String) (rs : List BankRow)
    → owner_of (find_bank id (clear_defaults u rs)) ≡ owner_of (find_bank id rs)
unfolding find_bank clear_defaults
owner-clear id u [] = refl
owner-clear id u (r ∷ rs) = ground (arith, owner-clear id u rs)

pub count-mark :
    (v id : String) (rs : List BankRow)
    → count_defaults v (mark_default id rs)
      ≤ one_for v (owner_of (find_bank id rs)) + count_defaults v rs
unfolding count_defaults mark_default find_bank
count-mark v id [] = omega arith
count-mark v id (r ∷ rs) = ground (arith, count-mark v id rs)

pub count-delete :
    (v id : String) (rs : List BankRow) → count_defaults v (delete_bank id rs) ≤ count_defaults v rs
unfolding count_defaults delete_bank
count-delete v id [] = omega arith
count-delete v id (r ∷ rs) = ground (arith, count-delete v id rs)

pub count-push :
    (v : String) (rs : List BankRow) (r : BankRow)
    → count_defaults v (push rs r)
      ≡ count_defaults v rs + (if r.user_id == v && r.is_default then 1 else 0)
unfolding count_defaults
count-push v [] r = ground arith
count-push v (x ∷ rs) r = ground (arith, count-push v rs r)
