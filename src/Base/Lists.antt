-- ===== src/Base/Lists.antt =====
-- Lists over the native numbers, predicates on every element, and the concatenation at the end
-- that JavaScript's `push` makes.
use Prim.Native.Nat.{ℕ, suc, ◌+◌}
use mathlib.Core.Path.{◌≡◌}
use mathlib.Core.Bool.{Bool, true, false}
use mathlib.Core.List.{List, [], ◌∷◌, ◌++◌}
use native.Mathlib.Omega.{arith}

abbrev pub All {ℓ κ} : {A : Type ℓ} → (A → Type κ) → List A → Type κ
All P [] = Unit
All P (x ∷ xs) = P x × All P xs

module _ {ℓ} {A : Type ℓ} where
  abbrev pub length : List A → ℕ
  length [] = 0
  length (_ ∷ xs) = suc (length xs)

  abbrev pub is_empty : List A → Bool
  is_empty [] = true
  is_empty (_ ∷ _) = false

  abbrev pub push : List A → A → List A
  push xs x = xs ++ (x ∷ [])

  pub length-push : (xs : List A) (x : A) → length (push xs x) ≡ length xs + 1
  length-push [] x = omega arith
  length-push (y ∷ xs) x = omega (arith, length-push xs x)

  pub All-push {κ} : (P : A → Type κ) (xs : List A) (x : A) → All P xs → P x → All P (push xs x)
  All-push P [] x _ p = (p, tt)
  All-push P (y ∷ xs) x h p = (h.0, All-push P xs x h.1 p)
