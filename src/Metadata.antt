-- ===== src/Metadata.antt =====
-- src/domain/value-objects/Metadata.ts: the entries of a record in their order, each value by its
-- JSON text, so that two metadata are equal when `JSON.stringify` writes the same. Keys that look
-- like array indices, which JavaScript would list first, are taken in the order of insertion.
use ops_marketplace_server.Base.{
  Bool, true, false, ◌&&◌, if◌then◌else◌, List, [], ◌∷◌, String, ◌==◌, eq_iff, Option, none, some,
  ◌≡◌, refl, arith,
}

abbrev pub Metadata : Type 0
Metadata = List (String × String)

-- `{ ...value, [key]: val }`: an entry that is there keeps its place.
unfoldable pub set : String → String → Metadata → Metadata
set key val [] = (key, val) ∷ []
set key val ((k, v) ∷ m) = if k == key then (k, val) ∷ m else (k, v) ∷ set key val m

unfoldable pub lookup : String → Metadata → Option String
lookup key [] = none
lookup key ((k, v) ∷ m) = if k == key then some v else lookup key m

unfoldable pub equals : Metadata → Metadata → Bool
equals [] [] = true
equals [] (e ∷ m) = false
equals (e ∷ m) [] = false
equals ((k, v) ∷ m) ((j, w) ∷ n) = k == j && (v == w && equals m n)

pub equals-true : (m n : Metadata) → equals m n ≡ true → m ≡ n
unfolding equals
equals-true [] [] h = refl
equals-true [] (e ∷ n) h = cc
equals-true (e ∷ m) [] h = cc
equals-true ((k, v) ∷ m) ((j, w) ∷ n) h = ground (arith, eq_iff k j, eq_iff v w, equals-true m n)

pub equals_refl : (m : Metadata) → equals m m ≡ true
unfolding equals
equals_refl [] = refl
equals_refl ((k, v) ∷ m) = ground (arith, eq_iff k k, eq_iff v v, equals_refl m)

pub lookup-set :
    (j key val : String) (m : Metadata)
    → lookup j (set key val m) ≡ (if key == j then some val else lookup j m)
unfolding lookup set
lookup-set j key val [] = refl
lookup-set j key val ((k, v) ∷ m) =
    ground (arith, eq_iff key j, eq_iff k key, eq_iff k j, lookup-set j key val m)
