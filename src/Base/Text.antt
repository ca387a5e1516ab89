-- ===== src/Base/Text.antt =====
-- The operations of JavaScript strings that the domain uses. `String` has its own `[]` and `∷`.
use Prim.Native.Nat.{ℕ, ◌+◌, ◌≤◌}
use Prim.Native.Char.{Char, code}
use Prim.Native.String.{String, ◌++◌}
use mathlib.Core.Path.{◌≡◌, refl, ap, ◌∙◌}
use mathlib.Core.Bool.{Bool, true, false, not, ◌&&◌, ◌||◌}
use native.Mathlib.Omega.{arith}
use ops_marketplace_server.Base.Tests.{ltb, leb, eqb, if◌then◌else◌}

-- The code points that `trim` removes: WhiteSpace and LineTerminator of ECMAScript.
pub is_space : Char → Bool
is_space c =
    let n = code c in
    leb 9 n && leb n 13
    || eqb n 32
    || eqb n 0xa0
    || eqb n 0x1680
    || leb 0x2000 n && leb n 0x200a
    || eqb n 0x2028
    || eqb n 0x2029
    || eqb n 0x202f
    || eqb n 0x205f
    || eqb n 0x3000
    || eqb n 0xfeff

abbrev pub is_empty_text : String → Bool
is_empty_text String.[] = true
is_empty_text (String.◌∷◌ _ _) = false

-- `${a}${b}`.
abbrev pub concat : String → String → String
concat a b = a ++ b

-- `text.length` counts UTF-16 units.
abbrev pub units : Char → ℕ
units c = if ltb (code c) 0x10000 then 1 else 2

pub text_length : String → ℕ
text_length String.[] = 0
text_length (String.◌∷◌ c s) = units c + text_length s

pub trim_start : String → String
trim_start String.[] = String.[]
trim_start (String.◌∷◌ c s) = if is_space c then trim_start s else String.◌∷◌ c s

pub trim_end : String → String
trim_end String.[] = String.[]
trim_end (String.◌∷◌ c s) =
    let rest = trim_end s in
    if is_space c && is_empty_text rest then String.[] else String.◌∷◌ c rest

unfoldable pub trim : String → String
unfolding is_space trim_start trim_end
trim s = trim_end (trim_start s)

-- `text.trim().length === 0`.
unfoldable pub is_blank : String → Bool
unfolding trim
is_blank s = is_empty_text (trim s)

trim_end-trim_end : (s : String) → trim_end (trim_end s) ≡ trim_end s
unfolding trim_end
trim_end-trim_end String.[] = refl
trim_end-trim_end (String.◌∷◌ c s) = ground (arith, trim_end-trim_end s)

-- A text that does not begin with white space.
abbrev starts_clean : String → Bool
starts_clean String.[] = true
starts_clean (String.◌∷◌ c s) = not (is_space c)

trim_start-starts_clean : (s : String) → starts_clean (trim_start s) ≡ true
unfolding trim_start
trim_start-starts_clean String.[] = refl
trim_start-starts_clean (String.◌∷◌ c s) = ground (arith, trim_start-starts_clean s)

trim_start-trim_end : (s : String) → starts_clean s ≡ true → trim_start (trim_end s) ≡ trim_end s
unfolding trim_start trim_end
trim_start-trim_end String.[] h = refl
trim_start-trim_end (String.◌∷◌ c s) h = ground arith

pub trim-trim : (s : String) → trim (trim s) ≡ trim s
unfolding trim
trim-trim s =
    ap trim_end (trim_start-trim_end (trim_start s) (trim_start-starts_clean s))
    ∙ trim_end-trim_end (trim_start s)

text_length-trim_start : (s : String) → text_length (trim_start s) ≤ text_length s
unfolding trim_start text_length
text_length-trim_start String.[] = omega arith
text_length-trim_start (String.◌∷◌ c s) = ground (arith, text_length-trim_start s)

text_length-trim_end : (s : String) → text_length (trim_end s) ≤ text_length s
unfolding trim_end text_length
text_length-trim_end String.[] = omega arith
text_length-trim_end (String.◌∷◌ c s) = ground (arith, text_length-trim_end s)

pub text_length-trim : (s : String) → text_length (trim s) ≤ text_length s
unfolding trim
text_length-trim s = omega (arith, text_length-trim_end (trim_start s), text_length-trim_start s)

-- A text is empty exactly when its length is 0.
pub is_empty_text-length : (s : String) → is_empty_text s ≡ eqb (text_length s) 0
unfolding text_length
is_empty_text-length String.[] = refl
is_empty_text-length (String.◌∷◌ c s) = ground arith
