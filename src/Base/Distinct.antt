-- ===== src/Base/Distinct.antt =====
-- Lists of texts that do not repeat a text, under the test that `===` makes.
use Prim.Native.String.{String}
use mathlib.Core.Path.{◌≡◌}
use mathlib.Core.Bool.{false}
use mathlib.Core.List.{List, [], ◌∷◌}
use native.Mathlib.Omega.{arith}
use ops_marketplace_server.Base.Tests.{◌==◌, eq_iff}
use ops_marketplace_server.Base.Lists.{push}

-- No text of the list is `k`.
unfoldable pub IsAbsent : String → List String → Type 0
IsAbsent k [] = Unit
IsAbsent k (j ∷ js) = (j == k ≡ false) × IsAbsent k js

unfoldable pub IsDistinct : List String → Type 0
unfolding IsAbsent
IsDistinct [] = Unit
IsDistinct (j ∷ js) = IsAbsent j js × IsDistinct js

IsAbsent-push :
    (k j : String) (js : List String) → IsAbsent k js → j == k ≡ false → IsAbsent k (push js j)
unfolding IsAbsent
IsAbsent-push k j [] a h = (h, tt)
IsAbsent-push k j (i ∷ js) a h = (a.0, IsAbsent-push k j js a.1 h)

pub IsDistinct-push :
    (js : List String) (j : String) → IsDistinct js → IsAbsent j js → IsDistinct (push js j)
unfolding IsDistinct IsAbsent
IsDistinct-push [] j d a = (tt, tt)
IsDistinct-push (i ∷ js) j d a = (
  IsAbsent-push i j js d.0 (ground (arith, eq_iff i j, eq_iff j i)),
  IsDistinct-push js j d.1 a.1,
)
