-- ===== src/Base/Unique.antt =====
-- Lists of texts without repetitions: the primary keys of a table.
use mathlib.Core.Path.{◌≡◌, refl}
use mathlib.Core.Bool.{false, ◌||◌}
use mathlib.Core.List.{List, [], ◌∷◌, ◌++◌}
use native.Mathlib.Omega.{arith}
use Prim.Native.String.{String}
use text.Mathlib.Text.{◌==◌}
use text.Mathlib.TextEquality.{eq_iff}
use schedune.Base.Lists.{has_text}

pub has_text-append :
    (id : String) (xs : List String) (j : String)
    → has_text id (xs ++ j ∷ []) ≡ (has_text id xs || j == id)
has_text-append id [] j = ground arith
has_text-append id (x ∷ xs) j = ground (arith, has_text-append id xs j)

abbrev pub Unique : List String → Type 0
Unique [] = Unit
Unique (x ∷ xs) = (has_text x xs ≡ false) × Unique xs

-- A key that the table does not hold can be inserted at its end.
pub Unique-append :
    (xs : List String) (j : String) → has_text j xs ≡ false → Unique xs → Unique (xs ++ j ∷ [])
Unique-append [] j fresh u = (refl, tt)
Unique-append (x ∷ xs) j fresh (off, u) = (
  ground (arith, has_text-append x xs j, eq_iff x j, eq_iff j x),
  Unique-append xs j (ground arith) u,
)
