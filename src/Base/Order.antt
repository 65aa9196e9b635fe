-- ===== src/Base/Order.antt =====
-- Go's order on texts: by the bytes of their UTF-8, which is by their code points.
use Prim.Native.Char.{code}
use Prim.Native.String.{String}
use mathlib.Core.Path.{◌≡◌, refl}
use mathlib.Core.Bool.{Bool, true, false}
use native.Mathlib.Omega.{arith}
use schedune.Base.Tests.{ltb, eqb, if◌then◌else◌}

-- `s < t`
unfoldable pub text_ltb : String → String → Bool
text_ltb String.[] String.[] = false
text_ltb String.[] (String.◌∷◌ d t) = true
text_ltb (String.◌∷◌ c s) String.[] = false
text_ltb (String.◌∷◌ c s) (String.◌∷◌ d t) =
    let rest = text_ltb s t in if eqb (code c) (code d) then rest else ltb (code c) (code d)

pub text_leb_trans :
    (s t u : String) → text_ltb t s ≡ false → text_ltb u t ≡ false → text_ltb u s ≡ false
unfolding text_ltb
text_leb_trans String.[] t String.[] h k = refl
text_leb_trans String.[] String.[] (String.◌∷◌ e u) h k = refl
text_leb_trans String.[] (String.◌∷◌ d t) (String.◌∷◌ e u) h k = refl
text_leb_trans (String.◌∷◌ c s) String.[] u h k = ground arith
text_leb_trans (String.◌∷◌ c s) (String.◌∷◌ d t) String.[] h k = ground arith
text_leb_trans (String.◌∷◌ c s) (String.◌∷◌ d t) (String.◌∷◌ e u) h k =
    let ih = text_leb_trans s t u in ground arith

pub text_ltb_asym : (s t : String) → text_ltb s t ≡ true → text_ltb t s ≡ false
unfolding text_ltb
text_ltb_asym String.[] String.[] h = refl
text_ltb_asym String.[] (String.◌∷◌ d t) h = refl
text_ltb_asym (String.◌∷◌ c s) String.[] h = ground arith
text_ltb_asym (String.◌∷◌ c s) (String.◌∷◌ d t) h = let ih = text_ltb_asym s t in ground arith
