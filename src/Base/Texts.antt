-- ===== src/Base/Texts.antt =====
-- Texts as Go builds them: concatenation, substring tests, the decimal form of a number.
use Prim.Native.Nat.{ℕ, zero, suc, ◌/◌, ◌%◌}
use Prim.Native.Char.{code}
use Prim.Native.String
use Prim.Native.String.{String}
use mathlib.Core.Path.{◌≡◌, refl}
use mathlib.Core.Bool.{Bool, true}
use mathlib.Core.List.{List, [], ◌∷◌}
use text.Mathlib.Text.{starts_with}
use text.Mathlib.TextLemmas.{nil-append, cons-append}
use text.Mathlib.TextPositions.{starts_with-append}
use schedune.Base.Tests.{if◌then◌else◌, if_ind, ltb}

infixl 65 ◌<>◌
abbrev pub ◌<>◌ : String → String → String
s <> t = String.◌++◌ s t

-- The code points of a text.
abbrev pub codes : String → List ℕ
codes String.[] = []
codes (String.◌∷◌ c s) = code c ∷ codes s

-- `strings.Contains(s, t)`: `t` begins at some character of `s`, or at its end.
unfoldable pub contains : String → String → Bool
contains String.[] t = starts_with "" t
contains (String.◌∷◌ c s) t = if starts_with (String.◌∷◌ c s) t then true else contains s t

contains_head : (s t : String) → starts_with s t ≡ true → contains s t ≡ true
unfolding contains
contains_head String.[] t h = h
contains_head (String.◌∷◌ c s) t h = rw h refl

pub contains-append : (s t u : String) → contains (s <> (t <> u)) t ≡ true
unfolding contains
contains-append String.[] t u =
    rw (nil-append (t <> u)) (contains_head (t <> u) t (starts_with-append t u))
contains-append (String.◌∷◌ c s) t u = rw (cons-append c s (t <> u)) (
    if_ind (λ b. b ≡ true) (starts_with (String.◌∷◌ c (s <> (t <> u))) t) refl
      (contains-append s t u))

abbrev digit : ℕ → String
digit zero = "0"
digit (suc zero) = "1"
digit (suc (suc zero)) = "2"
digit (suc (suc (suc zero))) = "3"
digit (suc (suc (suc (suc zero)))) = "4"
digit (suc (suc (suc (suc (suc zero))))) = "5"
digit (suc (suc (suc (suc (suc (suc zero)))))) = "6"
digit (suc (suc (suc (suc (suc (suc (suc zero))))))) = "7"
digit (suc (suc (suc (suc (suc (suc (suc (suc zero)))))))) = "8"
digit _ = "9"

-- `%d` of a natural number; the number of rounds is below `n + 1`.
decimal_from : ℕ → ℕ → String → String
decimal_from zero n acc = acc
decimal_from (suc fuel) n acc =
    let longer = digit (n % 10) <> acc in
    let rest = decimal_from fuel (n / 10) longer in if ltb n 10 then longer else rest

unfoldable pub decimal : ℕ → String
unfolding decimal_from
decimal n = decimal_from (suc n) n ""
