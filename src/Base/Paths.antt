-- ===== src/Base/Paths.antt =====
-- Texts that are cut at a character, as Go's strings.Split and path/filepath do.
use Prim.Native.Nat.{ℕ}
use Prim.Native.Char.{Char, code}
use Prim.Native.String.{String}
use mathlib.Core.Path.{◌≡◌, refl}
use mathlib.Core.Bool.{true, false}
use mathlib.Core.Option.{Option, none, some}
use mathlib.Core.List.{List, [], ◌∷◌}
use text.Mathlib.TextLemmas.{nil-append, cons-append, append_assoc}
use schedune.Base.Tests.{if◌then◌else◌, eqb}
use schedune.Base.Texts.{◌<>◌, codes}
use schedune.Base.Lists.{All}

abbrev pub slash : ℕ
slash = 47

-- Puts a character before the first piece.
abbrev pub onto_first : String → List String → List String
onto_first c [] = c ∷ []
onto_first c (p ∷ ps) = (c <> p) ∷ ps

-- `strings.Split(s, sep)`, for a separator of one character, given by its code.
unfoldable pub split_at : ℕ → String → List String
split_at sep String.[] = "" ∷ []
split_at sep (String.◌∷◌ c s) =
    let rest = split_at sep s in
    if eqb (code c) sep then "" ∷ rest else onto_first (String.◌∷◌ c String.[]) rest

-- The text before its last slash.
unfoldable pub before_slash : String → Option String
before_slash String.[] = none
before_slash (String.◌∷◌ c s) = elim (before_slash s) [
  | some p ↦ some (String.◌∷◌ c p)
  | none ↦ if eqb (code c) slash then some "" else none
]

-- `filepath.Dir` of a clean relative path.
abbrev pub dir_of_parts : Option String → String
dir_of_parts none = "."
dir_of_parts (some p) = p

unfoldable pub dir : String → String
unfolding before_slash
dir path = dir_of_parts (before_slash path)

-- No character of the text has the code.
abbrev pub Lacks : ℕ → String → Type 0
Lacks sep s = All (λ c. eqb c sep ≡ false) (codes s)

split_run : split_at slash "a/bc//" ≡ "a" ∷ "bc" ∷ "" ∷ "" ∷ []
unfolding split_at
split_run = refl

dir_run : dir "var/run/x.sock" ≡ "var/run"
unfolding dir before_slash
dir_run = refl

pub split_at-Lacks : (sep : ℕ) (s : String) → Lacks sep s → split_at sep s ≡ s ∷ []
unfolding split_at
split_at-Lacks sep String.[] h = refl
split_at-Lacks sep (String.◌∷◌ c s) (h, hs) =
    rw (h, split_at-Lacks sep s hs) (rw (cons-append c String.[] s, nil-append s) refl)

pub split_at-append :
    (sep : ℕ) (s t : String) (c : Char)
    → Lacks sep s
    → eqb (code c) sep ≡ true
    → split_at sep (s <> String.◌∷◌ c t) ≡ s ∷ split_at sep t
unfolding split_at
split_at-append sep String.[] t c h e = rw (nil-append (String.◌∷◌ c t), e, split_at) refl
split_at-append sep (String.◌∷◌ d s) t c (h, hs) e =
    rw (cons-append d s (String.◌∷◌ c t), split_at, h, split_at-append sep s t c hs e)
      (rw (cons-append d String.[] s, nil-append s) refl)

pub slash-append : (t : String) → "/" <> t ≡ String.◌∷◌ "/" t
slash-append t = rw (cons-append "/" "" t, nil-append t) refl

-- A piece without a slash, up to the slash that ends it.
pub split_at-piece :
    (s t : String) → Lacks slash s → split_at slash (s <> ("/" <> t)) ≡ s ∷ split_at slash t
split_at-piece s t h = rw (slash-append t) (split_at-append slash s t "/" h refl)

abbrev lower_dirs : String
lower_dirs = "run" <> ("/" <> ("schedune" <> "/"))

pub split_at-dirs :
    (s t : String)
    → Lacks slash s
    → split_at slash (s <> ("/run/schedune/" <> t)) ≡ s ∷ "run" ∷ "schedune" ∷ split_at slash t
split_at-dirs s t h =
    let run : Lacks slash "run" = (refl, (refl, (refl, tt))) in
    let schedune : Lacks slash "schedune" =
      (refl, (refl, (refl, (refl, (refl, (refl, (refl, (refl, tt)))))))) in
    rw
      (
        append_assoc "/" lower_dirs t,
        append_assoc "run" ("/" <> ("schedune" <> "/")) t,
        append_assoc "/" ("schedune" <> "/") t,
        append_assoc "schedune" "/" t,
        split_at-piece s _ h,
        split_at-piece "run" _ run,
        split_at-piece "schedune" t schedune,
      )
      refl
