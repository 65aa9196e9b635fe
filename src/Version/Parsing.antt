-- ===== src/Version/Parsing.antt =====
-- What parseVersion finds in a line such as `QEMU emulator version 8.2.0 (Debian)`
-- (schedune-control-plane/internal/domain/version.go).
use mathlib.Core.List.{append_assoc}
use schedune.Base.{
  ℕ, ◌<◌, ◌≡◌, ◌≢◌, ◌∙◌, ap, refl, true, false, none, some, List, [], ◌∷◌, ◌++◌, All, is_empty,
  codes, String, arith,
}
use schedune.Version.{
  is_digit, span_digits, dot_digits, match_here, find_submatch, digits_value, atoi, parse_groups,
  parse_version,
}

abbrev pub AreDigits : List ℕ → Type 0
AreDigits = All (λ c. is_digit c ≡ true)

abbrev pub HasNoDigit : List ℕ → Type 0
HasNoDigit = All (λ c. is_digit c ≡ false)

-- The text is at its end, or goes on with something else than a digit.
abbrev pub EndsRun : List ℕ → Type 0
EndsRun [] = Unit
EndsRun (c ∷ s) = is_digit c ≡ false

span_lem : (d r : List ℕ) → AreDigits d → EndsRun r → span_digits (d ++ r) ≡ (d, r)
unfolding span_digits
span_lem [] [] h e = refl
span_lem [] (c ∷ r) h e = rw e
span_lem (c ∷ d) r (h, hs) e = rw (span_lem d r hs e, h)

span_skip : (c : ℕ) (s : List ℕ) → is_digit c ≡ false → span_digits (c ∷ s) ≡ ([], c ∷ s)
unfolding span_digits
span_skip c s h = rw h

match_skip : (c : ℕ) (s : List ℕ) → is_digit c ≡ false → match_here (c ∷ s) ≡ none
unfolding match_here
match_skip c s h = rw (span_skip c s h) refl

find_skip : (p s : List ℕ) → HasNoDigit p → find_submatch (p ++ s) ≡ find_submatch s
unfolding find_submatch
find_skip [] s h = refl
find_skip (c ∷ p) s (h, hs) = rw (match_skip c (p ++ s) h, find_submatch) (find_skip p s hs)

dot_lem :
    (d r : List ℕ)
    → AreDigits d
    → is_empty d ≡ false
    → EndsRun r
    → dot_digits (b'.' ∷ (d ++ r)) ≡ some (d, r)
unfolding dot_digits
dot_lem d r h ne e = rw (span_lem d r h e) (rw ne)

match_lem :
    (d1 d2 d3 r : List ℕ)
    → AreDigits d1
    → AreDigits d2
    → AreDigits d3
    → is_empty d1 ≡ false
    → is_empty d2 ≡ false
    → is_empty d3 ≡ false
    → EndsRun r
    → match_here (d1 ++ b'.' ∷ (d2 ++ b'.' ∷ (d3 ++ r))) ≡ some (d1, d2, d3)
unfolding match_here
match_lem d1 d2 d3 r h1 h2 h3 n1 n2 n3 e = ground (
  arith,
  span_lem d1 (b'.' ∷ (d2 ++ b'.' ∷ (d3 ++ r))) h1 refl,
  dot_lem d2 (b'.' ∷ (d3 ++ r)) h2 n2 refl,
  dot_lem d3 r h3 n3 e,
)

match_nil : (g : List ℕ × List ℕ × List ℕ) → match_here [] ≢ some g
unfolding match_here span_digits
match_nil g h = cc

find_match :
    (s : List ℕ) (g : List ℕ × List ℕ × List ℕ) → match_here s ≡ some g → find_submatch s ≡ some g
unfolding find_submatch
find_match [] g h = absurd (match_nil g h)
find_match (c ∷ s) g h = rw (h, find_submatch)

-- In a line that holds no digit before three runs of digits with a dot between them, the runs are
-- the groups of the match, whatever follows them.
pub find_submatch_lem :
    (p d1 d2 d3 r : List ℕ)
    → HasNoDigit p
    → AreDigits d1
    → AreDigits d2
    → AreDigits d3
    → is_empty d1 ≡ false
    → is_empty d2 ≡ false
    → is_empty d3 ≡ false
    → EndsRun r
    → find_submatch (p ++ d1 ++ b'.' ∷ (d2 ++ b'.' ∷ (d3 ++ r))) ≡ some (d1, d2, d3)
find_submatch_lem p d1 d2 d3 r hp h1 h2 h3 n1 n2 n3 e =
    rw (append_assoc p d1 (b'.' ∷ (d2 ++ b'.' ∷ (d3 ++ r))))
      (find_skip p _ hp ∙ find_match _ _ (match_lem d1 d2 d3 r h1 h2 h3 n1 n2 n3 e))

-- A line that holds no digit before three non-empty runs of digits with a dot between them, and no
-- digit right after them, reads as the version that the three runs write in decimal, if an `int` can
-- hold each of the three numbers.
pub parse_version_lem :
    (line : String) (p d1 d2 d3 r : List ℕ)
    → codes line ≡ p ++ d1 ++ b'.' ∷ (d2 ++ b'.' ∷ (d3 ++ r))
    → HasNoDigit p
    → AreDigits d1
    → AreDigits d2
    → AreDigits d3
    → is_empty d1 ≡ false
    → is_empty d2 ≡ false
    → is_empty d3 ≡ false
    → EndsRun r
    → digits_value 0 d1 < 0x8000000000000000
    → digits_value 0 d2 < 0x8000000000000000
    → digits_value 0 d3 < 0x8000000000000000
    → parse_version line
      ≡ some (record {
        major = digits_value 0 d1;
        minor = digits_value 0 d2;
        patch = digits_value 0 d3;
      })
unfolding parse_version parse_groups atoi
parse_version_lem line p d1 d2 d3 r hl hp h1 h2 h3 n1 n2 n3 e b1 b2 b3 =
    let found = find_submatch_lem p d1 d2 d3 r hp h1 h2 h3 n1 n2 n3 e in
    ground (arith, ap find_submatch hl ∙ found)
