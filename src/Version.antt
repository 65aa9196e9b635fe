-- ===== src/Version.antt =====
-- schedune-control-plane/internal/domain/version.go: versions and version requirements.
-- The regular expression `(\d+)\.(\d+)(?:\.(\d+))?` is matched as Go matches it: at the leftmost
-- position, each run of digits as long as possible.
pub mod Order
pub mod Requirement
pub mod Parsing
use schedune.Base.{
  ℕ, zero, suc, ◌+◌, ◌-◌, ◌*◌, String, Bool, true, false, ◌&&◌, ◌||◌, Option, none, some, List, [],
  ◌∷◌, if◌then◌else◌, ltb, leb, eqb, is_empty, codes, ◌==◌,
}
use schedune.Base.Int64.{ℤ, pos, negsuc, ltb_ℤ}
use schedune.Schema.Spec.{RuntimeVersionRequirement}
use schedune.Schema.Reasons.{
  err_launch_runtime_version_unknown, err_launch_runtime_version_unparseable,
  err_launch_runtime_version_too_old, err_launch_runtime_version_mismatch,
}

pub record ParsedVersion : Type 0 where
  pub major : ℕ
  pub minor : ℕ
  pub patch : ℕ

abbrev pub is_digit : ℕ → Bool
is_digit c = leb b'0' c && leb c b'9'

-- The longest run of digits at the head, and the rest.
unfoldable pub span_digits : List ℕ → List ℕ × List ℕ
span_digits [] = ([], [])
span_digits (c ∷ s) =
    let (digits, rest) = span_digits s in if is_digit c then (c ∷ digits, rest) else ([], c ∷ s)

-- `\.(\d+)` at the head.
unfoldable pub dot_digits : List ℕ → Option (List ℕ × List ℕ)
dot_digits [] = none
dot_digits (c ∷ s) =
    let (digits, rest) = span_digits s in
    if eqb c b'.' && (if is_empty digits then false else true) then some (digits, rest) else none

-- The three groups of a match at the head; the third is empty where the optional part is absent.
unfoldable pub match_here : List ℕ → Option (List ℕ × List ℕ × List ℕ)
match_here s =
    let (major, rest) = span_digits s in
    if is_empty major then none else elim (dot_digits rest) [
      | none ↦ none
      | some (minor, rest') ↦ elim (dot_digits rest') [
        | none ↦ some (major, minor, [])
        | some (patch, _) ↦ some (major, minor, patch)
      ]
    ]

-- FindStringSubmatch
unfoldable pub find_submatch : List ℕ → Option (List ℕ × List ℕ × List ℕ)
find_submatch [] = none
find_submatch (c ∷ s) =
    let later = find_submatch s in
    elim (match_here (c ∷ s)) [ some groups ↦ some groups | none ↦ later ]

unfoldable pub digits_value : ℕ → List ℕ → ℕ
digits_value acc [] = acc
digits_value acc (c ∷ s) = digits_value (acc * 10 + (c - b'0')) s

-- strconv.Atoi on a run of digits: an error where an `int` cannot hold the number.
unfoldable pub atoi : List ℕ → Option ℕ
atoi s = let n = digits_value 0 s in if ltb n 0x8000000000000000 then some n else none

unfoldable pub parse_groups : List ℕ × List ℕ × List ℕ → Option ParsedVersion
parse_groups (g1, g2, g3) = elim (atoi g1) [
  | none ↦ none
  | some major ↦ elim (atoi g2) [
    | none ↦ none
    | some minor ↦ elim (if is_empty g3 then some 0 else atoi g3) [
      | none ↦ none
      | some patch ↦ some (record { major = major; minor = minor; patch = patch })
    ]
  ]
]

unfoldable pub parse_version : String → Option ParsedVersion
parse_version raw = elim (find_submatch (codes raw)) [ none ↦ none | some g ↦ parse_groups g ]

unfoldable pub compare_versions : ParsedVersion → ParsedVersion → ℤ
compare_versions a b =
    if eqb a.major b.major
    then if eqb a.minor b.minor
      then if eqb a.patch b.patch then pos 0 else if ltb a.patch b.patch then negsuc 0 else pos 1
      else if ltb a.minor b.minor
      then negsuc 0
      else pos 1
    else if ltb a.major b.major
    then negsuc 0
    else pos 1

-- The check of `req.ExactVersion`: `none` where it passes, or the reason code.
unfoldable pub check_exact : ParsedVersion → String → Option String
check_exact observed exact = if exact == "" then none else elim (parse_version exact) [
  | none ↦ some err_launch_runtime_version_unparseable
  | some wanted ↦ elim (compare_versions observed wanted) [
    | pos zero ↦ none
    | _ ↦ some err_launch_runtime_version_mismatch
  ]
]

-- The check of `req.MinimumVersion`.
unfoldable pub check_minimum : ParsedVersion → String → Option String
check_minimum observed minimum = if minimum == "" then none else elim (parse_version minimum) [
  | none ↦ some err_launch_runtime_version_unparseable
  | some wanted ↦
      if ltb_ℤ (compare_versions observed wanted) (pos 0)
      then some err_launch_runtime_version_too_old
      else none
]

-- checkVersionRequirement: `none` for `(true, "")`, or the reason code of `(false, reason)`.
unfoldable pub check_version_requirement : String → Option RuntimeVersionRequirement → Option String
check_version_requirement observed_raw none = none
check_version_requirement observed_raw (some req) =
    if req.minimum_version == "" && req.exact_version == ""
    then none
    else if observed_raw == ""
    then some err_launch_runtime_version_unknown
    else elim (parse_version observed_raw) [
      | none ↦ some err_launch_runtime_version_unparseable
      | some observed ↦ elim (check_exact observed req.exact_version) [
        | some reason ↦ some reason
        | none ↦ check_minimum observed req.minimum_version
      ]
    ]
