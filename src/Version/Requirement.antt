-- ===== src/Version/Requirement.antt =====
-- When a version requirement is met (schedune-control-plane/internal/domain/version.go).
use schedune.Base.{
  ◌≡◌, ◌≢◌, ◌⊎◌, inl, inr, ◌↔◌, String, ◌&&◌, none, some, Option-cases, Bool-cases, ◌==◌, eq_iff,
  arith,
}
use schedune.Schema.Spec.{RuntimeVersionRequirement}
use schedune.Version.{
  ParsedVersion, parse_version, check_exact, check_minimum, check_version_requirement,
}
use schedune.Version.Order.{IsEarlier, compare_versions_iff, compare_cases}

-- No exact version is asked for, or the text reads as that version.
abbrev pub MeetsExact : ParsedVersion → String → Type 0
MeetsExact v exact = (exact ≡ "") ⊎ (parse_version exact ≡ some v)

-- No minimum is asked for, or the text reads as a version that is not later.
abbrev pub MeetsMinimum : ParsedVersion → String → Type 0
MeetsMinimum v minimum =
    (minimum ≡ "") ⊎ ((w : ParsedVersion) × (parse_version minimum ≡ some w) × (¬ IsEarlier v w))

-- The observed text reads as a version that meets both parts.
abbrev pub Meets : String → RuntimeVersionRequirement → Type 0
Meets raw req =
    (v : ParsedVersion) × (parse_version raw ≡ some v)
    × MeetsExact v req.exact_version
    × MeetsMinimum v req.minimum_version

exact_iff : (v : ParsedVersion) (exact : String) → (check_exact v exact ≡ none) ↔ MeetsExact v exact
unfolding check_exact
exact_iff v exact = elim (Option-cases (parse_version exact)) [
  | inl bad ↦ (λ h. ground (arith, eq_iff exact ""), λ h. ground (arith, eq_iff exact ""))
  | inr (w, good) ↦
      let same = (compare_versions_iff v w).2 in
      (
        λ h. ground (arith, eq_iff exact "", compare_cases v w, same),
        λ h. ground (arith, eq_iff exact "", same),
      )
]

minimum_iff :
    (v : ParsedVersion) (minimum : String)
    → (check_minimum v minimum ≡ none) ↔ MeetsMinimum v minimum
unfolding check_minimum
minimum_iff v minimum = elim (Option-cases (parse_version minimum)) [
  | inl bad ↦ (λ h. ground (arith, eq_iff minimum ""), λ h. ground (arith, eq_iff minimum ""))
  | inr (w, good) ↦
      let less = (compare_versions_iff v w).0 in
      (
        λ h. elim (Bool-cases (minimum == "")) [
          | inl e ↦ inl ((eq_iff minimum "").0 e)
          | inr n ↦ inr (w, good, λ early. ground (arith, less.1 early))
        ],
        λ h. elim h [
          | inl e ↦ ground (arith, eq_iff minimum "")
          | inr (w', good', late) ↦
              let e : w' ≡ w = ground (arith) in
              ground (arith, compare_cases v w, less, rw e at late)
        ],
      )
]

-- The check of a requirement passes exactly when its two texts are empty, or the observed text is not
-- empty and reads as a version that meets both parts of the requirement.
pub check_version_requirement_iff :
    (raw : String) (req : RuntimeVersionRequirement)
    → (check_version_requirement raw (some req) ≡ none)
      ↔ ((req.minimum_version ≡ "") × (req.exact_version ≡ "") ⊎ (raw ≢ "") × Meets raw req)
unfolding check_version_requirement
check_version_requirement_iff raw req = elim (Option-cases (parse_version raw)) [
  | inl bad ↦ (
    λ h. inl (ground (arith, eq_iff req.minimum_version "", eq_iff req.exact_version "")),
    λ h. ground (arith, eq_iff req.minimum_version "", eq_iff req.exact_version ""),
  )
  | inr (v, good) ↦
      let exact = exact_iff v req.exact_version in
      let minimum = minimum_iff v req.minimum_version in
      (
        λ h. elim (Bool-cases (req.minimum_version == "" && req.exact_version == "")) [
          | inl none_asked ↦
              inl (ground (arith, eq_iff req.minimum_version "", eq_iff req.exact_version ""))
          | inr asked ↦ inr (
            λ e. ground (arith, eq_iff raw ""),
            (
              v,
              good,
              exact.0 (ground (arith, eq_iff raw "")),
              minimum.0 (ground (arith, eq_iff raw "")),
            ),
          )
        ],
        λ h. elim h [
          | inl e ↦ ground (arith, eq_iff req.minimum_version "", eq_iff req.exact_version "")
          | inr (seen, (w, good', e, m)) ↦
              let same : w ≡ v = ground arith in
              let e' = exact.1 (rw same at e) in
              let m' = minimum.1 (rw same at m) in ground (arith, eq_iff raw "", e', m')
        ],
      )
]
