-- ===== src/Version/Order.antt =====
-- compareVersions orders versions by major, minor and patch number
-- (schedune-control-plane/internal/domain/version.go).
use schedune.Base.{◌<◌, ◌≡◌, ◌⊎◌, ◌↔◌, arith}
use schedune.Base.Int64.{pos, negsuc}
use schedune.Version.{ParsedVersion, compare_versions}

-- `a` comes before `b`: the first component in which they differ is smaller in `a`.
abbrev pub IsEarlier : ParsedVersion → ParsedVersion → Type 0
IsEarlier a b =
    (a.major < b.major)
    ⊎ (a.major ≡ b.major) × (a.minor < b.minor)
    ⊎ (a.major ≡ b.major) × (a.minor ≡ b.minor) × (a.patch < b.patch)

pub compare-eq_of : (a b : ParsedVersion) → compare_versions a b ≡ pos 0 → a ≡ b
unfolding compare_versions
compare-eq_of a b h = ground arith

pub compare_refl : (a : ParsedVersion) → compare_versions a a ≡ pos 0
unfolding compare_versions
compare_refl a = ground arith

pub IsEarlier-of_compare : (a b : ParsedVersion) → compare_versions a b ≡ negsuc 0 → IsEarlier a b
unfolding compare_versions
IsEarlier-of_compare a b h = ground arith

pub compare_of_earlier : (a b : ParsedVersion) → IsEarlier a b → compare_versions a b ≡ negsuc 0
unfolding compare_versions
compare_of_earlier a b h = ground arith

pub compare_swap :
    (a b : ParsedVersion) → compare_versions a b ≡ pos 1 → compare_versions b a ≡ negsuc 0
unfolding compare_versions
compare_swap a b h = ground arith

pub swap_compare :
    (a b : ParsedVersion) → compare_versions b a ≡ negsuc 0 → compare_versions a b ≡ pos 1
unfolding compare_versions
swap_compare a b h = ground arith

-- The result of compareVersions is -1 exactly when the first version is earlier, 1 exactly when the second is, and 0
-- exactly when they are the same.
pub compare_versions_iff :
    (a b : ParsedVersion)
    → ((compare_versions a b ≡ negsuc 0) ↔ IsEarlier a b)
      × ((compare_versions a b ≡ pos 1) ↔ IsEarlier b a)
      × ((compare_versions a b ≡ pos 0) ↔ (a ≡ b))
compare_versions_iff a b = (
  (IsEarlier-of_compare a b, compare_of_earlier a b),
  (
    λ h. IsEarlier-of_compare b a (compare_swap a b h),
    λ h. swap_compare a b (compare_of_earlier b a h),
  ),
  (compare-eq_of a b, λ e. rw e (compare_refl b)),
)

-- There is no fourth result.
pub compare_cases :
    (a b : ParsedVersion)
    → (compare_versions a b ≡ negsuc 0)
      ⊎ (compare_versions a b ≡ pos 1)
      ⊎ (compare_versions a b ≡ pos 0)
unfolding compare_versions
compare_cases a b = ground arith

pub IsEarlier-trans : (a b c : ParsedVersion) → IsEarlier a b → IsEarlier b c → IsEarlier a c
IsEarlier-trans a b c p q = ground arith
