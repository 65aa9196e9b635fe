-- ===== src/Validate/Verdict.antt =====
-- When ValidateLaunch calls a launch valid
-- (schedune-control-plane/internal/domain/validate_launch.go).
use schedune.Base.{
  ◌≡◌, ◌≢◌, ◌⊎◌, ◌↔◌, refl, String, Bool, true, false, not, ◌&&◌, Option, none, some, List, [], ◌∷◌,
  ◌++◌, is_empty, ◌==◌, eq_iff, arith, if◌then◌else◌,
}
use schedune.Base.Dict.{Dict, get}
use schedune.Schema.Spec.{LaunchSpec, SecurityContextSpec, LaunchValidationResult}
use schedune.Node.{NodeRecord}
use schedune.Select.Refusals.{is_unusable}
use schedune.Select.{Rejections, select_backend}
use schedune.Select.Choice.{CanRun, select_backend-CanRun}
use schedune.Validate.{
  say, check_architecture, check_deprecated, check_security, preflight, explain_rejected, accept,
  backend_layers, validate_launch,
}

-- What the check of the security context asks of the node.
abbrev pub seccomp_ok : Option SecurityContextSpec → NodeRecord → Bool
seccomp_ok none node = true
seccomp_ok (some security) node =
    if security.seccomp_profile == ""
    then true
    else not (is_unusable (get "kernel_seccomp_supported" node.capabilities))

-- A result is valid as long as nothing has been entered as blocking.
abbrev IsConsistent : LaunchValidationResult → Type 0
IsConsistent r = r.is_valid ≡ is_empty r.blocking_reason_codes

not_empty : (xs : List String) (x : String) → is_empty (xs ++ x ∷ []) ≡ false
not_empty [] x = refl
not_empty (y ∷ xs) x = refl

explain_rejected_keeps :
    (m : Dict String) (r : LaunchValidationResult)
    → ((explain_rejected m r).is_valid ≡ r.is_valid)
      × ((explain_rejected m r).blocking_reason_codes ≡ r.blocking_reason_codes)
      × ((explain_rejected m r).selected_backend ≡ r.selected_backend)
unfolding explain_rejected
explain_rejected_keeps [] r = (refl, refl, refl)
explain_rejected_keeps ((backend, reason) ∷ m) r = explain_rejected_keeps m (say _ r)

accept_keeps :
    (spec : LaunchSpec) (backend : String) (r : LaunchValidationResult)
    → ((accept spec backend r).is_valid ≡ r.is_valid)
      × ((accept spec backend r).blocking_reason_codes ≡ r.blocking_reason_codes)
      × ((accept spec backend r).selected_backend ≡ r.selected_backend)
unfolding accept
accept_keeps spec backend r = ground arith

preflight-is_valid :
    (spec : LaunchSpec) (node : NodeRecord)
    → (preflight spec node).is_valid
      ≡ ((spec.architecture == node.identity.architecture) && seccomp_ok spec.security node)
unfolding preflight check_architecture check_deprecated check_security
preflight-is_valid spec node = ground arith

security-IsConsistent :
    (security : Option SecurityContextSpec) (node : NodeRecord) (r : LaunchValidationResult)
    → IsConsistent r
    → IsConsistent (check_security security node r)
unfolding check_security
security-IsConsistent security node r h = ground (arith, not_empty r.blocking_reason_codes _)

preflight-IsConsistent :
    (spec : LaunchSpec) (node : NodeRecord) → IsConsistent (preflight spec node)
unfolding preflight check_architecture check_deprecated
preflight-IsConsistent spec node = security-IsConsistent spec.security node _ (ground arith)

abbrev fits_mode : LaunchSpec → String → Bool
fits_mode spec backend = not (backend == "firecracker" && spec.launch_mode == "Execute")

module _ (trace_order hints_order : Dict String → Dict String) where
  layers-is_valid :
      (spec : LaunchSpec) (chosen : String × Rejections) (r : LaunchValidationResult)
      → (backend_layers trace_order hints_order spec chosen r).is_valid
        ≡ (r.is_valid && (not (chosen.0 == "") && fits_mode spec chosen.0))
  unfolding backend_layers
  layers-is_valid spec (backend, rejections) r = grind (arith, explain_rejected_keeps, accept_keeps)

  layers-IsConsistent :
      (spec : LaunchSpec) (chosen : String × Rejections) (r : LaunchValidationResult)
      → IsConsistent r
      → IsConsistent (backend_layers trace_order hints_order spec chosen r)
  unfolding backend_layers
  layers-IsConsistent spec (backend, rejections) r k =
      grind (arith, explain_rejected_keeps, accept_keeps, not_empty)

  layers-selected :
      (spec : LaunchSpec) (chosen : String × Rejections) (r : LaunchValidationResult)
      → (backend_layers trace_order hints_order spec chosen r).selected_backend ≡ chosen.0
  unfolding backend_layers
  layers-selected spec (backend, rejections) r = grind (arith, explain_rejected_keeps, accept_keeps)

  -- The result lists no blocking code exactly where it is valid.
  pub validate_launch-IsConsistent :
      (spec : LaunchSpec) (node : NodeRecord)
      → IsConsistent (validate_launch trace_order hints_order spec node)
  unfolding validate_launch
  validate_launch-IsConsistent spec node = ground (
    arith,
    preflight-IsConsistent spec node,
    layers-IsConsistent spec (select_backend spec node) (preflight spec node)
        (preflight-IsConsistent spec node),
  )

  -- What a valid result needs, as a test.
  validate_launch-is_valid :
      (spec : LaunchSpec) (node : NodeRecord)
      → (validate_launch trace_order hints_order spec node).is_valid ≡ (
          (preflight spec node).is_valid
          && (not ((select_backend spec node).0 == "")
              && fits_mode spec (select_backend spec node).0))
  unfolding validate_launch
  validate_launch-is_valid spec node =
      ground (arith, layers-is_valid spec (select_backend spec node) (preflight spec node))

  selected_of_valid :
      (spec : LaunchSpec) (node : NodeRecord)
      → (validate_launch trace_order hints_order spec node).is_valid ≡ true
      → (validate_launch trace_order hints_order spec node).selected_backend
        ≡ (select_backend spec node).0
  unfolding validate_launch
  selected_of_valid spec node h =
      ground (arith, layers-selected spec (select_backend spec node) (preflight spec node))

  -- A launch is called valid exactly where the architectures agree, a requested seccomp profile is
  -- supported, a backend is chosen, and it is not Firecracker in the mode Execute.
  pub validate_launch_iff :
      (spec : LaunchSpec) (node : NodeRecord)
      → ((validate_launch trace_order hints_order spec node).is_valid ≡ true) ↔ (
          (spec.architecture ≡ node.identity.architecture)
          × (seccomp_ok spec.security node ≡ true)
          × ((select_backend spec node).0 ≢ "")
          × ((select_backend spec node).0 ≢ "firecracker" ⊎ spec.launch_mode ≢ "Execute"))
  validate_launch_iff spec node = ground (
    arith,
    validate_launch-is_valid spec node,
    preflight-is_valid spec node,
    eq_iff spec.architecture node.identity.architecture,
    eq_iff (select_backend spec node).0 "",
    eq_iff (select_backend spec node).0 "firecracker",
    eq_iff spec.launch_mode "Execute",
  )

  -- A launch that is called valid names a backend on which the node can run the spec.
  pub validate_launch-CanRun :
      (spec : LaunchSpec) (node : NodeRecord)
      → (validate_launch trace_order hints_order spec node).is_valid ≡ true
      → CanRun spec node (validate_launch trace_order hints_order spec node).selected_backend
  validate_launch-CanRun spec node h =
      rw (selected_of_valid spec node h)
        (select_backend-CanRun spec node ((validate_launch_iff spec node).0 h).2)
