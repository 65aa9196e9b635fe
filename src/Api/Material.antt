-- ===== src/Api/Material.antt =====
-- When reconcileExecution notes a poll as an event
-- (schedune-control-plane/internal/api/launch_handlers.go, `changed` and materialSignalChanged).
use schedune.Base.{
  ◌≡◌, ◌↔◌, ◌⊎◌, refl, ap, Bool, true, false, Option, none, some, same_bool, eq_iff, arith,
}
use schedune.Base.Int64.{ℤ, pos, negsuc, eqb_ℤ}
use schedune.Schema.Execution.{
  LaunchState, same_state, ReadinessSignalSummary, LaunchExecutionRecord,
}
use schedune.Api.Launches.{material_signal_changed, exit_code_changed, is_material}

same_state_iff : (s t : LaunchState) → (same_state s t ≡ true) ↔ (s ≡ t)
same_state_iff (LaunchState.other x) (LaunchState.other y) =
    (λ h. ap LaunchState.other ((eq_iff x y).0 h), λ h. (eq_iff x y).1 cc)
same_state_iff s t = ground arith

eqb_ℤ_iff : (a b : ℤ) → (eqb_ℤ a b ≡ true) ↔ (a ≡ b)
eqb_ℤ_iff (pos a) (pos b) = ground arith
eqb_ℤ_iff (pos a) (negsuc b) = ground arith
eqb_ℤ_iff (negsuc a) (pos b) = ground arith
eqb_ℤ_iff (negsuc a) (negsuc b) = ground arith

same_bool_iff : (a b : Bool) → (same_bool a b ≡ true) ↔ (a ≡ b)
same_bool_iff a b = ground arith

-- The exit code is as before, or there is none after the poll.
abbrev pub SameExit : Option ℤ → Option ℤ → Type 0
SameExit before after = (after ≡ none) ⊎ (before ≡ after)

-- The signal is as before, up to the path and the time of the observation.
abbrev pub SameSignal : Option ReadinessSignalSummary → Option ReadinessSignalSummary → Type 0
SameSignal none none = Unit
SameSignal none (some b) = ⊥
SameSignal (some a) none = ⊥
SameSignal (some a) (some b) =
    (a.control_socket_exists ≡ b.control_socket_exists)
    × (a.control_socket_dial_ok ≡ b.control_socket_dial_ok)
    × (a.backend_ready_signal ≡ b.backend_ready_signal)
    × (a.backend_signal_source ≡ b.backend_signal_source)
    × (a.startup_grace_elapsed ≡ b.startup_grace_elapsed)

-- A poll after which an execution shows nothing new.
pub record IsUnchanged (before after : LaunchExecutionRecord) : Type 0 where
  pub same_state : before.state ≡ after.state
  pub same_liveness : before.runtime_liveness ≡ after.runtime_liveness
  pub same_readiness : before.runtime_readiness ≡ after.runtime_readiness
  pub same_exit : SameExit before.exit_code after.exit_code
  pub same_signal : SameSignal before.readiness_signal after.readiness_signal

exit_iff : (a b : Option ℤ) → (exit_code_changed a b ≡ false) ↔ SameExit a b
exit_iff none none = ground arith
exit_iff none (some b) = ground arith
exit_iff (some a) none = ground arith
exit_iff (some a) (some b) = ground (arith, eqb_ℤ_iff a b)

signal_iff :
    (a b : Option ReadinessSignalSummary) → (material_signal_changed a b ≡ false) ↔ SameSignal a b
unfolding material_signal_changed
signal_iff none none = ground arith
signal_iff none (some b) = ground arith
signal_iff (some a) none = ground arith
signal_iff (some a) (some b) = ground (
  arith,
  same_bool_iff a.control_socket_exists b.control_socket_exists,
  same_bool_iff a.control_socket_dial_ok b.control_socket_dial_ok,
  same_bool_iff a.backend_ready_signal b.backend_ready_signal,
  eq_iff a.backend_signal_source b.backend_signal_source,
  same_bool_iff a.startup_grace_elapsed b.startup_grace_elapsed,
)

-- The five comparisons of the code, against the five of the record.
pub is_material_iff :
    (before after : LaunchExecutionRecord)
    → (is_material before after ≡ false) ↔ IsUnchanged before after
unfolding is_material
is_material_iff before after =
    let states = same_state_iff before.state after.state in
    let alive = eq_iff before.runtime_liveness after.runtime_liveness in
    let ready = eq_iff before.runtime_readiness after.runtime_readiness in
    let exits = exit_iff before.exit_code after.exit_code in
    let signals = signal_iff before.readiness_signal after.readiness_signal in
    (
      λ h. record {
        same_state = states.0 (ground arith);
        same_liveness = alive.0 (ground arith);
        same_readiness = ready.0 (ground arith);
        same_exit = exits.0 (ground arith);
        same_signal = signals.0 (ground arith);
      },
      λ u.
          rw
            (
              states.1 u.same_state,
              alive.1 u.same_liveness,
              ready.1 u.same_readiness,
              exits.1 u.same_exit,
              signals.1 u.same_signal,
            )
            refl,
    )
