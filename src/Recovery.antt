-- ===== src/Recovery.antt =====
-- schedune-control-plane/internal/recovery: bootstrap.go, what becomes of the stored executions when
-- the control plane restarts; orphan_classify.go and reassociate.go, which execution a process that
-- runs on the host belongs to.
pub mod Bootstrapped
pub mod Matching
pub mod Sweep
pub mod Bootstrap
use schedune.Base.{
  ◌≡◌, String, Bool, true, false, not, ◌&&◌, Option, none, some, List, [], ◌∷◌, ◌++◌, ◌<>◌, ◌==◌,
  if◌then◌else◌, Result, ok, err,
}
use schedune.Base.Int64.{ℤ, eqb_ℤ}
use schedune.Base.Dict.{Dict}
use schedune.Schema.Orphan.{
  OrphanRecord, active, possibly_managed_but_unlinked, stale_execution_artifact,
  unmanaged_backend_process,
}
use schedune.Schema.Execution.{
  LaunchState, terminating, terminated, unknown, same_state, PreparedLaunch, LaunchExecutionRecord,
  RuntimeObservation, Inspector,
}
use schedune.Lifecycle.{append_trace, transition_to}
use schedune.Lifecycle.Reconcile.{prepared_of}

-- What recoverExecution writes into the event: its type, the reason and the message.
pub record RecoveryNote : Type 0 where
  pub event_type : String
  pub reason_code : String
  pub message : String

abbrev note : String → String → String → RecoveryNote
note event_type code msg = record { event_type = event_type; reason_code = code; message = msg }

abbrev alive_message : LaunchState → String
alive_message s =
    if same_state s terminating
    then "Process still exists, remaining in Terminating"
    else "Process confirmed alive"

-- The part for a record with a PID, with what Inspect returns; `later` is the clock when the trace
-- step is appended. An error of TransitionTo is ignored.
unfoldable pub recover_observed :
    ℤ → LaunchExecutionRecord → Result RuntimeObservation → LaunchExecutionRecord × RecoveryNote
unfolding transition_to append_trace
recover_observed later rec (err e) = (
  (transition_to later rec unknown "ERR_RECOVERY_REHYDRATE_FAILED"
      ("Failed to inspect PID: " <> e)).0,
  note "ExecutionRecoveryUnknown" "ERR_RECOVERY_REHYDRATE_FAILED" "Process inspect failed",
)
recover_observed later rec (ok obs) =
    if obs.process_exists
    then (
      append_trace later (record rec { runtime_liveness = "Alive" }) "RecoveryBootstrap" "Success"
          "RECOVERY_CONFIRMED" (alive_message rec.state),
      note "ExecutionRehydrated" "RECOVERY_CONFIRMED" (alive_message rec.state),
    )
    else if same_state rec.state terminating
    then (
      (transition_to later rec terminated "ERR_RECOVERY_EXECUTION_MISSING"
          "Terminating process missing on restart").0,
      note "ExecutionRehydrated" "RECOVERY_TERMINATED_MISSING"
          "Terminating process converged to Terminated",
    )
    else (
      (transition_to later rec unknown "ERR_RECOVERY_EXECUTION_MISSING"
          "Process missing on restart").0,
      note "ExecutionRecoveryUnknown" "ERR_RECOVERY_EXECUTION_MISSING" "Process missing",
    )

abbrev pub seen_by : String → ℤ → LaunchExecutionRecord → LaunchExecutionRecord
seen_by epoch now rec = record rec { recovery_epoch = epoch; last_observed_at_sec = some now }

-- The two cases of `rec.PID != nil`.
unfoldable pub recover_pid :
    Inspector → ℤ → LaunchExecutionRecord → Option ℤ → LaunchExecutionRecord × RecoveryNote
unfolding recover_observed transition_to
recover_pid inspect later rec (some pid) =
    recover_observed later rec
      (inspect rec.execution_id (some pid) (prepared_of rec.prepared_state))
recover_pid inspect later rec none = (
  (transition_to later rec unknown "ERR_RECOVERY_STALE_HANDLE"
      "Mid-flight state without PID recovered as Unknown").0,
  note "ExecutionRecoveryUnknown" "ERR_RECOVERY_STALE_HANDLE" "No PID assigned before crash",
)

-- recoverExecution, up to the save and the event.
unfoldable pub recover_execution :
    Inspector → String → ℤ → ℤ → LaunchExecutionRecord → LaunchExecutionRecord × RecoveryNote
unfolding recover_pid
recover_execution inspect epoch now later rec =
    recover_pid inspect later (seen_by epoch now rec) rec.pid

-- runtime/enumerate.go and runtime/process_identity.go. The values of `details` are JSON texts.
pub record EnumeratedProcess : Type 0 where
  pub pid : ℤ
  pub ppid : Option ℤ
  pub backend : String
  pub command : String
  pub command_args : List String
  pub command_fingerprint : String
  pub execution_id_hint : String
  pub workload_id_hint : String
  pub observed_at_sec : ℤ
  pub details : Dict String

pub record ProcessIdentity : Type 0 where
  pub pid : ℤ
  pub backend : String
  pub started_at_sec : Option ℤ
  pub command_fingerprint : String
  pub execution_id_hint : String

pub record MatchResult : Type 0 where
  pub matched : Bool
  pub ambiguous : Bool
  pub execution_id : String
  pub reason : String

abbrev pub has_pid : ℤ → Option ℤ → Bool
has_pid p none = false
has_pid p (some q) = eqb_ℤ q p

abbrev pub has_backend : String → Option PreparedLaunch → Bool
has_backend b none = false
has_backend b (some prepared) = prepared.runtime_backend == b

-- The process carries the execution's id as its hint.
abbrev pub is_hinted : EnumeratedProcess → LaunchExecutionRecord → Bool
is_hinted p ex = not (p.execution_id_hint == "") && p.execution_id_hint == ex.execution_id

-- The process has the execution's backend and PID.
abbrev pub is_weak : EnumeratedProcess → LaunchExecutionRecord → Bool
is_weak p ex = has_backend p.backend ex.prepared_state && has_pid p.pid ex.pid

-- The loop over the executions: the ids of the exact and of the weak matches.
unfoldable pub collect_matches :
    EnumeratedProcess
    → List LaunchExecutionRecord
    → List String
    → List String
    → List String × List String
collect_matches p [] exact weak = (exact, weak)
collect_matches p (ex ∷ execs) exact weak =
    collect_matches p execs (if is_hinted p ex then exact ++ ex.execution_id ∷ [] else exact)
      (if is_hinted p ex then weak else if is_weak p ex then weak ++ ex.execution_id ∷ [] else weak)

abbrev match_of : Bool → Bool → String → String → MatchResult
match_of matched ambiguous id reason = record {
  matched = matched;
  ambiguous = ambiguous;
  execution_id = id;
  reason = reason;
}

-- The decision on the two lists.
unfoldable pub decide_match : List String × List String → MatchResult
decide_match (id ∷ [], weak) = match_of true false id "Exact execution marker match"
decide_match (a ∷ b ∷ exact, weak) = match_of false true "" "Multiple exact marker matches"
decide_match ([], id ∷ []) = match_of true false id "Weak PID/Backend match"
decide_match ([], a ∷ b ∷ weak) = match_of false true "" "Multiple weak PID/Backend matches"
decide_match ([], []) = match_of false false "" "No matching execution record"

unfoldable pub match_enumerated_process_to_execution :
    EnumeratedProcess → List LaunchExecutionRecord → MatchResult
match_enumerated_process_to_execution p execs = decide_match (collect_matches p execs [] [])

pub record ReassociationResult : Type 0 where
  pub matched : Bool
  pub ambiguous : Bool
  pub missing : Bool
  pub matched_pid : Option ℤ
  pub reason_code : String
  pub message : String

unfoldable pub observed_pids : ℤ → List ProcessIdentity → List ℤ
observed_pids pid [] = []
observed_pids pid (obs ∷ observed) =
    let rest = observed_pids pid observed in if eqb_ℤ obs.pid pid then obs.pid ∷ rest else rest

-- The decision on the PIDs that match.
unfoldable pub decide_reassociation : List ℤ → ReassociationResult
decide_reassociation (pid ∷ []) = record {
  matched = true;
  ambiguous = false;
  missing = false;
  matched_pid = some pid;
  reason_code = "RECOVERY_CONFIRMED";
  message = "Exact PID match";
}
decide_reassociation (a ∷ b ∷ pids) = record {
  matched = false;
  ambiguous = true;
  missing = false;
  matched_pid = none;
  reason_code = "ERR_RECOVERY_REASSOCIATION_AMBIGUOUS";
  message = "Multiple matches for PID";
}
decide_reassociation [] = record {
  matched = false;
  ambiguous = false;
  missing = true;
  matched_pid = none;
  reason_code = "ERR_RECOVERY_EXECUTION_MISSING";
  message = "PID not found";
}

unfoldable pub reassociate_execution :
    LaunchExecutionRecord → List ProcessIdentity → ReassociationResult
reassociate_execution rec observed = elim rec.pid [
  | none ↦ record {
    matched = false;
    ambiguous = false;
    missing = true;
    matched_pid = none;
    reason_code = "ERR_RECOVERY_STALE_HANDLE";
    message = "Execution has no PID to reassociate";
  }
  | some pid ↦ decide_reassociation (observed_pids pid observed)
]

abbrev classification_of : Bool → String → String × String
classification_of ambiguous hint =
    if ambiguous
    then (possibly_managed_but_unlinked, "ERR_ORPHAN_POSSIBLE_SCHEDUNE_PROCESS")
    else if not (hint == "")
    then (stale_execution_artifact, "ERR_ORPHAN_STALE_ARTIFACT_STATE")
    else (unmanaged_backend_process, "ERR_ORPHAN_UNMANAGED_BACKEND_PROCESS")

abbrev pub orphan_id_of : EnumeratedProcess → String
orphan_id_of p = "orph-" <> p.command_fingerprint

unfoldable pub classify_orphan : EnumeratedProcess → MatchResult → OrphanRecord
classify_orphan p match =
    let (classification, reason_code) = classification_of match.ambiguous p.execution_id_hint in
    record {
      orphan_id = orphan_id_of p;
      backend = p.backend;
      pid = p.pid;
      ppid = p.ppid;
      command = p.command;
      command_args = p.command_args;
      command_fingerprint = p.command_fingerprint;
      execution_id_hint = p.execution_id_hint;
      workload_id_hint = p.workload_id_hint;
      classification = classification;
      status = active;
      reason_code = reason_code;
      first_seen_at_sec = p.observed_at_sec;
      last_seen_at_sec = p.observed_at_sec;
      node_id = "";
      recovery_epoch = "";
      details = p.details;
    }
