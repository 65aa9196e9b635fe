-- ===== src/Schema/Orphan.antt =====
-- schedune-control-plane/internal/domain/orphan_policy.go: the records of processes that run on the
-- host and belong to no execution. Classifications and statuses are texts, as a stored row holds them.
-- The values of `details` are JSON texts.
use schedune.Base.{String, List, Option}
use schedune.Base.Int64.{ℤ}
use schedune.Base.Dict.{Dict}

abbrev pub unmanaged_backend_process : String
unmanaged_backend_process = "UnmanagedBackendProcess"

abbrev pub possibly_managed_but_unlinked : String
possibly_managed_but_unlinked = "PossiblyManagedButUnlinked"

abbrev pub stale_execution_artifact : String
stale_execution_artifact = "StaleExecutionArtifact"

abbrev pub active : String
active = "Active"

abbrev pub disappeared : String
disappeared = "Disappeared"

pub record OrphanRecord : Type 0 where
  pub orphan_id : String
  pub backend : String
  pub pid : ℤ
  pub ppid : Option ℤ
  pub command : String
  pub command_args : List String
  pub command_fingerprint : String
  pub execution_id_hint : String
  pub workload_id_hint : String
  pub classification : String
  pub status : String
  pub reason_code : String
  pub first_seen_at_sec : ℤ
  pub last_seen_at_sec : ℤ
  pub node_id : String
  pub recovery_epoch : String
  pub details : Dict String

pub record OrphanFilter : Type 0 where
  pub backend : String
  pub status : String
  pub classification : String
