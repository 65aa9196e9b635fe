-- ===== src/Examples/Requests.antt =====
-- Theorems on the requests that the API answers and on the hosts that it starts processes on, at
-- concrete inputs.
use mathlib.Core.Path.{subst}
use schedune.Orchestrate.Calls.{Machine}
use schedune.Sqlite.Lookup.{Carries}
use schedune.Base.{
  ◌⊎◌, ℕ, String, Option, eqb, if◌then◌else◌, sym, ◌∙◌, some_injective, ◌≡◌, refl, String, true,
  false, none, some, [], ◌∷◌, ok,
}
use schedune.Base.Int64.{pos, decimal_ℤ}
use schedune.Schema.Execution.{
  LaunchExecutionRecord, PreparedLaunch, PreparedQemuLaunch, RuntimeEvent, message_payload, exited,
}
use schedune.Schema.Plan.{LaunchPlanRequest, LaunchPlanResult}
use schedune.Schema.Views.{ExecutionObservation}
use schedune.Store.{InMemoryStore, new_in_memory_store, get_node}
use schedune.Sqlite.{
  SqliteStore, ListedEvent, new_sqlite_store, save_execution, append_event, rows_of, list_events,
  get_execution,
}
use schedune.Runtime.{resolve_primary_disk, get_control_socket_path, is_valid_id, is_id_char}
use schedune.Runtime.Executors.{Host, prepared_kvm, prepare_kvm, kvm_executor, resolve_executor}
use schedune.Runtime.Prepared.{IsPrepared, resolve_executor-IsPrepared}
use schedune.Runtime.Hints.{by_kvm, exec_hint-workload_id}
use schedune.Runtime.Enumerate.{exec_hint}
use schedune.Orchestrate.{start_launch}
use schedune.Orchestrate.Spawned.{Ends}
use schedune.Orchestrate.Started.{start_launch-Ends}
use schedune.Api.{replied, status_ok}
use schedune.Api.Launches.{Poll, reconcile_execution}
use schedune.Api.Reconciled.{polled}
use schedune.Api.Executions.{with_execution, observation_of, observe_launch}
use schedune.Api.Observed.{ShowsRecent, observe_launch-ShowsRecent}
use schedune.Api.Starting.{execute_launch}
use schedune.Api.Executed.{to_execute, Executed, execute_launch-Executed}
use schedune.Api.Planning.{plan_launch}
use schedune.Api.Planned.{Planned, plan_launch-Planned}
use schedune.Examples.Data.{
  node_a, vm_spec, intent, template, started_execution, in_state, services, seen_alive, always,
}
use schedune.Examples.Stores.{json_for, json_for-Carries}

abbrev pub poll : Poll
poll = record {
  now = pos 1030;
  later = pos 1030;
  event_at = pos 1030;
  event_id = "ev1";
  append_fault = none;
  save_fault = none;
}

abbrev ready_soon : LaunchExecutionRecord
ready_soon =
    (polled (json_for started_execution) (λ backend. always (seen_alive true)) poll
      started_execution).0

abbrev launch : Ends services (to_execute vm_spec) (start_launch services (to_execute vm_spec))
launch = start_launch-Ends services (to_execute vm_spec)

-- A driver that refuses the third call.
abbrev refuses_third : ℕ → Option String
refuses_third i = if eqb i 2 then some "database is locked" else none

launch_carried :
    (m : Machine)
    → start_launch services (to_execute vm_spec) ≡ some m
    → Carries (json_for launch.machine.rec) m.rec
launch_carried m runs =
    subst (λ (n : Machine). Carries (json_for launch.machine.rec) n.rec)
      (some_injective (sym launch.returns ∙ runs)) (json_for-Carries launch.machine.rec)

execute_launch-Executed_example :
    Executed (json_for launch.machine.rec) services refuses_third vm_spec new_sqlite_store (
      execute_launch
        (json_for launch.machine.rec)
        services
        refuses_third
        (ok vm_spec)
        new_sqlite_store)
execute_launch-Executed_example =
    execute_launch-Executed (json_for launch.machine.rec) services refuses_third vm_spec
      new_sqlite_store launch_carried

abbrev plan_request : LaunchPlanRequest
plan_request = record {
  schema_version = "v1alpha1";
  workload_intent = intent;
  launch_template = template;
  mode = "launch";
  target_node_id = "";
}

abbrev pub hosts : InMemoryStore
hosts = record new_in_memory_store { nodes = ("node-a", node_a) ∷ [] }

plan_launch-Planned_example :
    (r : LaunchPlanResult) × (plan_launch
        (λ m. m)
        (λ m. m)
        (λ m. m)
        (λ i. pos 1030)
        (λ m. m)
        (pos 1030)
        (ok plan_request)
        hosts
        hosts
      ≡ some (replied status_ok r))
    × Planned (λ m. m) (λ m. m) plan_request (λ id. get_node id hosts) r
plan_launch-Planned_example =
    plan_launch-Planned (λ m. m) (λ m. m) (λ m. m) (λ i. pos 1030) (λ m. m) (pos 1030) plan_request
      hosts hosts

abbrev exited_execution : LaunchExecutionRecord
exited_execution = in_state exited

abbrev noted_event : RuntimeEvent
noted_event = record {
  event_id = "ev1";
  execution_id = "e1";
  event_type = "ReconcileStateChanged";
  timestamp_sec = pos 1030;
  reason_code = "";
  payload_json = message_payload "{}";
}

abbrev with_event : SqliteStore
with_event =
    (append_event (json_for exited_execution) none noted_event
      (save_execution (json_for exited_execution) none exited_execution new_sqlite_store).0).0

abbrev shown : ExecutionObservation (ListedEvent String)
shown =
    observation_of (json_for exited_execution) (λ backend. always (seen_alive true))
      (list_events (json_for exited_execution) none "e1" with_event) exited_execution

abbrev no_fault : Option String
no_fault = none

observe_launch-ShowsRecent_example :
    ((no_fault ≡ none)
      × ShowsRecent
          (json_for exited_execution)
          (rows_of "e1" with_event.events)
          shown.recent_events)
    ⊎ ((e : String) × (no_fault ≡ some e) × (shown.recent_events ≡ []))
unfolding observe_launch with_execution get_execution append_event save_execution
    reconcile_execution
observe_launch-ShowsRecent_example =
    observe_launch-ShowsRecent (json_for exited_execution) (λ backend. always (seen_alive true))
      none no_fault poll "e1" with_event with_event shown refl

abbrev pub host : Host
host = record {
  is_missing = λ path. false;
  mkdir_all = λ path. none;
  start = λ path args. ok (pos 42);
  kill = λ pid. none;
  is_alive = λ pid. true;
  is_socket = λ path. true;
  dials = λ path. true;
  now = pos 1030;
}

abbrev prepared : PreparedLaunch
prepared = prepared_kvm vm_spec ("/img/root.qcow2", "qcow2") "var/run/schedune/w1/qemu.sock"

resolve_executor-IsPrepared_example : IsPrepared vm_spec "kvm_qemu" prepared
unfolding resolve_executor prepare_kvm resolve_primary_disk get_control_socket_path is_valid_id
    is_id_char
resolve_executor-IsPrepared_example =
    resolve_executor-IsPrepared host "kvm_qemu" (kvm_executor host) vm_spec prepared refl refl

abbrev qemu_launch : PreparedQemuLaunch
qemu_launch = record {
  binary_path = "qemu-system-x86_64";
  artifact_path = "/img/root.qcow2";
  command_args =
      "-enable-kvm" ∷ "-m" ∷ "1024" ∷ "-smp" ∷ "2" ∷ "-drive" ∷ "file=/img/root.qcow2,format=qcow2"
      ∷ "-nographic" ∷ "-qmp" ∷ "unix:var/run/schedune/w1/qemu.sock,server,nowait" ∷ [];
  control_socket_path = "var/run/schedune/w1/qemu.sock";
}

exec_hint-workload_id_example :
    exec_hint "" (qemu_launch.binary_path ∷ qemu_launch.command_args) ≡ "w1"
unfolding prepared_kvm prepare_kvm resolve_primary_disk get_control_socket_path is_valid_id
    is_id_char decimal_ℤ
exec_hint-workload_id_example =
    exec_hint-workload_id host vm_spec (qemu_launch.binary_path ∷ qemu_launch.command_args)
      (by_kvm prepared qemu_launch refl refl)
