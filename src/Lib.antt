-- ===== src/Lib.antt =====
-- Verification of the Schedune control plane (schedune-control-plane, in Go).
--
-- The control plane takes reports of nodes, decides which node may serve a workload and on which
-- runtime backend, and drives the execution that it starts there through a state machine. A report
-- (pkg/schema/v1alpha1.go) is projected to a node record (ProjectEnvelope); Evaluate and ScheduleV0
-- pick a node for a workload intent; BuildLaunchPlan fills in a launch spec for it; ValidateLaunch
-- asks SelectBackend for a backend that the node can run; StartLaunch validates, prepares and spawns,
-- saving the execution record and emitting events on the way; Reconcile polls the process and moves
-- the record along the transition table; recovery does so after a restart of the control plane, and a
-- sweep compares the processes of the host with the executions and keeps a list of the orphans. The
-- executions, their events and the orphans are in an SQLite database, the nodes in memory. The HTTP
-- handlers compose these operations.
--
-- Files, and the code that each models (paths below schedune-control-plane):
--
--   Base and its children    tests on numbers and texts, lists, Go's int and int64 (Base/Int64: sums
--                            and differences wrap at 64 bits), maps (Base/Dict), the order of texts
--   Schema/*                 pkg/schema: launch specs and executions (Spec, Execution), agent reports
--                            (Envelope), intents (Workload), plans (Plan), reason codes (Reasons)
--   Lifecycle                internal/domain/lifecycle/state.go: allowed_transitions is
--                            AllowedTransitions, transition_to is TransitionTo, which returns the
--                            record and an error; Graph holds the diagram as a relation
--   Lifecycle/Reconcile      internal/domain/lifecycle/reconcile.go: reconcile is Reconcile
--   Version                  internal/domain/version.go, with the regular expression as a matcher
--   Node                     internal/domain/projector.go: project_envelope is ProjectEnvelope
--   Select                   internal/domain/runtime_select.go: select_backend is SelectBackend;
--                            Refusals holds the checks of each backend
--   Validate                 internal/domain/validate_launch.go: validate_launch is
--                            ValidateLaunch; Hints holds the remediation hints
--   Evaluate                 internal/domain/evaluate.go: evaluate is Evaluate
--   Schedule                 internal/domain/scheduler.go: schedule_v0 is ScheduleV0
--   Plan                     internal/domain/plan_launch.go: build_launch_plan is BuildLaunchPlan
--   Orchestrate              internal/domain/orchestrator.go: start_launch is StartLaunch, and
--                            terminate_launch is TerminateLaunch; Calls holds what each step calls
--   Readiness                internal/domain/readiness.go
--   Recovery                 internal/recovery: recover_execution is recoverExecution (bootstrap.go),
--                            match_enumerated_process_to_execution and reassociate_execution stand for
--                            the functions of orphan_classify.go and reassociate.go
--   Recovery/Bootstrap       Bootstrap of bootstrap.go, on the database
--   Recovery/Sweep           internal/recovery/orphan_sweep.go: sweep_once is SweepOnce, over an
--                            interface OrphanStore for DurableOrphanStore
--   Store                    internal/store/memory.go and internal/domain/eligibility.go
--   Sqlite                   internal/store/sqlite: the tables executions and events of db.go, and in
--                            Orphans the table orphans of orphans.go, which fills the interface of the
--                            sweep; a table is the list of its rows, a statement a function on it
--   Runtime                  internal/runtime: paths.go and storage.go; Executors holds the three
--                            executors, Inspectors the inspectors of inspect/ with socket_probe.go, and
--                            Enumerate the reading of /proc with fingerprint.go
--   Api                      internal/api: Launches, Executions, Starting and Readiness hold
--                            launch_handlers.go, Planning plan_handlers.go and schedule_handlers.go,
--                            Nodes the other handlers; an answer is a Reply, its status and body
--   Server                   cmd/schedune/main.go, runServer: the routes are a Request each, serve calls
--                            their handlers, swept and restarted are the sweep and the start; a life of
--                            the server is a sequence of such steps
--   Doctor                   runDoctor and main of the same file: the lines that the doctor prints, over
--                            what it asks the host
--   Examples                 the theorems at concrete inputs
--
-- Conventions. A Go struct is a record, a pointer that may be nil is an Option, an error is its
-- message. A method that changes a record through a pointer returns the changed record. The clock, the
-- source of ids, the stores, the executors and the inspector are arguments. A loop over a map takes
-- the order of its visits as an argument, since Go does not fix it. Where the code would panic, the
-- result is none. No definition runs on fuel but the decimal form of a number (Base/Texts), whose fuel
-- is the number itself and one more, and each round divides by ten; all other loops are structural.
--
-- Arguments of the model. What the standard library and the third-party packages do is an argument:
-- encoding/json (Json in Sqlite), the calls of os, os/exec and net (Host in Runtime/Executors), the
-- entries of /proc and SHA-256 (Runtime/Enumerate), and what a request's body decodes to. The database
-- driver may refuse any statement: each operation takes the error as an argument, none where the
-- statement succeeds, and a refused statement changes nothing. The saves and events of a
-- launch, a termination and a recovery may each meet an error (perform_all), which the code ignores.
--
-- Not modelled. The HTTP framework, which answers a request that panics with 500, the logs, and the
-- indexes and the opening of the database are input and output. The agent (schedune-agent) is written
-- in Rust and reaches the control plane through its reports only. Concurrent calls on one record are
-- not modelled: each operation is one step.
pub mod Base
pub mod Schema
pub mod Lifecycle
pub mod Version
pub mod Node
pub mod Select
pub mod Validate
pub mod Evaluate
pub mod Schedule
pub mod Plan
pub mod Orchestrate
pub mod Readiness
pub mod Store
pub mod Sqlite
pub mod Runtime
pub mod Recovery
pub mod Api
pub mod Server
pub mod Doctor
pub mod Examples
