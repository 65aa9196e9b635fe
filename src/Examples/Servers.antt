-- ===== src/Examples/Servers.antt =====
-- The theorem on the life of a server: a launch on a new database, then a sweep.
use schedune.Base.{◌≡◌, refl, ap, String, Option, none, some, [], ok, err}
use schedune.Base.Int64.{pos}
use schedune.Orchestrate.{start_launch}
use schedune.Orchestrate.Calls.{Machine}
use schedune.Orchestrate.Spawned.{Ends}
use schedune.Orchestrate.Started.{start_launch-Ends}
use schedune.Sqlite.{Json, new_sqlite_store}
use schedune.Recovery.Sweep.{sweep_once}
use schedune.Runtime.Enumerate.{enumerate}
use schedune.Api.{replied}
use schedune.Api.Executed.{to_execute}
use schedune.Api.Starting.{status_of_state, perform_all, started, execute_launch}
use schedune.Server.{
  Server, Call, Sweep, services_of, executed, serve, append_all, swept, on_execute_launch,
  with_record,
}
use schedune.Server.Database.{Extends}
use schedune.Server.Statements.{IsSound}
use schedune.Server.Reachable.{then, here, serves, sweeps, IsSound-of_steps}
use schedune.Examples.Data.{node_a, vm_spec, started_execution}
use schedune.Examples.Stores.{json_for}
use schedune.Examples.Requests.{host, hosts, poll}

abbrev json : Json String
json = json_for started_execution

abbrev new_server : Server
new_server = record { nodes = hosts; database = new_sqlite_store }

abbrev call : Call
call = record {
  host = host;
  goos = "linux";
  now = pos 1030;
  clock = λ i. pos 1030;
  new_id = λ i. "id";
  trace_order = λ m. m;
  hints_order = λ m. m;
  visit = λ m. m;
  order = λ m. m;
  then_nodes = hosts;
  fault = none;
  events_fault = none;
  polls = λ i. poll;
  save_faults = λ i. none;
}

abbrev launch :
    Ends
      (services_of node_a call hosts)
      (to_execute vm_spec)
      (start_launch (services_of node_a call hosts) (to_execute vm_spec))
launch = start_launch-Ends (services_of node_a call hosts) (to_execute vm_spec)

abbrev launched : Server
launched = record {
  nodes = hosts;
  database = perform_all json call.save_faults launch.machine.effects new_sqlite_store;
}

serves_launch :
    serve json node_a started_execution call (on_execute_launch (ok vm_spec)) new_server
    ≡ some (
      with_record (replied (status_of_state json launch.machine.rec.state) launch.machine.rec),
      launched,
    )
unfolding serve execute_launch
serves_launch =
    ap
      (λ (m : Option Machine).
        executed json node_a started_execution hosts
          (started json call.save_faults new_sqlite_store m))
      launch.returns

abbrev sweep : Sweep
sweep = record {
  hash = λ text. text;
  now = pos 1060;
  observed_at = pos 1060;
  entries = err "open /proc: permission denied";
  new_id = λ i. "id";
  fault = none;
  orphan_faults = [];
  event_faults = λ i. none;
}

sweeps_nothing : swept json sweep launched.database ≡ some launched.database
unfolding swept sweep_once enumerate append_all
sweeps_nothing = refl

IsSound-of_steps_example :
    IsSound json launched.database × Extends new_server.database launched.database
IsSound-of_steps_example =
    IsSound-of_steps json node_a started_execution new_server launched
      (then (serves call (on_execute_launch (ok vm_spec)) _ serves_launch)
        (then (sweeps sweep sweeps_nothing) here))
      (record { marshalled = tt; executions_unique = tt; events_unique = tt; orphans_unique = tt })
