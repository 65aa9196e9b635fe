-- ===== src/Api.antt =====
-- schedune-control-plane/internal/api: the handlers of the HTTP interface. A handler takes what it binds
-- from the request and returns its status with a body; the framework is not part of the model. What it
-- reads of the request is an argument, with the error of the binding where that fails.
pub mod Readiness
pub mod Launches
pub mod Planning
pub mod Nodes
pub mod Executions
pub mod Starting
pub mod Observed
pub mod Material
pub mod Reconciled
pub mod Executed
pub mod Planned
use schedune.Base.{◌≡◌, ℕ, String}

-- The status with a body, with `{"error": e}`, or with `{"error": e, "details": d}`.
pub data Reply (A : Type 0) : Type 0 where
  replied : ℕ → A → Reply A
  refused : ℕ → String → Reply A
  invalid : ℕ → String → String → Reply A

-- The constants of net/http.
abbrev pub status_ok : ℕ
status_ok = 200

abbrev pub status_accepted : ℕ
status_accepted = 202

abbrev pub status_bad_request : ℕ
status_bad_request = 400

abbrev pub status_not_found : ℕ
status_not_found = 404

abbrev pub status_conflict : ℕ
status_conflict = 409

abbrev pub status_internal_server_error : ℕ
status_internal_server_error = 500

pub replied_injective : {A : Type 0} {n : ℕ} {a b : A} → replied n a ≡ replied n b → a ≡ b
replied_injective h = cc
