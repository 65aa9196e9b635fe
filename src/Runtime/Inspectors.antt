-- ===== src/Runtime/Inspectors.antt =====
-- schedune-control-plane/internal/runtime/inspect: what each inspector makes of the host; and
-- internal/runtime/socket_probe.go.
use schedune.Base.{
  String, Bool, true, false, not, ◌&&◌, Option, none, some, ◌==◌, if◌then◌else◌, ok,
}
use schedune.Schema.Execution.{
  PreparedQemuLaunch, PreparedCloudHypervisorLaunch, RuntimeObservation, Inspector,
}
use schedune.Base.Int64.{ℤ}
use schedune.Runtime.Executors.{Host}

abbrev pub qemu_socket : Option PreparedQemuLaunch → String
qemu_socket none = ""
qemu_socket (some p) = p.control_socket_path

abbrev pub cloud_hypervisor_socket : Option PreparedCloudHypervisorLaunch → String
cloud_hypervisor_socket none = ""
cloud_hypervisor_socket (some p) = p.control_socket_path

module _ (h : Host) where
  unfoldable pub socket_exists : String → Bool
  socket_exists path = not (path == "") && h.is_socket path

  unfoldable pub unix_socket_dial_ok : String → Bool
  unix_socket_dial_ok path = not (path == "") && h.dials path

  unfoldable pub process_is_alive : Option ℤ → Bool
  process_is_alive none = false
  process_is_alive (some pid) = h.is_alive pid

  -- The part that the two inspectors with a control socket share: the process, the socket, the signal.
  -- `dial_source` and `socket_source` are the two texts of the signal's source.
  unfoldable pub observe_socket : String → String → String → Option ℤ → String → RuntimeObservation
  unfolding socket_exists unix_socket_dial_ok process_is_alive
  observe_socket backend dial_source socket_source pid path =
      let exists = not (path == "") && socket_exists path in
      let dial_ok = exists && unix_socket_dial_ok path in
      record {
        backend = backend;
        process_exists = process_is_alive pid;
        pid = pid;
        exit_code = none;
        observed_at_sec = h.now;
        control_socket_path = path;
        control_socket_exists = exists;
        control_socket_dial_ok = dial_ok;
        startup_grace_elapsed = true;
        backend_ready_signal = if dial_ok then true else exists;
        backend_signal_source =
            if dial_ok then dial_source else if exists then socket_source else "";
        backend_specific_error = none;
      }

  -- QemuInspector.Inspect
  unfoldable pub inspect_qemu : Inspector
  unfolding observe_socket
  inspect_qemu execution_id pid prepared = ok (
      observe_socket "kvm_qemu" "qmp_socket_dial_ok" "qmp_socket_exists" pid
        (qemu_socket prepared.kvm_qemu))

  -- CloudHypervisorInspector.Inspect
  unfoldable pub inspect_cloud_hypervisor : Inspector
  unfolding observe_socket
  inspect_cloud_hypervisor execution_id pid prepared = ok (
      observe_socket "cloud_hypervisor" "ch_api_socket_dial_ok" "ch_api_socket_exists" pid
        (cloud_hypervisor_socket prepared.cloud_hypervisor))

  -- ProcessInspector.Inspect
  unfoldable pub inspect_process : Inspector
  unfolding process_is_alive
  inspect_process execution_id pid prepared =
      let alive = process_is_alive pid in
      ok (record {
        backend = "";
        process_exists = alive;
        pid = pid;
        exit_code = none;
        observed_at_sec = h.now;
        control_socket_path = "";
        control_socket_exists = false;
        control_socket_dial_ok = false;
        startup_grace_elapsed = false;
        backend_ready_signal = alive;
        backend_signal_source = if alive then "process_exists" else "";
        backend_specific_error = none;
      })

  -- StaticInspectorResolver.Resolve
  unfoldable pub resolve_inspector : String → Inspector
  resolve_inspector backend =
      if backend == "kvm_qemu"
      then inspect_qemu
      else if backend == "cloud_hypervisor"
      then inspect_cloud_hypervisor
      else inspect_process
