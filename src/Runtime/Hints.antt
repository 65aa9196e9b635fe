-- ===== src/Runtime/Hints.antt =====
-- The hint that the enumeration reads from the command line of a process that an executor started
-- (schedune-control-plane/internal/runtime/enumerate_linux.go, with kvm.go and cloudhypervisor.go).
use Prim.Native.Char.{Char, code}
use text.Mathlib.TextLemmas.{cons-append, append_assoc}
use schedune.Base.{
  ap, contains-append, ◌≡◌, refl, sym, ◌∙◌, String, false, Option, none, some, List, ◌∷◌, ◌<>◌,
  ◌==◌, ok, eqb,
}
use schedune.Base.Paths.{slash, split_at-dirs, split_at-piece, Lacks}
use schedune.Schema.Spec.{LaunchSpec}
use schedune.Schema.Execution.{PreparedLaunch, PreparedQemuLaunch, PreparedCloudHypervisorLaunch}
use schedune.Runtime.{get_control_socket_path, resolve_primary_disk}
use schedune.Runtime.Executors.{
  Host, prepared_kvm, prepared_cloud_hypervisor, prepare_kvm, prepare_cloud_hypervisor,
}
use schedune.Runtime.Confined.{socket_text, get_control_socket_path_lem, is_valid_id-Lacks}
use schedune.Runtime.Prepared.{with_socket_lem, check_artifact_lem}
use schedune.Runtime.Enumerate.{
  after_prefix, part_after_schedune, hint_of_marker, hint_of_flag, exec_hint,
}

-- A text with a path in the directory of a workload.
abbrev path_text : String → String → String → String
path_text p w t = p <> ("/run/schedune/" <> (w <> ("/" <> t)))

-- Such an argument, which is no flag, gives the workload's id as the hint.
hint_lem :
    (hint : String) (c : Char) (p w t : String)
    → eqb b'-' (code c) ≡ false
    → Lacks slash (String.◌∷◌ c p)
    → Lacks slash w
    → (String.◌∷◌ c p == "schedune") ≡ false
    → hint_of_flag
        (hint_of_marker hint (path_text (String.◌∷◌ c p) w t))
        (after_prefix "--exec-id=" (path_text (String.◌∷◌ c p) w t))
      ≡ w
unfolding after_prefix part_after_schedune
hint_lem hint c p w t no_dash no_slash h k =
    rw
      (
        contains-append (String.◌∷◌ c p) "/run/schedune/" (w <> ("/" <> t)),
        split_at-dirs (String.◌∷◌ c p) (w <> ("/" <> t)) no_slash,
        split_at-piece w t h,
      )
      (rw (k, cons-append c p ("/run/schedune/" <> (w <> ("/" <> t))), no_dash) refl)

socket_path :
    (w b : String) → socket_text w b ≡ "var" <> ("/run/schedune/" <> (w <> ("/" <> (b <> ".sock"))))
unfolding socket_text
socket_path w b =
    rw
      (
        append_assoc ("var/run/schedune/" <> w) "/" (b <> ".sock"),
        append_assoc "var/run/schedune/" w ("/" <> (b <> ".sock")),
        append_assoc "var" "/run/schedune/" (w <> ("/" <> (b <> ".sock"))),
      )
      refl

qmp_text :
    (w : String)
    → "unix:" <> socket_text w "qemu" <> ",server,nowait"
      ≡ path_text "unix:var" w "qemu.sock,server,nowait"
qmp_text w =
    let tail : String = "/qemu.sock" in
    let rest : String = "/run/schedune/" <> (w <> tail) in
    rw
      (
        socket_path w "qemu",
        append_assoc "unix:" ("var" <> rest) ",server,nowait",
        append_assoc "var" rest ",server,nowait",
        append_assoc "/run/schedune/" (w <> tail) ",server,nowait",
        append_assoc w tail ",server,nowait",
      )
      (sym (
        append_assoc "unix:" "var" ("/run/schedune/" <> (w <> ("/" <> "qemu.sock,server,nowait")))))

no_slash_var : Lacks slash "var"
no_slash_var = (refl, (refl, (refl, tt)))

no_slash_unix : Lacks slash "unix:var"
no_slash_unix = (refl, (refl, (refl, (refl, (refl, (refl, (refl, (refl, tt))))))))

-- The hint of the command line of a prepared launch.
abbrev pub kvm_hint : Option PreparedQemuLaunch → String
kvm_hint none = ""
kvm_hint (some q) = exec_hint "" (q.binary_path ∷ q.command_args)

kvm_hint_lem :
    (spec : LaunchSpec) (disk : String × String) (socket : String)
    → get_control_socket_path spec.workload_id "qemu" ≡ ok socket
    → kvm_hint (prepared_kvm spec disk socket).kvm_qemu ≡ spec.workload_id
unfolding prepared_kvm exec_hint
kvm_hint_lem spec disk socket h =
    let (valid, _, same) = get_control_socket_path_lem spec.workload_id "qemu" socket h in
    rw (← same, qmp_text spec.workload_id)
      (hint_lem _ "u" "nix:var" spec.workload_id "qemu.sock,server,nowait" refl no_slash_unix
        (is_valid_id-Lacks spec.workload_id valid).0 refl)

abbrev pub cloud_hypervisor_hint : Option PreparedCloudHypervisorLaunch → String
cloud_hypervisor_hint none = ""
cloud_hypervisor_hint (some q) = exec_hint "" (q.binary_path ∷ q.command_args)

cloud_hypervisor_hint_lem :
    (spec : LaunchSpec) (artifact socket : String)
    → get_control_socket_path spec.workload_id "cloudhypervisor" ≡ ok socket
    → cloud_hypervisor_hint (prepared_cloud_hypervisor spec artifact socket).cloud_hypervisor
      ≡ spec.workload_id
unfolding prepared_cloud_hypervisor exec_hint
cloud_hypervisor_hint_lem spec artifact socket h =
    let w = spec.workload_id in
    let (valid, _, same) = get_control_socket_path_lem w "cloudhypervisor" socket h in
    rw (← same, socket_path w "cloudhypervisor")
      (hint_lem _ "v" "ar" w "cloudhypervisor.sock" refl no_slash_var (is_valid_id-Lacks w valid).0
        refl)

-- The command line of a process that an executor prepares for a spec and then starts.
pub data IsCommandOf (h : Host) (spec : LaunchSpec) : List String → Type 0 where
  by_kvm :
      (prep : PreparedLaunch) (q : PreparedQemuLaunch)
      → prepare_kvm h spec ≡ ok prep
      → prep.kvm_qemu ≡ some q
      → IsCommandOf h spec (q.binary_path ∷ q.command_args)
  by_cloud_hypervisor :
      (prep : PreparedLaunch) (q : PreparedCloudHypervisorLaunch)
      → prepare_cloud_hypervisor h spec ≡ ok prep
      → prep.cloud_hypervisor ≡ some q
      → IsCommandOf h spec (q.binary_path ∷ q.command_args)

kvm_lem :
    (h : Host) (spec : LaunchSpec) (prep : PreparedLaunch)
    → prepare_kvm h spec ≡ ok prep
    → kvm_hint prep.kvm_qemu ≡ spec.workload_id
unfolding prepare_kvm
kvm_lem h spec prep e =
    let (socket, found, same) = with_socket_lem prep _ _ (check_artifact_lem h spec prep _ _ e) in
    rw (← same) (kvm_hint_lem spec (resolve_primary_disk spec) socket found)

cloud_hypervisor_lem :
    (h : Host) (spec : LaunchSpec) (prep : PreparedLaunch)
    → prepare_cloud_hypervisor h spec ≡ ok prep
    → cloud_hypervisor_hint prep.cloud_hypervisor ≡ spec.workload_id
unfolding prepare_cloud_hypervisor
cloud_hypervisor_lem h spec prep e =
    let (socket, found, same) = with_socket_lem prep _ _ (check_artifact_lem h spec prep _ _ e) in
    rw (← same) (cloud_hypervisor_hint_lem spec (resolve_primary_disk spec).0 socket found)

-- The execution hint that the enumeration reads from the command line of a process that KvmExecutor or
-- CloudHypervisorExecutor starts for a spec is the id of the workload.
pub exec_hint-workload_id :
    (h : Host) (spec : LaunchSpec) (command : List String)
    → IsCommandOf h spec command
    → exec_hint "" command ≡ spec.workload_id
exec_hint-workload_id h spec _ (by_kvm prep q e same) =
    ap kvm_hint (sym same) ∙ kvm_lem h spec prep e
exec_hint-workload_id h spec _ (by_cloud_hypervisor prep q e same) =
    ap cloud_hypervisor_hint (sym same) ∙ cloud_hypervisor_lem h spec prep e
