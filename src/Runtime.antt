-- ===== src/Runtime.antt =====
-- schedune-control-plane/internal/runtime: paths.go, where the files of a running workload lie;
-- storage.go, which disk it boots from. Executors, Inspectors and Enumerate model the other files.
pub mod Executors
pub mod Inspectors
pub mod Enumerate
pub mod Confined
pub mod Prepared
pub mod Hints
use Prim.Native.Char.{code}
use Prim.Native.String
use schedune.Base.{
  ℕ, String, Bool, true, false, not, ◌&&◌, ◌||◌, List, [], ◌∷◌, ◌<>◌, ◌==◌, if◌then◌else◌, leb, eqb,
  Result, ok, err,
}
use schedune.Schema.Spec.{StorageAttachmentSpec, LaunchSpec}

-- The characters of the class `[a-zA-Z0-9_-]`, by their codes.
unfoldable pub is_id_char : ℕ → Bool
is_id_char c =
    (leb 97 c && leb c 122)
    || (leb 65 c && leb c 90)
    || (leb 48 c && leb c 57)
    || eqb c 95
    || eqb c 45

unfoldable pub all_id_chars : String → Bool
all_id_chars String.[] = true
all_id_chars (String.◌∷◌ c s) = is_id_char (code c) && all_id_chars s

-- `validIDPattern.MatchString(id)`, for the pattern `^[a-zA-Z0-9_-]+$`.
unfoldable pub is_valid_id : String → Bool
unfolding all_id_chars
is_valid_id id = not (id == "") && all_id_chars id

unfoldable pub sanitize_workload_id : String → Result String
sanitize_workload_id id =
    if is_valid_id id then ok id else err ("invalid characters in workload ID: " <> id)

-- `filepath.Join(a, b)` of two texts that are not empty and have nothing to clean.
abbrev pub join_path : String → String → String
join_path a b = a <> "/" <> b

unfoldable pub get_runtime_dir : String → Result String
unfolding sanitize_workload_id
get_runtime_dir workload_id = elim (sanitize_workload_id workload_id) [
  | err e ↦ err e
  | ok safe ↦ ok ("var/run/schedune/" <> safe)
]

unfoldable pub get_control_socket_path : String → String → Result String
unfolding get_runtime_dir
get_control_socket_path workload_id backend = elim (get_runtime_dir workload_id) [
  | err e ↦ err e
  | ok dir ↦
      if is_valid_id backend
      then ok (join_path dir (backend <> ".sock"))
      else err ("invalid characters in backend token: " <> backend)
]

abbrev pub format_or_raw : String → String
format_or_raw format = if format == "" then "raw" else format

-- The loop over the storage for the disk that is mounted at the root; `first` is the first disk.
unfoldable pub root_disk : StorageAttachmentSpec → List StorageAttachmentSpec → String × String
root_disk first [] = (first.host_path, format_or_raw first.format)
root_disk first (s ∷ storage) =
    let rest = root_disk first storage in
    if s.mount_point == "/" || s.mount_point == ""
    then (s.host_path, format_or_raw s.format)
    else rest

unfoldable pub resolve_disk_of : List StorageAttachmentSpec → String → String × String
unfolding root_disk
resolve_disk_of (s ∷ storage) image_reference = root_disk s (s ∷ storage)
resolve_disk_of [] image_reference =
    if not (image_reference == "") then (image_reference, "qcow2") else ("", "")

-- resolvePrimaryDisk: the path of the disk, and its format.
unfoldable pub resolve_primary_disk : LaunchSpec → String × String
unfolding resolve_disk_of
resolve_primary_disk spec = resolve_disk_of spec.storage spec.image_reference

-- The loop over the storage, with the kernel and the root file system found so far.
unfoldable pub firecracker_disks : List StorageAttachmentSpec → String → String → String × String
firecracker_disks [] kernel rootfs = (kernel, rootfs)
firecracker_disks (s ∷ storage) kernel rootfs =
    let is_root = s.mount_point == "/" in
    let is_kernel = s.mount_point == "/boot/vmlinux" || (s.format == "raw" && s.read_only) in
    firecracker_disks storage
      (if is_root then kernel else if is_kernel then s.host_path else kernel)
      (if is_root then s.host_path else rootfs)

-- resolveFirecrackerDisks: the kernel, and the root file system.
unfoldable pub resolve_firecracker_disks : LaunchSpec → String × String
unfolding firecracker_disks
resolve_firecracker_disks spec =
    let (kernel, rootfs) = firecracker_disks spec.storage "" "" in
    if not (kernel == "") && not (rootfs == "")
    then (kernel, rootfs)
    else (spec.kernel_image_path, spec.rootfs_path)
