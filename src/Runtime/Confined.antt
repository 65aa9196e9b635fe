-- ===== src/Runtime/Confined.antt =====
-- Where the control socket of a workload lies (schedune-control-plane/internal/runtime/paths.go), and
-- what the executors make of a launch (kvm.go, cloudhypervisor.go, firecracker_validate.go).
use text.Mathlib.TextLemmas.{nil-append, cons-append, append_assoc}
use schedune.Base.{◌≡◌, refl, ℕ, String, true, [], ◌∷◌, ◌<>◌, arith, ok}
use schedune.Base.Paths.{slash, split_at, split_at-dirs, split_at-piece, split_at-Lacks, Lacks}
use schedune.Runtime.{
  is_id_char, all_id_chars, is_valid_id, sanitize_workload_id, get_runtime_dir,
  get_control_socket_path,
}

-- An id that the pattern accepts holds neither a slash nor a dot.
all_id_chars-Lacks : (id : String) → all_id_chars id ≡ true → Lacks slash id × Lacks b'.' id
unfolding all_id_chars is_id_char
all_id_chars-Lacks String.[] h = (tt, tt)
all_id_chars-Lacks (String.◌∷◌ c s) h =
    let rest = all_id_chars-Lacks s (ground arith) in
    ((ground arith, rest.0), (ground arith, rest.1))

pub is_valid_id-Lacks : (id : String) → is_valid_id id ≡ true → Lacks slash id × Lacks b'.' id
unfolding is_valid_id
is_valid_id-Lacks id h = all_id_chars-Lacks id (ground arith)

-- The path of a socket in the runtime directory of a workload.
abbrev pub IsSocketOf : String → String → String → Type 0
IsSocketOf workload_id backend path =
    split_at slash path ≡ "var" ∷ "run" ∷ "schedune" ∷ workload_id ∷ (backend <> ".sock") ∷ []

unfoldable pub socket_text : String → String → String
socket_text w b = "var/run/schedune/" <> w <> "/" <> (b <> ".sock")

pub get_control_socket_path_lem :
    (w b p : String)
    → get_control_socket_path w b ≡ ok p
    → (is_valid_id w ≡ true) × (is_valid_id b ≡ true) × (socket_text w b ≡ p)
unfolding get_control_socket_path get_runtime_dir sanitize_workload_id socket_text
get_control_socket_path_lem w b p h = ground arith

Lacks-append : (c : ℕ) (s t : String) → Lacks c s → Lacks c t → Lacks c (s <> t)
Lacks-append c String.[] t h k = rw (nil-append t) k
Lacks-append c (String.◌∷◌ d s) t (h, hs) k = rw (cons-append d s t) (h, Lacks-append c s t hs k)

socket_text_lem : (w b : String) → Lacks slash w → Lacks slash b → IsSocketOf w b (socket_text w b)
unfolding socket_text
socket_text_lem w b h k =
    let prefix : Lacks slash "var" = (refl, (refl, (refl, tt))) in
    let suffix : Lacks slash ".sock" = (refl, (refl, (refl, (refl, (refl, tt))))) in
    rw
      (
        append_assoc ("var/run/schedune/" <> w) "/" (b <> ".sock"),
        append_assoc "var/run/schedune/" w ("/" <> (b <> ".sock")),
        append_assoc "var" "/run/schedune/" (w <> ("/" <> (b <> ".sock"))),
        split_at-dirs "var" (w <> ("/" <> (b <> ".sock"))) prefix,
        split_at-piece w (b <> ".sock") h,
        split_at-Lacks slash (b <> ".sock") (Lacks-append slash b ".sock" k suffix),
      )
      refl

-- The control socket of a workload lies in the directory var/run/schedune/<id>, under the name of the
-- backend, and the id holds no dot: it names no other directory.
pub get_control_socket_path-IsSocketOf :
    (w b p : String) → get_control_socket_path w b ≡ ok p → IsSocketOf w b p × Lacks b'.' w
get_control_socket_path-IsSocketOf w b p h =
    let (valid_w, valid_b, same) = get_control_socket_path_lem w b p h in
    let (no_slash, no_dot) = is_valid_id-Lacks w valid_w in
    (rw (← same) (socket_text_lem w b no_slash (is_valid_id-Lacks b valid_b).0), no_dot)

-- The socket of a path is of one workload and one backend only.
pub IsSocketOf-unique : (w w' b b' p : String) → IsSocketOf w b p → IsSocketOf w' b' p → w ≡ w'
IsSocketOf-unique w w' b b' p h k = cc
