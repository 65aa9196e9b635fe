-- ===== src/Doctor/Verdict.antt =====
-- Which FAIL items the doctor reports (schedune-control-plane/cmd/schedune/main.go, runDoctor).
use schedune.Base.{
  ◌≡◌, refl, ap, ◌∙◌, String, true, List, [], ◌∷◌, ◌++◌, if◌then◌else◌, eq_iff, arith,
}
use mathlib.Core.List.{append-nil}
use schedune.Doctor.{
  pass, warn, info, fail, Line, plain, marked, Probe, is_linux, orphan_sweep_ready,
  database_writable, runtime_writable, control_plane_ready, host_lines, storage_lines,
  primitive_lines, binary_lines, control_plane_lines, summary_lines, next_step, run_doctor,
}

-- The texts of the lines that are marked FAIL.
abbrev pub fails : List Line → List String
fails [] = []
fails (marked fail text ∷ lines) = text ∷ fails lines
fails (marked _ text ∷ lines) = fails lines
fails (plain text ∷ lines) = fails lines

fails-append : (xs ys : List Line) → fails (xs ++ ys) ≡ fails xs ++ fails ys
fails-append [] ys = refl
fails-append (marked fail text ∷ xs) ys = ap (λ l. text ∷ l) (fails-append xs ys)
fails-append (marked pass text ∷ xs) ys = fails-append xs ys
fails-append (marked warn text ∷ xs) ys = fails-append xs ys
fails-append (marked info text ∷ xs) ys = fails-append xs ys
fails-append (plain text ∷ xs) ys = fails-append xs ys

both :
    (xs ys : List Line) (a b : List String)
    → fails xs ≡ a
    → fails ys ≡ b
    → fails (xs ++ ys) ≡ a ++ b
both xs ys a b h k = fails-append xs ys ∙ ap (λ l. l ++ fails ys) h ∙ ap (λ l. a ++ l) k

silent : (xs ys : List Line) (a : List String) → fails xs ≡ a → fails ys ≡ [] → fails (xs ++ ys) ≡ a
silent xs ys a h k = both xs ys a [] h k ∙ append-nil a

-- The items that the recommendation does not look at.
abbrev pub runtime_item : Probe → List String
runtime_item p = if runtime_writable p then [] else "Runtime Path: ./var/run not writable" ∷ []

abbrev pub sweep_item : Probe → List String
sweep_item p = if orphan_sweep_ready p then [] else "Orphan sweep prerequisites" ∷ []

next_step_lem :
    (p : Probe) → next_step p ≡ "  make demo" → (is_linux p ≡ true) × (control_plane_ready p ≡ true)
unfolding next_step
next_step_lem p h = ground (
  arith,
  eq_iff "  make demo-fixture (evaluator mode)" "  make demo",
  eq_iff "  Resolve [FAIL] items before continuing." "  make demo",
)

host_fails : (p : Probe) → fails (host_lines p) ≡ []
host_fails p = ground arith

storage_fails : (p : Probe) → database_writable p ≡ true → fails (storage_lines p) ≡ runtime_item p
storage_fails p h = ground arith

primitive_fails : (p : Probe) → fails (primitive_lines p) ≡ []
primitive_fails p = ground arith

binary_fails : (p : Probe) → fails (binary_lines p) ≡ []
binary_fails p = ground arith

control_plane_fails :
    (p : Probe) → control_plane_ready p ≡ true → fails (control_plane_lines p) ≡ []
control_plane_fails p h = ground arith

summary_fails :
    (p : Probe)
    → is_linux p ≡ true
    → control_plane_ready p ≡ true
    → fails (summary_lines p) ≡ sweep_item p
summary_fails p l h = ground arith

-- Where the doctor recommends `make demo`, the items of its report that are marked FAIL are just two:
-- the runtime path, where that is not writable, and the orphan sweep, where /proc is not readable.
pub run_doctor-fails :
    (p : Probe)
    → next_step p ≡ "  make demo"
    → fails (run_doctor p) ≡ runtime_item p ++ sweep_item p
unfolding run_doctor
run_doctor-fails p h =
    let (linux, ready) = next_step_lem p h in
    let writable : database_writable p ≡ true = ground arith in
    let to_storage = host_lines p ++ storage_lines p in
    let to_primitive = to_storage ++ primitive_lines p in
    let to_binary = to_primitive ++ binary_lines p in
    let to_control = to_binary ++ control_plane_lines p in
    let to_summary = to_control ++ summary_lines p in
    let end : List Line = plain "Recommended next step:" ∷ plain (next_step p) ∷ [] in
    let storage =
      both (host_lines p) (storage_lines p) [] (runtime_item p) (host_fails p)
        (storage_fails p writable) in
    let primitive =
      silent to_storage (primitive_lines p) (runtime_item p) storage (primitive_fails p) in
    let binary = silent to_primitive (binary_lines p) (runtime_item p) primitive (binary_fails p) in
    let control =
      silent to_binary (control_plane_lines p) (runtime_item p) binary
        (control_plane_fails p ready) in
    let summary =
      both to_control (summary_lines p) (runtime_item p) (sweep_item p) control
        (summary_fails p linux ready) in
    silent to_summary end (runtime_item p ++ sweep_item p) summary refl
