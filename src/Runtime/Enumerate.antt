-- ===== src/Runtime/Enumerate.antt =====
-- schedune-control-plane/internal/runtime: enumerate_linux.go and fingerprint.go. The directory /proc
-- is an argument, as is the hash; the file names and contents are texts.
use Prim.Native.Char.{code}
use schedune.Base.{
  ℕ, zero, suc, String, Bool, true, not, ◌&&◌, ◌||◌, Option, none, some, List, [], ◌∷◌, ◌<>◌, ◌==◌,
  if◌then◌else◌, leb, ltb, eqb, is_empty, is_some, codes, contains, Result, ok, err,
}
use schedune.Base.Int64.{ℤ, pos, negsuc}
use schedune.Base.Paths.{slash, split_at, onto_first}
use schedune.Version.{is_digit, digits_value}
use schedune.Recovery.{EnumeratedProcess}

-- One entry of /proc: what Readlink of `exe`, and ReadFile of `cmdline` and `stat` return.
pub record ProcEntry : Type 0 where
  pub name : String
  pub is_dir : Bool
  pub exe : Option String
  pub cmdline : Option String
  pub stat : Option String

abbrev all_digits : List ℕ → Bool
all_digits [] = true
all_digits (c ∷ s) = is_digit c && all_digits s

abbrev is_number : List ℕ → Bool
is_number s = not (is_empty s) && all_digits s

-- strconv.Atoi: an optional sign and digits, within an `int`.
unfoldable pub parse_int : List ℕ → Option ℤ
parse_int [] = none
parse_int (c ∷ s) =
    if eqb c b'-'
    then if is_number s && leb (digits_value 0 s) 0x8000000000000000
      then some (elim (digits_value 0 s) [ zero ↦ pos 0 | suc n ↦ negsuc n ])
      else none
    else if eqb c b'+'
    then if is_number s && ltb (digits_value 0 s) 0x8000000000000000
      then some (pos (digits_value 0 s))
      else none
    else if is_number (c ∷ s) && ltb (digits_value 0 (c ∷ s)) 0x8000000000000000
    then some (pos (digits_value 0 (c ∷ s)))
    else none

-- The text after a prefix that it has: strings.HasPrefix and strings.TrimPrefix.
unfoldable pub after_prefix : String → String → Option String
after_prefix String.[] s = some s
after_prefix (String.◌∷◌ c p) String.[] = none
after_prefix (String.◌∷◌ c p) (String.◌∷◌ d s) =
    let rest = after_prefix p s in if eqb (code c) (code d) then rest else none

-- `bytes.TrimRight(s, "\x00")`
unfoldable pub trim_zeros : String → String
trim_zeros String.[] = ""
trim_zeros (String.◌∷◌ c s) =
    let rest = trim_zeros s in if rest == "" && eqb (code c) 0 then "" else String.◌∷◌ c rest

-- The last piece that is not empty.
abbrev last_piece : String → List String → String
last_piece found [] = found
last_piece found (p ∷ ps) = last_piece (if p == "" then found else p) ps

-- filepath.Base
unfoldable pub base_name : String → String
base_name path =
    let last = last_piece "" (split_at slash path) in
    if path == "" then "." else if last == "" then "/" else last

-- The white space of strings.Fields.
abbrev is_space : ℕ → Bool
is_space c =
    (leb 9 c && leb c 13)
    || eqb c 32
    || eqb c 0x85
    || eqb c 0xa0
    || eqb c 0x1680
    || (leb 0x2000 c && leb c 0x200a)
    || eqb c 0x2028
    || eqb c 0x2029
    || eqb c 0x202f
    || eqb c 0x205f
    || eqb c 0x3000

-- The pieces between white space, of which strings.Fields keeps those that are not empty.
unfoldable pub space_pieces : String → List String
space_pieces String.[] = "" ∷ []
space_pieces (String.◌∷◌ c s) =
    let rest = space_pieces s in
    if is_space (code c) then "" ∷ rest else onto_first (String.◌∷◌ c String.[]) rest

abbrev drop_empty : List String → List String
drop_empty [] = []
drop_empty (p ∷ ps) = let rest = drop_empty ps in if p == "" then rest else p ∷ rest

-- The text after the last closing parenthesis, where LastIndexByte finds one.
unfoldable pub after_paren : String → Option String
after_paren String.[] = none
after_paren (String.◌∷◌ c s) = elim (after_paren s) [
  | some rest ↦ some rest
  | none ↦ if eqb (code c) b')' then some s else none
]

abbrev second_field : List String → Option ℤ
second_field [] = none
second_field (a ∷ []) = none
second_field (a ∷ b ∷ fields) = parse_int (codes b)

-- The PPID of a stat file; the outer `none` is the panic of `statData[endParen+2:]` on a file that
-- ends with its last parenthesis.
abbrev ppid_after : Option String → Option (Option ℤ)
ppid_after none = some none
ppid_after (some String.[]) = none
ppid_after (some (String.◌∷◌ c s)) = some (second_field (drop_empty (space_pieces s)))

unfoldable pub ppid_of : Option String → Option (Option ℤ)
unfolding after_paren space_pieces
ppid_of none = some none
ppid_of (some stat) = ppid_after (after_paren stat)

-- The loop over the parts of an argument, for the part after the first "schedune" that is not last.
unfoldable pub part_after_schedune : String → List String → String
part_after_schedune hint [] = hint
part_after_schedune hint (p ∷ []) = hint
part_after_schedune hint (p ∷ q ∷ parts) =
    let rest = part_after_schedune hint (q ∷ parts) in if p == "schedune" then q else rest

abbrev pub hint_of_marker : String → String → String
hint_of_marker hint arg =
    if contains arg "/run/schedune/" then part_after_schedune hint (split_at slash arg) else hint

abbrev pub hint_of_flag : String → Option String → String
hint_of_flag hint none = hint
hint_of_flag hint (some id) = id

-- The loop over the arguments, with the hint found so far.
unfoldable pub exec_hint : String → List String → String
exec_hint hint [] = hint
exec_hint hint (arg ∷ args) =
    exec_hint (hint_of_flag (hint_of_marker hint arg) (after_prefix "--exec-id=" arg)) args

-- The backend of a binary's name; the empty text where the process is no hypervisor.
unfoldable pub backend_of_binary : String → String
backend_of_binary basename =
    if is_some (after_prefix "qemu-system-" basename)
    then "kvm_qemu"
    else if basename == "cloud-hypervisor"
    then "cloud_hypervisor"
    else if basename == "firecracker"
    then "firecracker"
    else ""

-- `strings.Join(args, " ")`
abbrev join_words : List String → String
join_words [] = ""
join_words (s ∷ []) = s
join_words (s ∷ t ∷ ss) = s <> " " <> join_words (t ∷ ss)

module _ (hash : String → String) where
  -- FingerprintProcess; `hash` gives the SHA-256 sum of a text in hexadecimal digits.
  unfoldable pub fingerprint_process : String → String → List String → String
  fingerprint_process backend command args =
      hash ("backend=" <> backend <> "|bin=" <> command <> "|args=" <> join_words args)

  -- The record of a process, with its command line as a list.
  unfoldable pub process_of : ℤ → ℤ → String → Option ℤ → List String → Option EnumeratedProcess
  unfolding fingerprint_process exec_hint
  process_of now pid backend ppid [] = none
  process_of now pid backend ppid (command ∷ args) = some (record {
    pid = pid;
    ppid = ppid;
    backend = backend;
    command = command;
    command_args = args;
    command_fingerprint = fingerprint_process backend command args;
    execution_id_hint = exec_hint "" (command ∷ args);
    workload_id_hint = "";
    observed_at_sec = now;
    details = [];
  })

  -- What one entry adds to the processes: nothing where a guard skips it.
  abbrev found_process : ℤ → ℤ → String → ProcEntry → Option (Option EnumeratedProcess)
  found_process now pid backend entry = elim entry.cmdline [
    | none ↦ some none
    | some cmdline ↦ elim (ppid_of entry.stat) [
      | none ↦ none
      | some ppid ↦ some (process_of now pid backend ppid (split_at 0 (trim_zeros cmdline)))
    ]
  ]

  -- The body of the loop over the entries of /proc; the outer `none` is a panic.
  unfoldable pub enumerate_entry : ℤ → ProcEntry → Option (Option EnumeratedProcess)
  unfolding parse_int ppid_of process_of
  enumerate_entry now entry =
      if not entry.is_dir then some none else elim (parse_int (codes entry.name)) [
        | none ↦ some none
        | some pid ↦ elim entry.exe [
          | none ↦ some none
          | some target ↦
              let backend = backend_of_binary (base_name target) in
              if backend == "" then some none else found_process now pid backend entry
        ]
      ]

  abbrev onto : Option EnumeratedProcess → List EnumeratedProcess → List EnumeratedProcess
  onto none procs = procs
  onto (some p) procs = p ∷ procs

  unfoldable pub enumerate_entries : ℤ → List ProcEntry → Option (List EnumeratedProcess)
  unfolding enumerate_entry
  enumerate_entries now [] = some []
  enumerate_entries now (entry ∷ entries) =
      let rest = enumerate_entries now entries in
      elim (enumerate_entry now entry) [
        | none ↦ none
        | some found ↦ elim rest [ none ↦ none | some procs ↦ some (onto found procs) ]
      ]

  -- LinuxProcEnumerator.Enumerate, with what ReadDir returns.
  unfoldable pub enumerate : ℤ → Result (List ProcEntry) → Option (Result (List EnumeratedProcess))
  unfolding enumerate_entries
  enumerate now (err e) = some (err e)
  enumerate now (ok entries) = elim (enumerate_entries now entries) [
    | none ↦ none
    | some procs ↦ some (ok procs)
  ]
