-- ===== src/Output.antt =====
-- src/hs_output.c: the writing end of a queue.
pub mod Open
use hindsight.Base.{
  ℕ, ◌+◌, ◌≡◌, Bool, true, false, Option, none, some, List, [], ◌∷◌, ◌++◌, arith, if◌then◌else◌,
  length,
}
use hindsight.Base.Run.{Run, ok, exit_failure, ◌>>=◌}
use hindsight.CString.{Bytes}
use hindsight.Disk.{Disk, mkdir, open_append, bytes_of}
use hindsight.Util.{fits, max_path}
use hindsight.Checkpoint.{Checkpoint}
use hindsight.QueueFile.{find_last_id}
use hindsight.QueueFile.Naming.{log_name}

-- `hs_output`; the file that `fh` has open is that of `cp.id` in `path`
pub record Output : Type 0 where
  pub path : Bytes
  pub min_cp_id : ℕ  -- unsigned long long
  pub cp : Checkpoint

-- The name of the file that is open.
abbrev pub file_of : Output → Bytes
file_of o = o.path ++ (b'/' ∷ log_name o.cp.id)

-- `hs_open_output_file`; the buffer `fqfn` has 260 bytes
unfoldable pub open_output_file : Disk → Output → Run (Disk × Output)
unfolding fits open_append
open_output_file d o = elim (fits 260 (file_of o)) [
  | none ↦ exit_failure
  | some fqfn ↦ elim (open_append d o.path (log_name o.cp.id)) [
    | none ↦ exit_failure
    | some d' ↦
        ok (d', record o { cp = record o.cp { offset = length (bytes_of (d'.content fqfn)) } })
  ]
]

-- `hs_init_output`
unfoldable pub init_output : Disk → Bytes → Bytes → Run (Disk × Output)
init_output d path subdir =
    let dir = path ++ (b'/' ∷ subdir) in
    let last = find_last_id d dir in
    let o : Output = record {
      path = dir;
      min_cp_id = last;
      cp = record { id = last; offset = 0 };
    } in
    let (d1, made) = mkdir d path in
    let (d2, made_sub) = mkdir d1 dir in
    if made then (if made_sub then open_output_file d2 o else exit_failure) else exit_failure
