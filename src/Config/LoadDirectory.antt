-- ===== src/Config/LoadDirectory.antt =====
-- src/hs_config.c: a configuration that was put into the load directory starts its plugin, and a file
-- `<name>.off` stops it.
pub mod Moved
use hindsight.Base.{
  ℕ, ◌-◌, Bool, true, false, not, Option, none, some, List, [], ◌∷◌, ◌++◌, if◌then◌else◌, length,
  take,
}
use hindsight.Base.Run.{Run, ok, exit_failure, ◌>>=◌}
use hindsight.CString.{Bytes}
use hindsight.Disk.{Disk, unlink, rename}
use hindsight.Util.{max_path, get_fqfn, has_ext, file_exists, cfg_ext, off_ext, err_ext}

-- The results -1, 0 and 1 of `hs_process_load_cfg`.
pub data Loaded : Type 0 where
  not_loaded : Loaded
  stopped : Loaded
  started : Loaded

-- The path with another extension in place of its last four bytes.
unfoldable pub with_ext : Bytes → Bytes → Bytes
with_ext fn ext = take (length fn - 4) fn ++ ext

-- A file that is there is deleted; tells whether it is gone.
unfoldable pub clear_flag : Disk → Bytes → Disk × Bool
unfolding unlink file_exists
clear_flag d fn = if file_exists d fn then unlink d fn else (d, true)

abbrev pub moved : Loaded → Disk × Bool → Disk × Loaded
moved success (d, true) = (d, success)
moved success (d, false) = (d, not_loaded)

abbrev pub if_gone : Disk × Bool → (Disk → Disk × Loaded) → Disk × Loaded
if_gone (d, true) next = next d
if_gone (d, false) next = (d, not_loaded)

-- What is done with a `.cfg` file, by its paths in the load and in the run directory.
unfoldable pub move_cfg : Disk → Bytes → Bytes → Disk × Loaded
unfolding clear_flag rename with_ext
move_cfg d cfg_lpath cfg_rpath = if_gone (clear_flag d (with_ext cfg_rpath off_ext)) (λ d1.
    if_gone (clear_flag d1 (with_ext cfg_rpath err_ext))
      (λ d2. moved started (rename d2 cfg_lpath cfg_rpath)))

-- What is done with a `.off` file: it is deleted, and the configuration that runs is renamed.
unfoldable pub turn_off : Disk → Bytes → Option Bytes → Run (Disk × Loaded)
unfolding rename with_ext unlink
turn_off d off_lpath off_rpath =
    let (d1, deleted) = unlink d off_lpath in
    if deleted
    then elim off_rpath [
      | none ↦ exit_failure
      | some off_rpath ↦ ok (moved stopped (rename d1 (with_ext off_rpath cfg_ext) off_rpath))
    ]
    else ok (d1, not_loaded)

unfoldable pub load_cfg : Disk → Option Bytes → Option Bytes → Run (Disk × Loaded)
unfolding move_cfg
load_cfg d (some cfg_lpath) (some cfg_rpath) = ok (move_cfg d cfg_lpath cfg_rpath)
load_cfg d _ _ = exit_failure

unfoldable pub load_off : Disk → Option Bytes → Option Bytes → Run (Disk × Loaded)
unfolding turn_off
load_off d none off_rpath = exit_failure
load_off d (some off_lpath) off_rpath = turn_off d off_lpath off_rpath

-- `hs_process_load_cfg`
unfoldable pub process_load_cfg : Disk → Bytes → Bytes → Bytes → Run (Disk × Loaded)
unfolding load_cfg load_off has_ext get_fqfn
process_load_cfg d lpath rpath name =
    let in_load = get_fqfn lpath name max_path in
    let in_run = get_fqfn rpath name max_path in
    if has_ext name cfg_ext
    then load_cfg d in_load in_run
    else if has_ext name off_ext
    then load_off d in_load in_run
    else ok (d, not_loaded)
