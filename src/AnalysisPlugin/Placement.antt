-- ===== src/AnalysisPlugin/Placement.antt =====
-- src/hs_analysis_plugins.c: the thread on which a plugin is started that comes from the load directory.
pub mod LeastUsed
pub mod Restart
use hindsight.Base.{
  ℕ, zero, suc, ◌+◌, ◌-◌, Bool, true, false, not, ◌&&◌, ◌||◌, Option, none, some, List, [], ◌∷◌,
  ◌++◌, ltb, leb, ◌==◌, if◌then◌else◌,
}
use hindsight.Base.Run.{Run, ok, exit_failure, ◌>>=◌}
use hindsight.CString.{Bytes, codes}
use hindsight.Disk.{Disk}
use hindsight.Util.{
  max_path, get_fqfn, has_ext, file_exists, remove_file, cfg_ext, off_ext, err_ext, rtc_ext,
  analysis_dir,
}
use hindsight.Config.Options.{
  LuaNumber, Value, number, Entries, Checked, invalid, valid, get_field, uint_max,
}
use hindsight.Config.LoadDirectory.{with_ext}
use hindsight.AnalysisPlugin.Threads.{AnalysisThread}

-- The variables of `least_used_thread_id`.
pub record LeastThread : Type 0 where
  pub tid : ℕ
  pub min_util : ℕ  -- uint8_t
  pub min_cnt : ℕ  -- int

abbrev pub int_max : ℕ
int_max = 2147483647

module _ {Plugin : Type 0} where
  unfoldable pub lesser_used : ℕ → AnalysisThread Plugin → LeastThread → LeastThread
  lesser_used i at best =
      if ltb at.utilization best.min_util
        || (at.utilization == best.min_util && ltb at.list_cnt best.min_cnt)
      then record { tid = i; min_util = at.utilization; min_cnt = at.list_cnt }
      else best

  -- The loop, from the thread `i` on.
  unfoldable pub scan_threads : ℕ → List (AnalysisThread Plugin) → LeastThread → LeastThread
  unfolding lesser_used
  scan_threads i [] best = best
  scan_threads i (at ∷ rest) best = scan_threads (i + 1) rest (lesser_used i at best)

  -- `least_used_thread_id`, with `analysis_utilization_limit`
  unfoldable pub least_used_thread_id : ℕ → List (AnalysisThread Plugin) → ℕ
  unfolding scan_threads
  least_used_thread_id limit threads =
      let best = scan_threads 0 threads (record { tid = 0; min_util = 255; min_cnt = int_max }) in
      if not (limit == 0) && leb limit best.min_util then uint_max else best.tid

-- `ext_exists`
unfoldable pub ext_exists : Disk → Bytes → Bytes → Bytes → Run Bool
unfolding get_fqfn with_ext file_exists
ext_exists d dir name ext = elim (get_fqfn dir name max_path) [
  | none ↦ exit_failure
  | some path ↦ ok (file_exists d (with_ext path ext))
]

-- A configuration that names another thread than that on which the plugin runs is deleted.
unfoldable pub unless_moved : Disk → Bytes → Bytes → ℕ → ℕ → Disk × Option ℕ
unfolding remove_file
unless_moved d lpath name otid tid =
    if otid == tid then (d, some tid) else ((remove_file d lpath name).0, none)

-- The numbers of the threads are found in the configurations. `run_lua` is `luaL_dofile` on a text, and
-- `to_unsigned` is `(unsigned)lua_tointeger`.
module _ {Table : Type 0} (run_lua : Bytes → Checked (Entries Table))
    (to_unsigned : LuaNumber → ℕ) where
  unfoldable pub thread_option : Option (Value Table) → ℕ
  thread_option (some (number d)) = to_unsigned d
  thread_option _ = uint_max

  unfoldable pub tid_of : Checked (Entries Table) → ℕ
  unfolding thread_option get_field
  tid_of (invalid _) = uint_max
  tid_of (valid t) = thread_option (get_field (codes "thread") t)

  unfoldable pub tid_in_file : Option Bytes → ℕ
  unfolding tid_of
  tid_in_file none = uint_max
  tid_in_file (some text) = tid_of (run_lua text)

  -- `get_tid`
  unfoldable pub get_tid : Disk → Bytes → Bytes → ℕ
  unfolding tid_in_file get_fqfn
  get_tid d path name = elim (get_fqfn path name max_path) [
    | none ↦ uint_max
    | some fqfn ↦ tid_in_file (d.content fqfn)
  ]

  -- `get_previous_tid`, from the configuration that the program wrote for the plugin
  unfoldable pub get_previous_tid : Disk → Bytes → Bytes → ℕ
  unfolding get_tid with_ext
  get_previous_tid d opath name = get_tid d opath (with_ext (analysis_dir ++ (b'.' ∷ name)) rtc_ext)

  -- The part of `get_thread_id` for a `.cfg` file
  unfoldable pub thread_of_cfg : Disk → Bytes → Bytes → Bytes → Bytes → Run (Disk × Option ℕ)
  unfolding unless_moved get_tid get_previous_tid ext_exists
  thread_of_cfg d lpath rpath opath name = do
    off ← ext_exists d rpath name off_ext
    err ← ext_exists d rpath name err_ext
    let tid = get_tid d lpath name
    let otid = get_previous_tid d opath name
    ok (
        if not off && not err
        then unless_moved d lpath name otid (if tid == uint_max then otid else tid)
        else (d, some tid))

  -- The part of `get_thread_id` for a `.off` file
  unfoldable pub thread_of_off : Disk → Bytes → Bytes → Bytes → Disk × Option ℕ
  unfolding get_previous_tid remove_file
  thread_of_off d lpath opath name =
      let tid = get_previous_tid d opath (with_ext name cfg_ext) in
      if tid == uint_max then ((remove_file d lpath name).0, none) else (d, some tid)

  -- `get_thread_id`; `none` is its result false
  unfoldable pub get_thread_id : Disk → Bytes → Bytes → Bytes → Bytes → Run (Disk × Option ℕ)
  unfolding thread_of_cfg thread_of_off has_ext
  get_thread_id d lpath rpath opath name =
      if has_ext name cfg_ext
      then thread_of_cfg d lpath rpath opath name
      else if has_ext name off_ext
      then ok (thread_of_off d lpath opath name)
      else ok (d, none)
