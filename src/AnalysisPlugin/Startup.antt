-- ===== src/AnalysisPlugin/Startup.antt =====
-- src/hs_analysis_plugins.c: the analysis plugins that are there at the start, and their threads.
pub mod Fewest
use hindsight.Base.{
  ℕ, zero, suc, ◌+◌, ◌%◌, ◌==◌, Bool, true, false, not, ◌&&◌, Option, none, some, List, [], ◌∷◌,
  ◌++◌, ltb, if◌then◌else◌, length, get_elem?, set,
}
use hindsight.Base.Run.{Run, ok, exit_failure, ◌>>=◌}
use hindsight.CString.{Bytes}
use hindsight.Disk.{Disk, put, rename}
use hindsight.Util.{
  max_path, fits, get_fqfn, has_ext, rtc_ext, cfg_ext, analysis_dir, input_dir, prune_err,
}
use hindsight.Checkpoint.{Checkpoint}
use hindsight.CheckpointReader.{Table, lookup_input_checkpoint}
use hindsight.Config.Options.{LuaNumber, Entries, Checked, uint_max}
use hindsight.Config.Sandbox.{SandboxConfig, load_sandbox_config}
use hindsight.Input.{Input}
use hindsight.AnalysisPlugin.Threads.{AnalysisThread, add_to_analysis_plugins}
use hindsight.AnalysisPlugin.Placement.{int_max, get_tid, get_previous_tid}
use hindsight.AnalysisPlugin.Loading.{AnalysisPaths, AnalysisShared, add_created}

-- The bytes of a file that was opened, if it was, go to one that was opened for writing.
abbrev copy_open : Disk → Bytes → Option Bytes → Disk
copy_open d nfn none = put d nfn (some [])
copy_open d nfn (some content) = put d nfn (some content)

-- A file that cannot be renamed is copied.
unfoldable pub migrate : Disk → Bytes → Bytes → Disk
unfolding rename
migrate d ofn nfn =
    let (d', renamed) = rename d ofn nfn in
    if renamed then d' else if d.refuses nfn then d else copy_open d nfn (d.content ofn)

unfoldable pub migrate_to : Disk → Option Bytes → Option Bytes → Run Disk
unfolding migrate
migrate_to d (some ofn) (some nfn) = ok (migrate d ofn nfn)
migrate_to d _ _ = exit_failure

-- The first loop: the files of the runtime configurations go to the output path.
unfoldable pub migrate_all : Disk → Bytes → Bytes → List Bytes → Run Disk
unfolding migrate_to has_ext get_fqfn fits
migrate_all d dir output_path [] = ok d
migrate_all d dir output_path (e ∷ rest) = do
  d' ←
      if has_ext e rtc_ext
      then migrate_to d (get_fqfn dir e max_path)
          (fits max_path (output_path ++ (b'/' ∷ (analysis_dir ++ (b'.' ∷ e)))))
      else ok d
  migrate_all d' dir output_path rest

-- One more plugin on a thread, by the number of the thread.
unfoldable pub count_on : ℕ → List ℕ → List ℕ
count_on tid counts = elim (get_elem? counts (tid % length counts)) [
  | none ↦ counts
  | some n ↦ set counts (tid % length counts) (n + 1)
]

-- The loop over the counts, from the thread `i` on: the first without a plugin, or else the first with
-- the fewest.
unfoldable pub fewest : ℕ → List ℕ → ℕ → ℕ → ℕ
fewest i [] thread min_cnt = thread
fewest i (n ∷ rest) thread min_cnt =
    let lower = fewest (i + 1) rest i n in
    let same = fewest (i + 1) rest thread min_cnt in
    if n == 0 then i else if ltb n min_cnt then lower else same

-- The threads that are found in the configurations; as in Placement.
module _ {LuaTable : Type 0} (run_lua : Bytes → Checked (Entries LuaTable))
    (to_unsigned : LuaNumber → ℕ) where
  -- The second loop: how many plugins have a thread of their own.
  unfoldable pub count_all : Disk → Bytes → Bytes → List Bytes → List ℕ → List ℕ
  unfolding get_tid get_previous_tid count_on has_ext
  count_all d dir output_path [] counts = counts
  count_all d dir output_path (e ∷ rest) counts =
      let tid = get_tid run_lua to_unsigned d dir e in
      let tid' =
        if tid == uint_max then get_previous_tid run_lua to_unsigned d output_path e else tid in
      count_all d dir output_path rest
        (if has_ext e cfg_ext && not (tid' == uint_max) then count_on tid' counts else counts)

  -- The thread of a plugin, and the counts; one without a thread gets that with the fewest plugins.
  unfoldable pub choose_thread : Disk → Bytes → Bytes → SandboxConfig → List ℕ → ℕ × List ℕ
  unfolding get_previous_tid fewest count_on
  choose_thread d output_path e sbc counts =
      let previous = get_previous_tid run_lua to_unsigned d output_path e in
      let chosen = fewest 0 counts uint_max int_max in
      if not (sbc.thread == uint_max)
      then (sbc.thread, counts)
      else if not (previous == uint_max)
      then (previous, counts)
      else (chosen, count_on chosen counts)

  module _ {Plugin : Type 0} (create : SandboxConfig → Option Plugin) (print : LuaNumber → Bytes)
      (stamp : Bytes) where
    unfoldable pub start_chosen :
        AnalysisPaths
        → Bytes
        → AnalysisShared Plugin
        → List ℕ
        → Option SandboxConfig
        → AnalysisShared Plugin × List ℕ
    unfolding choose_thread add_to_analysis_plugins
    start_chosen paths e s counts none = (s, counts)
    start_chosen paths e s counts (some sbc) =
        let (thread, counts') = choose_thread s.disk paths.output_path e sbc counts in
        (add_created thread (create (record sbc { thread = thread })) s, counts')

    -- The third loop
    unfoldable pub start_all :
        AnalysisPaths → List Bytes → AnalysisShared Plugin → List ℕ → AnalysisShared Plugin
    unfolding load_sandbox_config start_chosen
    start_all paths [] s counts = s
    start_all paths (e ∷ rest) s counts =
        let (d, sbc) =
          load_sandbox_config print run_lua stamp s.disk paths.run_path_analysis e
            (some paths.defaults) b'a' in
        let (s', counts') = start_chosen paths e (record s { disk = d }) counts sbc in
        start_all paths rest s' counts'

    no_counts : List (AnalysisThread Plugin) → List ℕ
    no_counts [] = []
    no_counts (_ ∷ rest) = 0 ∷ no_counts rest

    abbrev after_opendir :
        (List Bytes → Run (AnalysisShared Plugin))
        → Option (List Bytes)
        → Run (AnalysisShared Plugin)
    after_opendir next none = exit_failure
    after_opendir next (some names) = next names

    -- `hs_load_analysis_startup`, where the directory has the same entries each time that it is read
    unfoldable pub load_analysis_startup :
        AnalysisPaths → AnalysisShared Plugin → Run (AnalysisShared Plugin)
    unfolding prune_err migrate_all count_all start_all no_counts
    load_analysis_startup paths s =
        let dir = paths.run_path_analysis in
        let d = prune_err s.disk dir in
        after_opendir
          (λ names. do
            d' ← migrate_all d dir paths.output_path names
            let counts = count_all d' dir paths.output_path names (no_counts s.threads)
            ok (start_all paths names (record s { disk = d' }) counts))
          (d.entries dir)

-- `hs_start_analysis_threads`, for one thread: its reader and its checkpoint.
unfoldable pub start_thread :
    {Number : Type 0} → Disk → Table Number → Bytes → Input → Run (Input × Checkpoint)
unfolding lookup_input_checkpoint
start_thread d t output_path input = do
  cp ← lookup_input_checkpoint d t input_dir (some input.name) (some output_path) input.cp
  ok (record input { cp = cp }, cp)
