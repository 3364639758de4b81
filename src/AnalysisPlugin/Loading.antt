-- ===== src/AnalysisPlugin/Loading.antt =====
-- src/hs_analysis_plugins.c: a file in the load directory, and the analysis plugins that it starts and
-- stops.
use hindsight.Base.{
  ℕ, ◌+◌, ◌%◌, ◌==◌, Bool, ◌&&◌, Option, none, some, List, [], ◌∷◌, if◌then◌else◌, length, drop,
  get_elem?, set,
}
use hindsight.Base.Run.{Run, ok, ◌>>=◌}
use hindsight.CString.{Bytes, strstr}
use hindsight.Disk.{Disk, is_some}
use hindsight.Util.{has_ext, lua_ext, remove_file}
use hindsight.Config.Options.{LuaNumber, Entries, Checked, uint_max}
use hindsight.Config.Sandbox.{SandboxConfig, load_sandbox_config}
use hindsight.Config.LoadDirectory.{Loaded, not_loaded, stopped, started, process_load_cfg}
use hindsight.Loading.{LuaUser, move_lua, restart_users}
use hindsight.AnalysisPlugin.Threads.{AnalysisThread, add_to_analysis_plugins}
use hindsight.AnalysisPlugin.Analyze.{remove_plugin}
use hindsight.AnalysisPlugin.Placement.{get_thread_id, least_used_thread_id}

-- `load_path_analysis`, `run_path_analysis`, `output_path`, `analysis_utilization_limit` and `apd` of
-- the configuration.
pub record AnalysisPaths : Type 0 where
  pub load_path : Bytes
  pub run_path_analysis : Bytes
  pub output_path : Bytes
  pub utilization_limit : ℕ
  pub defaults : SandboxConfig

-- The loop over the threads.
unfoldable pub restart_on_threads :
    Disk → Bytes → Bytes → Bytes → List (List (Option LuaUser)) → Run Disk
unfolding restart_users
restart_on_threads d lpath rpath lua_rpath [] = ok d
restart_on_threads d lpath rpath lua_rpath (users ∷ rest) = do
  d' ← restart_users d lpath rpath lua_rpath users
  restart_on_threads d' lpath rpath lua_rpath rest

-- `process_lua`, by the plugins in the lists of the threads
unfoldable pub process_lua : AnalysisPaths → Disk → Bytes → List (List (Option LuaUser)) → Run Disk
unfolding move_lua restart_on_threads
process_lua paths d name users =
    move_lua d paths.load_path paths.run_path_analysis name (λ lua_rpath d'.
      restart_on_threads d' paths.load_path paths.run_path_analysis lua_rpath users)

-- The files, and the threads with their plugins.
pub record AnalysisShared (Plugin : Type 0) : Type 0 where
  pub disk : Disk
  pub threads : List (AnalysisThread Plugin)

-- The test of `remove_from_analysis_plugins`, of the name of the plugin behind `analysis.`.
unfoldable pub is_named_analysis : Bytes → Bytes → Bool
unfolding strstr
is_named_analysis filename plugin_name =
    let pos = drop 9 plugin_name in
    is_some (strstr filename pos) && (length pos + 4 == length filename)

-- The place of the first plugin that the file names, from the place `i` on.
unfoldable pub place_of :
    {Plugin : Type 0} → (Plugin → Bytes) → Bytes → ℕ → List (Option Plugin) → Option ℕ
unfolding is_named_analysis
place_of name_of filename i [] = none
place_of name_of filename i (none ∷ rest) = place_of name_of filename (i + 1) rest
place_of name_of filename i (some p ∷ rest) =
    let further = place_of name_of filename (i + 1) rest in
    if is_named_analysis filename (name_of p) then some i else further

abbrev without_place : {Plugin : Type 0} → AnalysisThread Plugin → Option ℕ → AnalysisThread Plugin
without_place at none = at
without_place at (some i) = remove_plugin at i

-- `remove_from_analysis_plugins`
unfoldable pub remove_from_analysis_plugins :
    {Plugin : Type 0} → (Plugin → Bytes) → Bytes → AnalysisThread Plugin → AnalysisThread Plugin
unfolding place_of remove_plugin
remove_from_analysis_plugins name_of filename at =
    without_place at (place_of name_of filename 0 at.list)

abbrev pub add_created :
    {Plugin : Type 0} → ℕ → Option Plugin → AnalysisShared Plugin → AnalysisShared Plugin
add_created thread none s = s
add_created thread (some p) s = record s { threads = add_to_analysis_plugins thread s.threads p }

-- `create` is what `create_analysis_plugin` makes of a configuration with the library, `none` where it
-- fails.
module _ {Plugin : Type 0} (create : SandboxConfig → Option Plugin) (name_of : Plugin → Bytes) where
  unfoldable pub remove_on : Bytes → ℕ → AnalysisShared Plugin → AnalysisShared Plugin
  unfolding remove_from_analysis_plugins
  remove_on filename i s = elim (get_elem? s.threads i) [
    | none ↦ s
    | some at ↦ record s {
      threads = set s.threads i (remove_from_analysis_plugins name_of filename at);
    }
  ]

  -- A configuration that names no thread goes to `tid`.
  unfoldable pub start_on : ℕ → AnalysisShared Plugin → Option SandboxConfig → AnalysisShared Plugin
  unfolding add_to_analysis_plugins
  start_on tid s none = s
  start_on tid s (some sbc) =
      let thread = if sbc.thread == uint_max then tid else sbc.thread in
      add_created thread (create (record sbc { thread = thread })) s

  module _ (print : LuaNumber → Bytes) {LuaTable : Type 0}
      (run_lua : Bytes → Checked (Entries LuaTable)) (to_unsigned : LuaNumber → ℕ)
      (stamp : Bytes) where
    -- What the result of `hs_process_load_cfg` leads to; a plugin that was not running before, as
    -- `dynamic` tells, is not removed first.
    unfoldable pub by_result :
        AnalysisPaths → Bytes → ℕ → Bool → AnalysisShared Plugin → Loaded → AnalysisShared Plugin
    unfolding remove_on load_sandbox_config start_on
    by_result paths filename tid dynamic s not_loaded = s
    by_result paths filename tid dynamic s stopped = remove_on filename (tid % length s.threads) s
    by_result paths filename tid dynamic s started =
        let s1 = if dynamic then s else remove_on filename (tid % length s.threads) s in
        let (d, sbc) =
          load_sandbox_config print run_lua stamp s1.disk paths.run_path_analysis filename
            (some paths.defaults) b'a' in
        start_on tid (record s1 { disk = d }) sbc

    -- The thread is known: `uint_max` where every one is over its limit, and the file is deleted.
    unfoldable pub load_on :
        AnalysisPaths → Bytes → ℕ → Bool → AnalysisShared Plugin → Run (AnalysisShared Plugin)
    unfolding process_load_cfg by_result remove_file
    load_on paths filename tid dynamic s =
        if tid == uint_max
        then ok (record s { disk = (remove_file s.disk paths.load_path filename).0 })
        else (do
          (d, r) ← process_load_cfg s.disk paths.load_path paths.run_path_analysis filename
          ok (by_result paths filename tid dynamic (record s { disk = d }) r))

    -- What `get_thread_id` leads to; a file that it does not let through is deleted.
    unfoldable pub by_thread_id :
        AnalysisPaths → Bytes → AnalysisShared Plugin → Option ℕ → Run (AnalysisShared Plugin)
    unfolding load_on least_used_thread_id remove_file
    by_thread_id paths filename s none =
        ok (record s { disk = (remove_file s.disk paths.load_path filename).0 })
    by_thread_id paths filename s (some tid) =
        let dynamic = tid == uint_max in
        load_on paths filename
          (if dynamic then least_used_thread_id paths.utilization_limit s.threads else tid) dynamic
          s

    -- `hs_load_analysis_dynamic`
    unfoldable pub load_analysis_dynamic :
        AnalysisPaths
        → List (List (Option LuaUser))
        → Bytes
        → AnalysisShared Plugin
        → Run (AnalysisShared Plugin)
    unfolding process_lua get_thread_id by_thread_id has_ext
    load_analysis_dynamic paths users filename s =
        if has_ext filename lua_ext
        then (do d ← process_lua paths s.disk filename users; ok (record s { disk = d }))
        else (do
          (d, tid) ←
              get_thread_id run_lua to_unsigned s.disk paths.load_path paths.run_path_analysis
                paths.output_path filename
          by_thread_id paths filename (record s { disk = d }) tid)
