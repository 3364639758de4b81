-- ===== src/OutputPlugin/Loading.antt =====
-- src/hs_output_plugins.c: a file in the load directory, and the plugins that it starts and stops.
pub mod Reload
use hindsight.Base.{
  ℕ, ◌+◌, ◌-◌, Bool, true, false, not, ◌&&◌, Option, none, some, List, [], ◌∷◌, ◌++◌, if◌then◌else◌,
  length, take, drop,
}
use hindsight.Base.Run.{Run, ok, exit_failure, ◌>>=◌}
use hindsight.CString.{Bytes, codes}
use hindsight.Disk.{Disk, bytes_of}
use hindsight.Util.{input_dir, analysis_dir, max_path, has_ext, lua_ext, prune_err}
use hindsight.CheckpointReader.{Table, key_of, remove_checkpoint}
use hindsight.Config.Options.{LuaNumber, Entries, Checked}
use hindsight.Config.Sandbox.{SandboxConfig as SandboxSettings, load_sandbox_config}
use hindsight.Config.LoadDirectory.{Loaded, not_loaded, stopped, started, process_load_cfg}
use hindsight.Input.{Input, InputBuffer, init_input}
use hindsight.Loading.{LuaUser, move_lua, restart_users}
use hindsight.OutputPlugin.{OutputPlugin}
use hindsight.OutputPlugin.Start.{SandboxConfig, create_output_plugin, sync_checkpoints}
use hindsight.OutputPlugin.PluginList.{OutputPlugins, is_named, add_plugin, remove_where}
use hindsight.OutputPlugin.Thread.Ending.{Owner, Shared, LastWords, end_thread}

-- `load_path_output`, `run_path_output`, `output_path`, `run_path` and `opd` of the configuration.
pub record OutputPaths : Type 0 where
  pub load_path : Bytes
  pub run_path_output : Bytes
  pub output_path : Bytes
  pub run_path : Bytes
  pub defaults : SandboxSettings

-- `process_lua`, by the plugins in the list
unfoldable pub process_lua : OutputPaths → Disk → Bytes → List (Option LuaUser) → Run Disk
unfolding move_lua restart_users
process_lua paths d name users =
    move_lua d paths.load_path paths.run_path_output name
      (λ lua_rpath d'. restart_users d' paths.load_path paths.run_path_output lua_rpath users)

-- The name of the plugin of a configuration file.
abbrev pub plugin_of : Bytes → Bytes
plugin_of filename = codes "output." ++ take (length filename - 4) filename

-- What a sandbox that is created or stopped meets: whether `lsb_heka_create_output` and what comes
-- before it succeed, the first time of the timer event, the last event of the plugin that is stopped,
-- and the buffers of the two readers.
pub record Creation : Type 0 where
  pub succeeds : Bool
  pub expires : ℕ
  pub last_words : LastWords
  pub buffer : InputBuffer

abbrev pub settings_of : SandboxSettings → SandboxConfig
settings_of sbc = record {
  async_buffer_size = sbc.async_buffer_size;
  read_queue = sbc.read_queue;
  ticker_interval = sbc.ticker_interval;
  rm_cp_terminate = sbc.rm_cp_terminate;
  shutdown_terminate = sbc.shutdown_terminate;
}

-- The first plugin that the file names.
unfoldable pub find_named :
    Bytes → List (Option (Bytes × OutputPlugin)) → Option (Bytes × OutputPlugin)
unfolding is_named
find_named filename [] = none
find_named filename (none ∷ rest) = find_named filename rest
find_named filename (some (name, p) ∷ rest) =
    if is_named filename name then some (name, p) else find_named filename rest

module _ {Number : Type 0} (lua_print : ℕ → Bytes) where
  -- `remove_checkpoints`, where the keys fit their buffer
  unfoldable pub remove_checkpoints : Table Number → Bytes → Table Number
  unfolding remove_checkpoint
  remove_checkpoints t filename =
      remove_checkpoint (remove_checkpoint t (key_of input_dir (some (plugin_of filename))))
        (key_of analysis_dir (some (plugin_of filename)))

  -- What the thread of a plugin that is stopped leaves in the table.
  stopped_table : Bytes → LastWords → Shared Number → Option (Bytes × OutputPlugin) → Table Number
  unfolding end_thread
  stopped_table run_path w s none = s.table
  stopped_table run_path w s (some (name, p)) =
      (end_thread lua_print run_path (record { name = name; list_index = 0 }) w true p s).table

  -- `remove_from_output_plugins` with `remove_plugin`, which waits for the end of the thread; the
  -- plugin stands in the list as its thread leaves the loop.
  unfoldable pub remove_named : Bytes → Bytes → LastWords → Shared Number → Shared Number × Bool
  unfolding remove_where stopped_table find_named is_named
  remove_named run_path filename w s =
      let (plugins, removed) =
        remove_where (λ (x : Bytes × OutputPlugin). is_named filename x.0) s.plugins in
      let table = stopped_table run_path w s (find_named filename s.plugins.list) in
      (record s { table = table; plugins = plugins }, removed)

  -- A plugin is created and added, unless its sandbox cannot be; whether that was done. `path` is null
  -- for one that is loaded while the program runs.
  unfoldable pub start_plugin :
      OutputPaths
      → Option Bytes
      → Creation
      → SandboxSettings
      → Shared Number
      → Run (Shared Number × Bool)
  unfolding create_output_plugin sync_checkpoints add_plugin init_input
  start_plugin paths path c sbc s =
      let name = bytes_of sbc.cfg_name in
      if c.succeeds
      then (do
        _ ← init_input c.buffer paths.output_path name
        _ ← init_input c.buffer paths.output_path name
        (t, p) ←
            sync_checkpoints s.disk s.table name path
              (create_output_plugin (settings_of sbc) c.expires)
        ok (record s { table = t; plugins = add_plugin (name, p) s.plugins }, true))
      else ok (s, false)

  module _ (print : LuaNumber → Bytes) {LuaTable : Type 0}
      (run_lua : Bytes → Checked (Entries LuaTable)) (stamp : Bytes) where
    -- A configuration that is accepted starts its plugin; whether it did, and `rm_cp_terminate`.
    unfoldable pub start_from :
        OutputPaths
        → Creation
        → Shared Number
        → Option SandboxSettings
        → Run (Shared Number × Bool × Bool)
    unfolding start_plugin
    start_from paths c s none = ok (s, false, false)
    start_from paths c s (some sbc) = do
      (s', loaded) ← start_plugin paths none c sbc s
      ok (s', loaded, sbc.rm_cp_terminate)

    -- The configuration is loaded, where the plugin was removed or none ran.
    unfoldable pub load_anew :
        OutputPaths → Creation → Bytes → Shared Number × Bool → Run (Shared Number)
    unfolding load_sandbox_config start_from remove_checkpoints
    load_anew paths c filename (s, removed) = do
      let (d, sbc) =
          load_sandbox_config print run_lua stamp s.disk paths.run_path_output filename
            (some paths.defaults) b'o'
      (s', loaded, rm_cp_terminate) ← start_from paths c (record s { disk = d }) sbc
      ok (
          if removed && not loaded && rm_cp_terminate
          then record s' { table = remove_checkpoints s'.table filename }
          else s')

    -- What a configuration that was put into the run directory leads to.
    unfoldable pub reload : OutputPaths → Creation → Bytes → Shared Number → Run (Shared Number)
    unfolding remove_named load_anew
    reload paths c filename s =
        load_anew paths c filename (remove_named paths.run_path filename c.last_words s)

    -- What a configuration that was turned off leads to.
    unfoldable pub stop_named : OutputPaths → Creation → Bytes → Shared Number → Shared Number
    unfolding remove_named remove_checkpoints
    stop_named paths c filename s =
        let (s1, removed) = remove_named paths.run_path filename c.last_words s in
        if removed then record s1 { table = remove_checkpoints s1.table filename } else s1

    unfoldable pub by_result :
        OutputPaths → Creation → Bytes → Shared Number → Disk × Loaded → Run (Shared Number)
    unfolding reload stop_named
    by_result paths c filename s (d, stopped) =
        ok (stop_named paths c filename (record s { disk = d }))
    by_result paths c filename s (d, started) = reload paths c filename (record s { disk = d })
    by_result paths c filename s (d, not_loaded) = ok (record s { disk = d })

    -- `hs_load_output_dynamic`
    unfoldable pub load_output_dynamic :
        OutputPaths → Creation → List (Option LuaUser) → Bytes → Shared Number → Run (Shared Number)
    unfolding process_lua process_load_cfg by_result has_ext
    load_output_dynamic paths c users filename s =
        if has_ext filename lua_ext
        then (do d ← process_lua paths s.disk filename users; ok (record s { disk = d }))
        else (do
          r ← process_load_cfg s.disk paths.load_path paths.run_path_output filename
          by_result paths c filename s r)

    start_accepted :
        OutputPaths → Creation → Shared Number → Option SandboxSettings → Run (Shared Number)
    unfolding start_plugin
    start_accepted paths c s none = ok s
    start_accepted paths c s (some sbc) = do
      (s', _) ← start_plugin paths (some paths.output_path) c sbc s
      ok s'

    -- The loop of `hs_load_output_startup`, over what `readdir` returns.
    unfoldable pub start_all :
        OutputPaths → (Bytes → Creation) → List Bytes → Shared Number → Run (Shared Number)
    unfolding load_sandbox_config start_accepted
    start_all paths c [] s = ok s
    start_all paths c (filename ∷ rest) s = do
      let (d, sbc) =
          load_sandbox_config print run_lua stamp s.disk paths.run_path_output filename
            (some paths.defaults) b'o'
      s' ← start_accepted paths (c filename) (record s { disk = d }) sbc
      start_all paths c rest s'

    abbrev after_opendir :
        (List Bytes → Run (Shared Number)) → Option (List Bytes) → Run (Shared Number)
    after_opendir next none = exit_failure
    after_opendir next (some names) = next names

    -- `hs_load_output_startup`
    unfoldable pub load_output_startup :
        OutputPaths → (Bytes → Creation) → Shared Number → Run (Shared Number)
    unfolding start_all prune_err
    load_output_startup paths c s =
        let d = prune_err s.disk paths.run_path_output in
        after_opendir (λ names. start_all paths c names (record s { disk = d }))
          (d.entries paths.run_path_output)

stop_slot : Option (Bytes × OutputPlugin) → Option (Bytes × OutputPlugin)
stop_slot none = none
stop_slot (some (name, p)) = some (name, record p { stop = true })

stop_all : List (Option (Bytes × OutputPlugin)) → List (Option (Bytes × OutputPlugin))
unfolding stop_slot
stop_all [] = []
stop_all (x ∷ rest) = stop_slot x ∷ stop_all rest

-- `hs_stop_output_plugins`
unfoldable pub stop_output_plugins :
    OutputPlugins (Bytes × OutputPlugin) → OutputPlugins (Bytes × OutputPlugin)
unfolding stop_all
stop_output_plugins plugins = record plugins { list = stop_all plugins.list }

-- The loop of `hs_wait_output_plugins`, of which each step waits for the end of a thread; the count goes
-- down with every plugin.
unfoldable pub wait_all :
    List (Option (Bytes × OutputPlugin)) → ℕ → List (Option (Bytes × OutputPlugin)) × ℕ
wait_all [] cnt = ([], cnt)
wait_all (none ∷ rest) cnt = let (rest', cnt') = wait_all rest cnt in (none ∷ rest', cnt')
wait_all (some _ ∷ rest) cnt = let (rest', cnt') = wait_all rest (cnt - 1) in (none ∷ rest', cnt')

-- `hs_wait_output_plugins`
unfoldable pub wait_output_plugins :
    OutputPlugins (Bytes × OutputPlugin) → OutputPlugins (Bytes × OutputPlugin)
unfolding wait_all
wait_output_plugins plugins =
    let (list, cnt) = wait_all plugins.list plugins.list_cnt in
    record { list = list; list_cnt = cnt }
