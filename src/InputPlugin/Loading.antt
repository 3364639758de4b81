-- ===== src/InputPlugin/Loading.antt =====
-- src/hs_input_plugins.c: a file in the load directory, and the input plugins that it starts and stops.
use hindsight.Base.{Bool, false, Option, none, some, List, [], ◌∷◌, if◌then◌else◌}
use hindsight.Base.Run.{Run, ok, exit_failure, ◌>>=◌}
use hindsight.CString.{Bytes}
use hindsight.Disk.{Disk, bytes_of}
use hindsight.Util.{has_ext, lua_ext, prune_err}
use hindsight.Config.Options.{LuaNumber, Entries, Checked}
use hindsight.Config.Sandbox.{SandboxConfig, load_sandbox_config}
use hindsight.Config.LoadDirectory.{Loaded, not_loaded, stopped, started, process_load_cfg}
use hindsight.IpCheckpoint.{init_ip_checkpoint}
use hindsight.Loading.{LuaUser, move_lua, restart_users}
use hindsight.InputPlugin.{InputPlugin}
use hindsight.InputPlugin.PluginList.{add_to_input_plugins}
use hindsight.InputPlugin.Removal.{Joining, remove_from_input_plugins}
use hindsight.InputPlugin.Thread.{InputShared}

-- `load_path_input`, `run_path_input` and `ipd` of the configuration.
pub record InputPaths : Type 0 where
  pub load_path : Bytes
  pub run_path_input : Bytes
  pub defaults : SandboxConfig

-- `process_lua`, by the plugins in the list
unfoldable pub process_lua : InputPaths → Disk → Bytes → List (Option LuaUser) → Run Disk
unfolding move_lua restart_users
process_lua paths d name users =
    move_lua d paths.load_path paths.run_path_input name
      (λ lua_rpath d'. restart_users d' paths.load_path paths.run_path_input lua_rpath users)

-- What a sandbox that is created meets: whether `lsb_heka_create_input` and what comes before it
-- succeed, its first statistics, and whether there is memory for the checkpoint.
pub record InputCreation (Stats : Type 0) : Type 0 where
  pub succeeds : Bool
  pub stats : Stats
  pub malloc : Bool

module _ {Number Stats : Type 0} where
  -- `create_input_plugin`, where nothing fails
  unfoldable pub create_input_plugin : Stats → InputPlugin Number Stats
  create_input_plugin stats = record {
    cp = init_ip_checkpoint;
    stats = stats;
    shutdown = 0;
    im_delta_cnt = 0;
    sample = false;
    stop_requested = false;
  }

  -- A configuration that is accepted starts its plugin, unless its sandbox cannot be created.
  unfoldable pub start_plugin :
      InputCreation Stats
      → InputShared Number Stats
      → Option SandboxConfig
      → InputShared Number Stats
  unfolding create_input_plugin add_to_input_plugins
  start_plugin c s none = s
  start_plugin c s (some sbc) =
      if c.succeeds
      then record s {
        plugins =
            add_to_input_plugins c.malloc s.table (bytes_of sbc.cfg_name)
              (create_input_plugin c.stats) s.plugins;
      }
      else s

  module _ (print : LuaNumber → Bytes) {LuaTable : Type 0}
      (run_lua : Bytes → Checked (Entries LuaTable)) (stamp : Bytes) where
    unfoldable pub load_and_start :
        InputPaths
        → InputCreation Stats
        → Bytes
        → InputShared Number Stats
        → InputShared Number Stats
    unfolding load_sandbox_config start_plugin
    load_and_start paths c filename s =
        let (d, sbc) =
          load_sandbox_config print run_lua stamp s.disk paths.run_path_input filename
            (some paths.defaults) b'i' in
        start_plugin c (record s { disk = d }) sbc

    -- What the result of `hs_process_load_cfg` leads to. A plugin whose thread does not end keeps its
    -- place, and is not started anew.
    unfoldable pub by_result :
        InputPaths
        → InputCreation Stats
        → Joining
        → Bytes
        → InputShared Number Stats
        → Loaded
        → InputShared Number Stats
    unfolding remove_from_input_plugins load_and_start
    by_result paths c j filename s not_loaded = s
    by_result paths c j filename s stopped = record s {
      plugins = (remove_from_input_plugins filename j s.plugins).0;
    }
    by_result paths c j filename s started =
        let (plugins, removed) = remove_from_input_plugins filename j s.plugins in
        let s' = record s { plugins = plugins } in
        if removed then load_and_start paths c filename s' else s'

    -- `hs_load_input_dynamic`
    unfoldable pub load_input_dynamic :
        InputPaths
        → InputCreation Stats
        → Joining
        → List (Option LuaUser)
        → Bytes
        → InputShared Number Stats
        → Run (InputShared Number Stats)
    unfolding process_lua process_load_cfg by_result has_ext
    load_input_dynamic paths c j users filename s =
        if has_ext filename lua_ext
        then (do d ← process_lua paths s.disk filename users; ok (record s { disk = d }))
        else (do
          (d, r) ← process_load_cfg s.disk paths.load_path paths.run_path_input filename
          ok (by_result paths c j filename (record s { disk = d }) r))

    -- The loop of `hs_load_input_startup`, over what `readdir` returns.
    unfoldable pub start_all :
        InputPaths
        → (Bytes → InputCreation Stats)
        → List Bytes
        → InputShared Number Stats
        → InputShared Number Stats
    unfolding load_and_start
    start_all paths c [] s = s
    start_all paths c (filename ∷ rest) s =
        start_all paths c rest (load_and_start paths (c filename) filename s)

    abbrev after_opendir :
        (List Bytes → InputShared Number Stats)
        → Option (List Bytes)
        → Run (InputShared Number Stats)
    after_opendir next none = exit_failure
    after_opendir next (some names) = ok (next names)

    -- `hs_load_input_startup`
    unfoldable pub load_input_startup :
        InputPaths
        → (Bytes → InputCreation Stats)
        → InputShared Number Stats
        → Run (InputShared Number Stats)
    unfolding start_all prune_err
    load_input_startup paths c s =
        let d = prune_err s.disk paths.run_path_input in
        after_opendir (λ names. start_all paths c names (record s { disk = d }))
          (d.entries paths.run_path_input)
