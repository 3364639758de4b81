-- ===== src/OutputPlugin/Loading/Reload.antt =====
-- What becomes of the checkpoints of an output plugin that is stopped or started anew by a file in the
-- load directory.
use hindsight.Base.{
  ℕ, suc, ◌-◌, ◌^◌, ◌<◌, ◌≡◌, get_elem?, set, inl, inr, refl, ap, ◌∙◌, Bool, true, false, Option,
  none, some, List, [], ◌∷◌, if-eq, if-true, if-both,
}
use hindsight.Base.Run.{ok}
use hindsight.CString.{Bytes, str_eq}
use hindsight.CString.Decimal.{decimal}
use hindsight.Disk.{Disk, bytes_of}
use hindsight.Util.{input_dir, analysis_dir, has_ext, lua_ext}
use hindsight.CheckpointReader.{Table, LuaValue, key_of, get, remove_checkpoint}
use hindsight.CheckpointReader.Table.{get-clear, str_eq_refl}
use hindsight.CheckpointWriter.{store_plugin}
use hindsight.Config.Options.{LuaNumber, Entries, Checked}
use hindsight.Config.Sandbox.{SandboxConfig as SandboxSettings, load_sandbox_config}
use hindsight.Config.LoadDirectory.{stopped, started, process_load_cfg}
use hindsight.Loading.{LuaUser}
use hindsight.OutputPlugin.{OutputPlugin}
use hindsight.OutputPlugin.PluginList.{is_named, add_plugin, take_out, remove_where}
use hindsight.OutputPlugin.Start.{create_output_plugin, sync_checkpoints}
use hindsight.OutputPlugin.Start.Resume.{sync_checkpoints-store_plugin}
use hindsight.Input.{Input, init_input}
use hindsight.OutputPlugin.Thread.Ending.{Shared, LastWords, shutdown_timer_event, end_thread}
use hindsight.OutputPlugin.Loading.{
  OutputPaths, Creation, plugin_of, find_named, remove_checkpoints, stopped_table, remove_named,
  settings_of, start_plugin, start_from, load_anew, reload, stop_named, by_result,
  load_output_dynamic,
}

-- A plugin that is found by the file's name is the one that is taken out.
found-taken :
    (filename : Bytes) (list : List (Option (Bytes × OutputPlugin))) (x : Bytes × OutputPlugin)
    → find_named filename list ≡ some x
    → (take_out (λ (y : Bytes × OutputPlugin). is_named filename y.0) list).1 ≡ true
unfolding find_named take_out
found-taken filename [] x e = cc
found-taken filename (none ∷ rest) x e = found-taken filename rest x e
found-taken filename (some (name, p) ∷ rest) x e = elim (if-eq (is_named filename name) e) [
  | inl (named, _) ↦ rw (named) refl
  | inr (other, e1) ↦ rw (other) (found-taken filename rest x e1)
]

-- It stands at one place of the list, and only that place becomes empty.
found-place :
    (filename : Bytes) (list : List (Option (Bytes × OutputPlugin))) (x : Bytes × OutputPlugin)
    → find_named filename list ≡ some x
    → (k : ℕ) × (get_elem? list k ≡ some (some x))
      × ((take_out (λ (y : Bytes × OutputPlugin). is_named filename y.0) list).0 ≡ set list k none)
unfolding find_named take_out
found-place filename [] x e = cc
found-place filename (none ∷ rest) x e =
    let (k, there, left) = found-place filename rest x e in (suc k, there, ap (◌∷◌ none) left)
found-place filename (some (name, p) ∷ rest) x e = elim (if-eq (is_named filename name) e) [
  | inl (named, e1) ↦ (0, ap some e1, rw (named) refl)
  | inr (other, e1) ↦
      let (k, there, left) = found-place filename rest x e1 in
      (suc k, there, rw (other) (ap (◌∷◌ (some (name, p))) left))
]

module _ {Number : Type 0} (lua_print : ℕ → Bytes) where
  found-removed :
      (run_path filename : Bytes) (w : LastWords) (s : Shared Number) (x : Bytes × OutputPlugin)
      → find_named filename s.plugins.list ≡ some x
      → (remove_named lua_print run_path filename w s).1 ≡ true
  unfolding remove_named remove_where
  found-removed run_path filename w s x e = found-taken filename s.plugins.list x e

  found-counted :
      (run_path filename : Bytes) (w : LastWords) (s : Shared Number) (x : Bytes × OutputPlugin)
      → find_named filename s.plugins.list ≡ some x
      → (remove_named lua_print run_path filename w s).0.plugins.list_cnt ≡ s.plugins.list_cnt - 1
  unfolding remove_named remove_where
  found-counted run_path filename w s x e = if-true _ _ _ (found-taken filename s.plugins.list x e)

  found-left :
      (run_path filename : Bytes) (w : LastWords) (s : Shared Number) (x : Bytes × OutputPlugin)
      → find_named filename s.plugins.list ≡ some x
      → (k : ℕ) × (get_elem? s.plugins.list k ≡ some (some x))
        × ((remove_named lua_print run_path filename w s).0.plugins.list
            ≡ set s.plugins.list k none)
  unfolding remove_named remove_where
  found-left run_path filename w s x e = found-place filename s.plugins.list x e

  removed_named :
      (run_path filename : Bytes) (w : LastWords) (s : Shared Number) (name : Bytes)
      (p : OutputPlugin)
      → find_named filename s.plugins.list ≡ some (name, p)
      → remove_named lua_print run_path filename w s ≡ (
        record s {
          table = store_plugin lua_print s.table name (shutdown_timer_event p w);
          plugins =
              (remove_where (λ (y : Bytes × OutputPlugin). is_named filename y.0) s.plugins).0;
        },
        true,
      )
  unfolding remove_named stopped_table end_thread
  removed_named run_path filename w s name p e =
      let left = (remove_where (λ (y : Bytes × OutputPlugin). is_named filename y.0) s.plugins).0 in
      ap
        (λ (o : Option (Bytes × OutputPlugin)). (
          record s { table = stopped_table lua_print run_path w s o; plugins = left },
          (remove_named lua_print run_path filename w s).1,
        ))
        e
      ∙ ap
          (λ (b : Bool). (
            record s {
              table = store_plugin lua_print s.table name (shutdown_timer_event p w);
              plugins = left;
            },
            b,
          ))
          (found-removed run_path filename w s (name, p) e)

  started_anew :
      (paths : OutputPaths) (path : Option Bytes) (c : Creation) (sbc : SandboxSettings)
      (s : Shared Number) (input : Input) (t : Table Number) (new : OutputPlugin)
      → c.succeeds ≡ true
      → init_input c.buffer paths.output_path (bytes_of sbc.cfg_name) ≡ ok input
      → sync_checkpoints s.disk s.table
          (bytes_of sbc.cfg_name)
          path
          (create_output_plugin (settings_of sbc) c.expires)
        ≡ ok (t, new)
      → start_plugin lua_print paths path c sbc s
        ≡ ok (
          record s { table = t; plugins = add_plugin (bytes_of sbc.cfg_name, new) s.plugins },
          true,
        )
  unfolding start_plugin
  started_anew paths path c sbc s input t new succeeds fits synced =
      if-true _ _ _ succeeds ∙ rw (fits, synced) refl

  get-removed : (key : Bytes) (t : Table Number) → get key (remove_checkpoint t key) ≡ none
  unfolding remove_checkpoint
  get-removed key t = get-clear key key t ∙ if-true _ _ _ (str_eq_refl key)

  -- Neither key is in the table after both were removed.
  removed_both :
      (t : Table Number) (filename : Bytes)
      → (get
            (key_of input_dir (some (plugin_of filename)))
            (remove_checkpoints lua_print t filename)
          ≡ none)
        × (get
              (key_of analysis_dir (some (plugin_of filename)))
              (remove_checkpoints lua_print t filename)
            ≡ none)
  unfolding remove_checkpoints remove_checkpoint
  removed_both t filename =
      let a = key_of input_dir (some (plugin_of filename)) in
      let b = key_of analysis_dir (some (plugin_of filename)) in
      let first = remove_checkpoint t a in
      (
        get-clear a b first
            ∙ if-both (λ (o : Option (LuaValue Number)). o ≡ none) (str_eq b a) (λ _. refl)
                (λ _. get-removed a t),
        get-removed b first,
      )

  module _ (print : LuaNumber → Bytes) {LuaTable : Type 0}
      (run_lua : Bytes → Checked (Entries LuaTable)) (stamp : Bytes) where
    -- A file turns the configuration of an output plugin off, and a plugin runs that the test of
    -- `remove_from_output_plugins` takes for that of the file: exactly its place in the list becomes
    -- empty, one plugin less is counted, and whatever its thread stores at its end, the table has no
    -- checkpoint under the name of the file in either queue, so that a plugin of that name begins
    -- anew.
    pub load_output_dynamic-off :
        (paths : OutputPaths) (c : Creation) (users : List (Option LuaUser)) (filename : Bytes)
        (s : Shared Number) (d : Disk) (x : Bytes × OutputPlugin)
        → has_ext filename lua_ext ≡ false
        → process_load_cfg s.disk paths.load_path paths.run_path_output filename ≡ ok (d, stopped)
        → find_named filename s.plugins.list ≡ some x
        → (s' : Shared Number) × (load_output_dynamic lua_print print run_lua stamp paths c users
              filename s
            ≡ ok s')
          × (k : ℕ) × (get_elem? s.plugins.list k ≡ some (some x))
          × (s'.plugins.list ≡ set s.plugins.list k none)
          × (s'.plugins.list_cnt ≡ s.plugins.list_cnt - 1)
          × (get (key_of input_dir (some (plugin_of filename))) s'.table ≡ none)
          × (get (key_of analysis_dir (some (plugin_of filename))) s'.table ≡ none)
    unfolding load_output_dynamic by_result stop_named
    load_output_dynamic-off paths c users filename s d x no_lua off here =
        let s0 = record s { disk = d } in
        let removed = found-removed paths.run_path filename c.last_words s0 x here in
        let s1 = (remove_named lua_print paths.run_path filename c.last_words s0).0 in
        let (input, analysis) = removed_both s1.table filename in
        let (k, there, left) = found-left paths.run_path filename c.last_words s0 x here in
        (
          record s1 { table = remove_checkpoints lua_print s1.table filename },
          rw (no_lua, off, removed) refl,
          k,
          there,
          left,
          found-counted paths.run_path filename c.last_words s0 x here,
          input,
          analysis,
        )

    loaded_anew :
        (paths : OutputPaths) (c : Creation) (filename : Bytes) (s : Shared Number) (d : Disk)
        (sbc : SandboxSettings) (s' : Shared Number)
        → load_sandbox_config print run_lua stamp s.disk paths.run_path_output filename
            (some paths.defaults)
            b'o'
          ≡ (d, some sbc)
        → start_plugin lua_print paths none c sbc (record s { disk = d }) ≡ ok (s', true)
        → load_anew lua_print print run_lua stamp paths c filename (s, true) ≡ ok s'
    unfolding load_anew start_from
    loaded_anew paths c filename s d sbc s' accepted begun = rw (accepted, begun) refl

    -- A new configuration for an output plugin that runs, and reads both queues as the new one does: the
    -- plugin is stopped, and the new one, when its sandbox is created, is added and begins at the
    -- checkpoints that the stopped one has had after its last timer event, in both queues, where
    -- their numbers are below 10^14.
    pub load_output_dynamic-reload :
        (paths : OutputPaths) (c : Creation) (users : List (Option LuaUser)) (filename : Bytes)
        (s : Shared Number) (d d' : Disk) (p : OutputPlugin) (sbc : SandboxSettings) (input : Input)
        → has_ext filename lua_ext ≡ false
        → process_load_cfg s.disk paths.load_path paths.run_path_output filename ≡ ok (d, started)
        → find_named filename s.plugins.list ≡ some (bytes_of sbc.cfg_name, p)
        → load_sandbox_config print run_lua stamp d paths.run_path_output filename
            (some paths.defaults)
            b'o'
          ≡ (d', some sbc)
        → c.succeeds ≡ true
        → init_input c.buffer paths.output_path (bytes_of sbc.cfg_name) ≡ ok input
        → ((n : ℕ) → n < 10 ^ 14 → lua_print n ≡ decimal n)
        → (shutdown_timer_event p c.last_words).read_queue ≡ b'b'
        → sbc.read_queue ≡ b'b'
        → (shutdown_timer_event p c.last_words).cp.input.id < 10 ^ 14
        → (shutdown_timer_event p c.last_words).cp.input.offset < 10 ^ 14
        → (shutdown_timer_event p c.last_words).cp.analysis.id < 10 ^ 14
        → (shutdown_timer_event p c.last_words).cp.analysis.offset < 10 ^ 14
        → (s' : Shared Number) × (new : OutputPlugin) × (load_output_dynamic lua_print print run_lua
              stamp paths c users filename s
            ≡ ok s')
          × (s'.plugins
              ≡ add_plugin
                  (bytes_of sbc.cfg_name, new)
                  (remove_where (λ (y : Bytes × OutputPlugin). is_named filename y.0) s.plugins).0)
          × (new.cp ≡ (shutdown_timer_event p c.last_words).cp)
          × (new.cur ≡ new.cp)
    unfolding load_output_dynamic by_result reload
    load_output_dynamic-reload paths c users filename s d d' p sbc input no_lua on here accepted
          succeeds fits prints both both' i1 o1 i2 o2 =
        let name = bytes_of sbc.cfg_name in
        let s0 = record s { disk = d } in
        let last = shutdown_timer_event p c.last_words in
        let new = record (create_output_plugin (settings_of sbc) c.expires) {
          cp = last.cp;
          cur = last.cp;
        } in
        let s1 = record s {
          disk = d';
          table = store_plugin lua_print s.table name last;
          plugins =
              (remove_where (λ (y : Bytes × OutputPlugin). is_named filename y.0) s.plugins).0;
        } in
        let removed = removed_named paths.run_path filename c.last_words s0 name p here in
        let synced =
          sync_checkpoints-store_plugin d' s.table lua_print name none last (settings_of sbc)
            c.expires prints both both' i1 o1 i2 o2 in
        let begun = started_anew paths none c sbc s1 input _ new succeeds fits synced in
        (
          record s1 { plugins = add_plugin (name, new) s1.plugins },
          new,
          rw (no_lua, on)
              (ap (load_anew lua_print print run_lua stamp paths c filename) removed
                ∙ loaded_anew paths c filename (record s1 { disk = d }) d' sbc _ accepted begun),
          refl,
          refl,
          refl,
        )
