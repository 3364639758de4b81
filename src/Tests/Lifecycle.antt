-- ===== src/Tests/Lifecycle.antt =====
-- Plugins that end, and that are started and stopped by files in the load directory.
use hindsight.Base.{
  ℕ, ◌≡◌, refl, get_elem?, set, take, Bool, true, false, none, some, [], ◌∷◌, arith, ◌||◌,
  if◌then◌else◌,
}
use hindsight.Base.Run.{ok}
use hindsight.CString.{Bytes, codes, str_eq, strstr, is_prefix}
use hindsight.CString.Decimal.{decimal}
use hindsight.Disk.{Disk, bytes_of}
use hindsight.Util.{input_dir, analysis_dir, has_ext}
use hindsight.CheckpointReader.{Table, key_of, get}
use hindsight.IpCheckpoint.{numeric, init_ip_checkpoint, lookup_checkpoint}
use hindsight.IpCheckpoint.RoundTrip.{meaning, loadable}
use hindsight.Inject.{QueueConfig}
use hindsight.Input.{init_input}
use hindsight.Config.Options.{
  valid, get_unsigned_int, get_string_item, get_bool_item, get_option_char,
}
use hindsight.Config.Sandbox.{SandboxConfig, init_sandbox_config, load_sandbox_config}
use hindsight.Config.LoadDirectory.{process_load_cfg, stopped, started}
use hindsight.InputPlugin.{InputPlugin}
use hindsight.InputPlugin.Thread.{
  Poll, poll_done, InputState, InputEnded, InputOwner, InputShared, polls, wait_next,
  end_input_thread,
}
use hindsight.InputPlugin.Thread.Leaving.{has_reason, IsReason, polls_left}
use hindsight.InputPlugin.Thread.Restart.{end_input_thread-lookup_checkpoint}
use hindsight.OutputPlugin.{OutputPlugin, callbacks, update_checkpoint_callback}
use hindsight.OutputPlugin.PluginList.{is_named, add_plugin, remove_where}
use hindsight.OutputPlugin.Thread.Ending.{Shared, shutdown_timer_event}
use hindsight.OutputPlugin.Loading.{OutputPaths, Creation, find_named, load_output_dynamic}
use hindsight.OutputPlugin.Loading.Reload.{load_output_dynamic-off, load_output_dynamic-reload}
use hindsight.Tests.Configuration.{print, options}
use hindsight.Tests.OutputThread.{plugin, last_words}

abbrev empty_table : Table ℕ
empty_table = []

-- The configuration `a` is in the load directory as the file's extension tells, and it runs.
abbrev disk : Bytes → Disk
disk new_file = record {
  content = λ p. if str_eq p new_file || str_eq p (codes "run/output/a.cfg") then some [] else none;
  entries = λ _. none;
  refuses = λ _. false;
  free_bytes = λ _. none;
}

abbrev shared : Bytes → Shared ℕ
shared new_file = record {
  disk = disk new_file;
  table = empty_table;
  plugins = record { list = some (codes "output.a", plugin) ∷ []; list_cnt = 1 };
  sigterm = false;
}

abbrev paths : OutputPaths
paths = record {
  load_path = codes "load/output";
  run_path_output = codes "run/output";
  output_path = codes "out";
  run_path = codes "run";
  defaults = init_sandbox_config;
}

abbrev creation : Creation
creation = record {
  succeeds = true;
  expires = 0;
  last_words = last_words;
  buffer = record { buf = []; scanpos = 0; size = 64; msglen = 0 };
}

turned_off :
    (d : Disk) × (process_load_cfg
        (disk (codes "load/output/a.off"))
        (codes "load/output")
        (codes "run/output")
        (codes "a.off")
      ≡ ok (d, stopped))
unfolding process_load_cfg str_eq
turned_off = (_, refl)

load_output_dynamic-off_example :
    (s' : Shared ℕ) × (load_output_dynamic decimal print
        (λ _. valid options)
        []
        paths
        creation
        []
        (codes "a.off")
        (shared (codes "load/output/a.off"))
      ≡ ok s')
    × (k : ℕ) × (get_elem? (shared (codes "load/output/a.off")).plugins.list k
        ≡ some (some (codes "output.a", plugin)))
    × (s'.plugins.list ≡ set (shared (codes "load/output/a.off")).plugins.list k none)
    × (s'.plugins.list_cnt ≡ 0)
    × (get (key_of input_dir (some (codes "output.a"))) s'.table ≡ none)
    × (get (key_of analysis_dir (some (codes "output.a"))) s'.table ≡ none)
unfolding has_ext str_eq find_named is_named strstr is_prefix
load_output_dynamic-off_example =
    load_output_dynamic-off decimal print (λ _. valid options) [] paths creation [] (codes "a.off")
      (shared (codes "load/output/a.off")) turned_off.0 (codes "output.a", plugin) refl turned_off.1
      refl

put_in :
    (d : Disk) × (process_load_cfg
        (disk (codes "load/output/a.cfg"))
        (codes "load/output")
        (codes "run/output")
        (codes "a.cfg")
      ≡ ok (d, started))
unfolding process_load_cfg str_eq
put_in = (_, refl)

loaded :
    (r : Disk × SandboxConfig) × (load_sandbox_config print
        (λ _. valid options)
        []
        put_in.0
        (codes "run/output")
        (codes "a.cfg")
        (some init_sandbox_config)
        b'o'
      ≡ (r.0, some r.1))
unfolding load_sandbox_config get_unsigned_int get_string_item get_bool_item get_option_char put_in
loaded = (_, refl)

load_output_dynamic-reload_example :
    (s' : Shared ℕ) × (new : OutputPlugin) × (load_output_dynamic decimal print
        (λ _. valid options)
        []
        paths
        creation
        []
        (codes "a.cfg")
        (shared (codes "load/output/a.cfg"))
      ≡ ok s')
    × (s'.plugins
        ≡ add_plugin
            (bytes_of loaded.0.1.cfg_name, new)
            (remove_where
              (λ (y : Bytes × OutputPlugin). is_named (codes "a.cfg") y.0)
              (shared (codes "load/output/a.cfg")).plugins).0)
    × (new.cp ≡ (shutdown_timer_event plugin last_words).cp)
    × (new.cur ≡ new.cp)
unfolding has_ext str_eq find_named is_named strstr is_prefix loaded init_input shutdown_timer_event
    callbacks update_checkpoint_callback
load_output_dynamic-reload_example =
    load_output_dynamic-reload decimal print (λ _. valid options) [] paths creation []
      (codes "a.cfg") (shared (codes "load/output/a.cfg")) put_in.0 loaded.0.0 plugin loaded.0.1 _
      refl put_in.1 refl loaded.1 refl refl (λ n h. refl) refl refl (omega arith) (omega arith)
      (omega arith) (omega arith)

-- An input plugin that is called twice and then told to stop.
abbrev polled : InputPlugin ℕ ℕ
polled = record {
  cp = record { value = numeric 5; len = 0; cap = 0 };
  stats = 0;
  shutdown = 0;
  im_delta_cnt = 0;
  sample = false;
  stop_requested = false;
}

abbrev state : InputState ℕ ℕ
state = record {
  disk = disk [];
  output = record { path = codes "o"; cp = record { id = 0; offset = 0 }; min_cp_id = 0 };
  throttle = record { last_bp_check = 0; backpressure = false };
  plugin = polled;
}

abbrev quiet_poll : Bool → Poll ℕ ℕ
quiet_poll posted = record { injected = []; result = poll_done; stats = 1; posted = posted }

abbrev config : QueueConfig
config = record { output_size = 64; backpressure = 0; backpressure_df = 0 }

went :
    (e : InputEnded ℕ ℕ) × (polls
        (λ n. n ∷ [])
        config
        1
        (quiet_poll false ∷ quiet_poll true ∷ [])
        state
      ≡ ok (some e))
unfolding polls wait_next
went = (_, refl)

polls_left_example :
    (k : ℕ) × (x : Poll ℕ ℕ) × (get_elem? (quiet_poll false ∷ quiet_poll true ∷ []) k ≡ some x)
    × (has_reason (take k (quiet_poll false ∷ quiet_poll true ∷ [])) ≡ false)
    × IsReason 0 k x went.0
polls_left_example =
    polls_left (λ n. n ∷ []) config 1 (quiet_poll false ∷ quiet_poll true ∷ []) state went.0
      (λ e. absurd (omega (arith, e))) went.1

abbrev owner : InputOwner
owner = record {
  name = codes "input.a";
  list_index = 0;
  shutdown_terminate = false;
  error = [];
  stamp = [];
}

abbrev shared_input : InputShared ℕ ℕ
shared_input = record {
  disk = disk [];
  table = empty_table;
  plugins = record { list = some (codes "input.a", polled) ∷ []; list_cnt = 1 };
  sigterm = false;
}

finished :
    (s : InputShared ℕ ℕ) × (end_input_thread (codes "run") owner went.0 shared_input ≡ some s)
unfolding end_input_thread went
finished = (_, refl)

end_input_thread-lookup_checkpoint_example :
    meaning (lookup_checkpoint true finished.0.table (codes "input.a") init_ip_checkpoint)
    ≡ loadable (meaning went.0.state.plugin.cp)
unfolding went
end_input_thread-lookup_checkpoint_example =
    end_input_thread-lookup_checkpoint (codes "run") owner went.0 shared_input finished.0
      (omega arith) finished.1
