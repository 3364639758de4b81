-- ===== src/Config/Main.antt =====
-- src/hs_config.c: the configuration of the program.
pub mod Limits
use hindsight.Base.{
  ℕ, ◌+◌, ◌-◌, Bool, true, false, not, ◌&&◌, ◌||◌, Option, none, some, List, [], ◌∷◌, ◌++◌, ltb,
  ◌==◌, if◌then◌else◌, length, take,
}
use hindsight.Base.Run.{Run, ok, exit_failure}
use hindsight.CString.{Bytes, codes, str_eq}
use hindsight.Util.{get_fqfn, input_dir, analysis_dir, output_dir}
use hindsight.Config.Options.{
  LuaNumber, Value, number, text, boolean, table, other_value, Entries, Checked, invalid, valid,
  ◌>>=◌, or_keep, get_field, remove_item, get_unsigned_int, get_uint8, get_bool_item,
  get_option_char, get_string_item, check_for_unknown_options,
}
use hindsight.Config.Sandbox.{SandboxConfig, init_sandbox_config, queue_options}
use hindsight.Config.Defaults.{
  Options, Globals, LuaState, left_behind, load_sandbox_defaults, and_then,
}

-- `hs_config`
pub record HsConfig : Type 0 where
  pub run_path : Bytes
  pub run_path_input : Bytes
  pub run_path_analysis : Bytes
  pub run_path_output : Bytes
  pub load_path : Bytes
  pub load_path_input : Bytes
  pub load_path_analysis : Bytes
  pub load_path_output : Bytes
  pub output_path : Bytes
  pub install_path : Bytes
  pub io_lua_path : Bytes
  pub io_lua_cpath : Bytes
  pub analysis_lua_path : Bytes
  pub analysis_lua_cpath : Bytes
  pub hostname : Bytes
  pub max_message_size : ℕ  -- unsigned
  pub output_size : ℕ  -- unsigned
  pub backpressure : ℕ  -- unsigned
  pub backpressure_df : ℕ  -- unsigned
  pub pid : ℕ
  pub analysis_threads : ℕ  -- uint8_t
  pub analysis_utilization_limit : ℕ  -- uint8_t
  pub ipd : SandboxConfig
  pub apd : SandboxConfig
  pub opd : SandboxConfig

-- `init_config`; a path that is null is empty here
abbrev pub init_config : ℕ → HsConfig
init_config pid = record {
  run_path = [];
  run_path_input = [];
  run_path_analysis = [];
  run_path_output = [];
  load_path = [];
  load_path_input = [];
  load_path_analysis = [];
  load_path_output = [];
  output_path = [];
  install_path = [];
  io_lua_path = [];
  io_lua_cpath = [];
  analysis_lua_path = [];
  analysis_lua_cpath = [];
  hostname = [];
  max_message_size = 65536;
  output_size = 67108864;
  backpressure = 0;
  backpressure_df = 4;
  pid = pid;
  analysis_threads = 1;
  analysis_utilization_limit = 95;
  ipd = record init_sandbox_config { restricted_headers = false };
  apd = init_sandbox_config;
  opd = record init_sandbox_config { restricted_headers = false };
}

-- `hs_get_fqfn` into memory that was made for it
unfoldable pub joined : Bytes → Bytes → Bytes
unfolding get_fqfn
joined path dir = elim (get_fqfn path dir (length path + length dir + 2)) [
  | some fn ↦ fn
  | none ↦ []
]

unfoldable pub require {ℓ} : {A : Type ℓ} → Bool → Bytes → A → Checked A
require holds message a = if holds then valid a else invalid message

-- The last tests.
unfoldable pub check_config : HsConfig → LuaState → Checked HsConfig
unfolding require
check_config cfg s = do
  _ ←
      require
        (not (
          ltb cfg.max_message_size cfg.ipd.output_limit
          || ltb cfg.max_message_size cfg.apd.output_limit
          || ltb cfg.max_message_size cfg.opd.output_limit))
        (codes "max_message_size must be greater than or equal to the sandbox output_limit") cfg
  _ ← check_for_unknown_options s.globals none
  valid cfg

-- The three tables of defaults, and the last tests.
unfoldable pub load_defaults : HsConfig × LuaState → Run (Checked HsConfig)
unfolding load_sandbox_defaults check_config
load_defaults (cfg, s) =
    and_then (load_sandbox_defaults (codes "input_defaults") cfg.ipd s) (λ (ipd, s1).
      and_then (load_sandbox_defaults (codes "analysis_defaults") cfg.apd s1) (λ (apd, s2).
        and_then (load_sandbox_defaults (codes "output_defaults") cfg.opd s2)
          (λ (opd, s3). ok (check_config (record cfg { ipd = ipd; apd = apd; opd = opd }) s3))))

module _ (print : LuaNumber → Bytes) where
  -- From `max_message_size` to `analysis_utilization_limit`. Of these two the result is not looked at,
  -- only the value.
  unfoldable pub load_sizes : HsConfig → LuaState → Checked (HsConfig × LuaState)
  unfolding or_keep left_behind require
  load_sizes cfg s = do
    let name = codes "max_message_size"
    let size_read = get_unsigned_int s.globals name cfg.max_message_size
    let bottom = left_behind s.bottom (get_field name s.globals) size_read
    (max_size, t) ←
        require (not (ltb (or_keep size_read (cfg.max_message_size, s.globals)).0 1024))
          (name ++ codes " must be > 1023") (or_keep size_read (cfg.max_message_size, s.globals))
    (output_path, t) ← get_string_item print t (codes "output_path") none
    (output_size, t) ← get_unsigned_int t (codes "output_size") cfg.output_size
    (backpressure, t) ← get_unsigned_int t (codes "backpressure") cfg.backpressure
    (backpressure_df, t) ← get_unsigned_int t (codes "backpressure_disk_free") cfg.backpressure_df
    (load_path, t) ← get_string_item print t (codes "sandbox_load_path") (some [])
    let limit_name = codes "analysis_utilization_limit"
    let limit_read = get_uint8 t limit_name cfg.analysis_utilization_limit
    let bottom = left_behind bottom (get_field limit_name t) limit_read
    (limit, t) ←
        require (not (ltb 100 (or_keep limit_read (cfg.analysis_utilization_limit, t)).0))
          (limit_name ++ codes " must be 0-100")
          (or_keep limit_read (cfg.analysis_utilization_limit, t))
    valid (
      record cfg {
        max_message_size = max_size;
        output_path = output_path;
        output_size = output_size;
        backpressure = backpressure;
        backpressure_df = backpressure_df;
        load_path = load_path;
        load_path_input = joined load_path input_dir;
        load_path_analysis = joined load_path analysis_dir;
        load_path_output = joined load_path output_dir;
        analysis_utilization_limit = limit;
      },
      record { bottom = bottom; globals = t },
    )

  -- From `sandbox_run_path` to `analysis_threads`, whose result is not looked at. `system_hostname` is
  -- what `gethostname` gives; the name that is kept has 64 bytes at most.
  unfoldable pub load_paths : Bytes → HsConfig × LuaState → Checked (HsConfig × LuaState)
  unfolding or_keep left_behind require joined
  load_paths system_hostname (cfg, s) = do
    (run_path, t) ← get_string_item print s.globals (codes "sandbox_run_path") none
    (install_path, t) ←
        get_string_item print t (codes "sandbox_install_path")
          (some (codes "/usr/share/luasandbox/sandboxes/heka"))
    (io_path, t) ← get_string_item print t (codes "io_lua_path") none
    (io_cpath, t) ← get_string_item print t (codes "io_lua_cpath") none
    (analysis_path, t) ← get_string_item print t (codes "analysis_lua_path") none
    (analysis_cpath, t) ← get_string_item print t (codes "analysis_lua_cpath") none
    (hostname, t) ← get_string_item print t (codes "hostname") (some system_hostname)
    let name = codes "analysis_threads"
    let threads_read = get_uint8 t name cfg.analysis_threads
    let bottom = left_behind s.bottom (get_field name t) threads_read
    let threads = (or_keep threads_read (cfg.analysis_threads, t)).0
    (threads, t) ←
        require (not (ltb threads 1 || ltb 64 threads)) (name ++ codes " must be 1-64")
          (or_keep threads_read (cfg.analysis_threads, t))
    valid (
      record cfg {
        run_path = run_path;
        run_path_input = joined run_path input_dir;
        run_path_analysis = joined run_path analysis_dir;
        run_path_output = joined run_path output_dir;
        install_path = install_path;
        io_lua_path = io_path;
        io_lua_cpath = io_cpath;
        analysis_lua_path = analysis_path;
        analysis_lua_cpath = analysis_cpath;
        hostname = take 64 hostname;
        analysis_threads = threads;
      },
      record { bottom = bottom; globals = t },
    )

  -- `hs_load_config`, where there is memory; `run` is what `luaL_dofile` gives.
  unfoldable pub load_config : ℕ → Bytes → Checked Globals → Run (Checked HsConfig)
  unfolding load_sizes load_paths load_defaults
  load_config pid system_hostname run =
      and_then
        (ok (
          run >>= λ globals.
          load_sizes (init_config pid) (record { bottom = none; globals = globals })
          >>= load_paths system_hostname))
        load_defaults
