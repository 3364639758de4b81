-- ===== src/Config/Sandbox.antt =====
-- src/hs_config.c: the configuration of a sandbox.
pub mod Accepted
use hindsight.Base.{
  ℕ, ◌+◌, ◌-◌, Bool, true, false, not, ◌&&◌, ◌||◌, Option, none, some, List, [], ◌∷◌, ◌++◌, ltb,
  ◌==◌, if◌then◌else◌, length, take,
}
use hindsight.CString.{Bytes, codes}
use hindsight.Disk.{Disk}
use hindsight.Util.{max_path, get_fqfn, has_ext, cfg_ext, lua_ext, save_termination_err}
use hindsight.Config.Options.{
  LuaNumber, Value, Entries, Checked, invalid, valid, ◌>>=◌, or_keep, uint_max, get_unsigned_int,
  get_bool_item, get_option_char, get_string_item,
}

-- `hs_sandbox_config`; `none` is the null pointer
pub record SandboxConfig : Type 0 where
  pub dir : Option Bytes
  pub filename : Option Bytes
  pub cfg_name : Option Bytes
  pub cfg_lua : Option Bytes
  pub message_matcher : Option Bytes
  pub thread : ℕ  -- unsigned
  pub async_buffer_size : ℕ  -- unsigned
  pub output_limit : ℕ  -- unsigned
  pub memory_limit : ℕ  -- unsigned
  pub instruction_limit : ℕ  -- unsigned
  pub ticker_interval : ℕ  -- unsigned
  pub preserve_data : Bool
  pub restricted_headers : Bool
  pub shutdown_terminate : Bool
  pub rm_cp_terminate : Bool
  pub read_queue : ℕ  -- char
  pub pm_im_limit : ℕ  -- unsigned
  pub te_im_limit : ℕ  -- unsigned

-- `init_sandbox_config`
abbrev pub init_sandbox_config : SandboxConfig
init_sandbox_config = record {
  dir = none;
  filename = none;
  cfg_name = none;
  cfg_lua = none;
  message_matcher = none;
  thread = uint_max;
  async_buffer_size = 0;
  output_limit = 65536;
  memory_limit = 8388608;
  instruction_limit = 1000000;
  ticker_interval = 0;
  preserve_data = false;
  restricted_headers = true;
  shutdown_terminate = false;
  rm_cp_terminate = false;
  read_queue = b'b';
  pm_im_limit = 0;
  te_im_limit = 10;
}

-- `g_queue_options`
abbrev pub queue_options : List Bytes
queue_options = codes "both" ∷ codes "input" ∷ codes "analysis" ∷ []

-- `create_name`, for a file name with an extension of four bytes
unfoldable pub create_name : Bytes → Bytes → Bytes
create_name prefix fn = prefix ++ (b'.' ∷ take (length fn - 4) fn)

unfoldable pub type_name : ℕ → Bytes
type_name type =
    if type == b'i'
    then codes "input"
    else if type == b'o'
    then codes "output"
    else codes "analysis"

-- The fields that a plugin takes from the defaults of its type.
unfoldable pub with_defaults : Option SandboxConfig → SandboxConfig → SandboxConfig
with_defaults none cfg = cfg
with_defaults (some dflt) cfg = record cfg {
  output_limit = dflt.output_limit;
  memory_limit = dflt.memory_limit;
  instruction_limit = dflt.instruction_limit;
  ticker_interval = dflt.ticker_interval;
  preserve_data = dflt.preserve_data;
  restricted_headers = dflt.restricted_headers;
  shutdown_terminate = dflt.shutdown_terminate;
  rm_cp_terminate = dflt.rm_cp_terminate;
  pm_im_limit = dflt.pm_im_limit;
  te_im_limit = dflt.te_im_limit;
  read_queue = dflt.read_queue;
}

-- `strpbrk(filename, "/\\")` finds something
abbrev pub has_path : Bytes → Bool
has_path [] = false
has_path (c ∷ s) = if c == b'/' || c == b'\\' then true else has_path s

-- The message has its two arguments the wrong way round.
unfoldable pub check_filename : Bytes → Checked (Unit {0})
check_filename filename =
    if has_path filename
    then invalid (codes "filename must not contain a path component")
    else if not (has_ext filename lua_ext)
    then invalid (lua_ext ++ codes " must have a filename extension")
    else valid tt

module _ (print : LuaNumber → Bytes) {Table : Type 0} where
  -- The options of every sandbox.
  unfoldable pub load_common :
      Entries Table → SandboxConfig → Checked (SandboxConfig × Entries Table)
  unfolding check_filename
  load_common t cfg = do
    (output, t) ← get_unsigned_int t (codes "output_limit") cfg.output_limit
    (memory, t) ← get_unsigned_int t (codes "memory_limit") cfg.memory_limit
    (instruction, t) ← get_unsigned_int t (codes "instruction_limit") cfg.instruction_limit
    (ticker, t) ← get_unsigned_int t (codes "ticker_interval") cfg.ticker_interval
    (filename, t) ← get_string_item print t (codes "filename") none
    _ ← check_filename filename
    (preserve, t) ← get_bool_item t (codes "preserve_data") cfg.preserve_data
    (restricted, t) ← get_bool_item t (codes "restricted_headers") cfg.restricted_headers
    (shutdown, t) ← get_bool_item t (codes "shutdown_on_terminate") cfg.shutdown_terminate
    valid (
      record cfg {
        output_limit = output;
        memory_limit = memory;
        instruction_limit = instruction;
        ticker_interval = ticker;
        filename = some filename;
        preserve_data = preserve;
        restricted_headers = restricted;
        shutdown_terminate = shutdown;
      },
      t,
    )

  unfoldable pub load_matcher :
      ℕ → SandboxConfig × Entries Table → Checked (SandboxConfig × Entries Table)
  load_matcher type (cfg, t) =
      if type == b'a' || type == b'o'
      then (do
        (matcher, t') ← get_string_item print t (codes "message_matcher") none
        valid (record cfg { message_matcher = some matcher }, t'))
      else valid (cfg, t)

  unfoldable pub load_te_im_limit :
      SandboxConfig × Entries Table → Checked (SandboxConfig × Entries Table)
  load_te_im_limit (cfg, t) = do
    (te, t') ← get_unsigned_int t (codes "timer_event_inject_limit") cfg.te_im_limit
    valid (record cfg { te_im_limit = te }, t')

  -- Of the first two options of an analysis plugin the result is not looked at.
  unfoldable pub load_analysis :
      ℕ → SandboxConfig × Entries Table → Checked (SandboxConfig × Entries Table)
  unfolding or_keep load_te_im_limit
  load_analysis type (cfg, t) =
      if type == b'a'
      then (do
        let (thread, t1) = or_keep (get_unsigned_int t (codes "thread") cfg.thread) (cfg.thread, t)
        let (pm, t2) =
            or_keep (get_unsigned_int t1 (codes "process_message_inject_limit") cfg.pm_im_limit)
              (cfg.pm_im_limit, t1)
        load_te_im_limit (record cfg { thread = thread; pm_im_limit = pm }, t2))
      else valid (cfg, t)

  unfoldable pub load_read_queue :
      SandboxConfig × Entries Table → Checked (SandboxConfig × Entries Table)
  load_read_queue (cfg, t) = do
    (queue, t') ← get_option_char t (codes "read_queue") cfg.read_queue queue_options
    valid (record cfg { read_queue = queue }, t')

  -- Of the option in between the result is not looked at.
  unfoldable pub load_output :
      ℕ → SandboxConfig × Entries Table → Checked (SandboxConfig × Entries Table)
  unfolding or_keep load_read_queue
  load_output type (cfg, t) =
      if type == b'o'
      then (do
        (async, t1) ← get_unsigned_int t (codes "async_buffer_size") cfg.async_buffer_size
        let (rm_cp, t2) =
            or_keep (get_bool_item t1 (codes "remove_checkpoints_on_terminate") cfg.rm_cp_terminate)
              (cfg.rm_cp_terminate, t1)
        load_read_queue (record cfg { async_buffer_size = async; rm_cp_terminate = rm_cp }, t2))
      else valid (cfg, t)

  -- All that is taken from the Lua state.
  unfoldable pub load_options :
      ℕ → SandboxConfig → Entries Table → Checked (SandboxConfig × Entries Table)
  unfolding load_common load_matcher load_analysis load_output
  load_options type cfg t = do
    common ← load_common t cfg
    matched ← load_matcher type common
    analysis ← load_analysis type matched
    load_output type analysis

-- The text in front of the last `/`, at `strrchr`
abbrev pub parent_of : Bytes → Option Bytes
parent_of [] = none
parent_of (c ∷ s) = elim (parent_of s) [
  | some p ↦ some (c ∷ p)
  | none ↦ if c == b'/' then some [] else none
]

-- `cleanup`: an error is saved in the directory above that of the plugins.
unfoldable pub save_error : Disk → Bytes → Bytes → Bytes → Bytes → Disk
save_error d dir name stamp message = elim (parent_of dir) [
  | none ↦ d
  | some path ↦ save_termination_err d path name stamp message
]

module _ (print : LuaNumber → Bytes) {Table : Type 0} (run_lua : Bytes → Checked (Entries Table))
    (stamp : Bytes) where
  unfoldable pub cleanup :
      Disk → Bytes → Bytes → Checked (SandboxConfig × Entries Table) → Disk × Option SandboxConfig
  unfolding save_error
  cleanup d dir name (invalid message) = (save_error d dir name stamp message, none)
  cleanup d dir name (valid (cfg, t)) = (d, some cfg)

  unfoldable pub load_text :
      Disk → Bytes → Bytes → Option SandboxConfig → ℕ → Bytes → Disk × Option SandboxConfig
  unfolding cleanup load_options with_defaults create_name type_name
  load_text d dir fn dflt type cfg_lua =
      let name = create_name (type_name type) fn in
      let cfg = record (with_defaults dflt init_sandbox_config) {
        dir = some dir;
        cfg_name = some name;
        cfg_lua = some cfg_lua;
      } in
      cleanup d dir name (run_lua cfg_lua >>= load_options print type cfg)

  unfoldable pub load_file :
      Disk → Bytes → Bytes → Option SandboxConfig → ℕ → Option Bytes → Disk × Option SandboxConfig
  unfolding load_text
  load_file d dir fn dflt type none = (d, none)
  load_file d dir fn dflt type (some cfg_lua) = load_text d dir fn dflt type cfg_lua

  -- `hs_load_sandbox_config`, where there is memory; `run_lua` is `luaL_dostring`, by the globals that
  -- it leaves.
  unfoldable pub load_sandbox_config :
      Disk → Bytes → Bytes → Option SandboxConfig → ℕ → Disk × Option SandboxConfig
  unfolding load_file has_ext get_fqfn
  load_sandbox_config d dir fn dflt type =
      if has_ext fn cfg_ext
      then elim (get_fqfn dir fn max_path) [
        | none ↦ (d, none)
        | some fqfn ↦ load_file d dir fn dflt type (d.content fqfn)
      ]
      else (d, none)
