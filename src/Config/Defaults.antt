-- ===== src/Config/Defaults.antt =====
-- src/hs_config.c: the tables of defaults for the three types of sandboxes.
use hindsight.Base.{Option, none, some, ◌++◌, if◌then◌else◌}
use hindsight.Base.Run.{Run, ok, exit_failure}
use hindsight.CString.{Bytes, codes, str_eq}
use hindsight.Config.Options.{
  Value, table, Entries, Checked, invalid, valid, ◌>>=◌, get_field, remove_item, get_unsigned_int,
  get_bool_item, get_option_char, check_for_unknown_options,
}
use hindsight.Config.Sandbox.{SandboxConfig, queue_options}

-- A table of defaults, and the globals of the Lua state, which may hold such tables.
abbrev pub Options : Type 0
Options = Entries (Unit {0})

abbrev pub Globals : Type 0
Globals = Entries Options

-- What stands at index 1 of the Lua stack, if that is not empty, and the globals.
pub record LuaState : Type 0 where
  pub bottom : Option (Value Options)
  pub globals : Globals

-- What a failed item leaves on the stack: the value in front of the message.
unfoldable pub left_behind {ℓ} :
    {A : Type ℓ}
    → Option (Value Options)
    → Option (Value Options)
    → Checked A
    → Option (Value Options)
left_behind (some v) field result = some v
left_behind none field (invalid _) = field
left_behind none field (valid _) = none

-- The options in a table of defaults.
unfoldable pub defaults_from : Bytes → SandboxConfig → Options → Checked (SandboxConfig × Options)
defaults_from key cfg t = do
  (output, t) ← get_unsigned_int t (codes "output_limit") cfg.output_limit
  (memory, t) ← get_unsigned_int t (codes "memory_limit") cfg.memory_limit
  (instruction, t) ← get_unsigned_int t (codes "instruction_limit") cfg.instruction_limit
  (ticker, t) ← get_unsigned_int t (codes "ticker_interval") cfg.ticker_interval
  (preserve, t) ← get_bool_item t (codes "preserve_data") cfg.preserve_data
  (restricted, t) ← get_bool_item t (codes "restricted_headers") cfg.restricted_headers
  (shutdown, t) ← get_bool_item t (codes "shutdown_on_terminate") cfg.shutdown_terminate
  valid (
    record cfg {
      output_limit = output;
      memory_limit = memory;
      instruction_limit = instruction;
      ticker_interval = ticker;
      preserve_data = preserve;
      restricted_headers = restricted;
      shutdown_terminate = shutdown;
    },
    t,
  )

unfoldable pub analysis_defaults_from :
    Bytes → SandboxConfig × Options → Checked (SandboxConfig × Options)
analysis_defaults_from key (cfg, t) =
    if str_eq key (codes "analysis_defaults")
    then (do
      (pm, t1) ← get_unsigned_int t (codes "process_message_inject_limit") cfg.pm_im_limit
      (te, t2) ← get_unsigned_int t1 (codes "timer_event_inject_limit") cfg.te_im_limit
      valid (record cfg { pm_im_limit = pm; te_im_limit = te }, t2))
    else valid (cfg, t)

unfoldable pub output_defaults_from :
    Bytes → SandboxConfig × Options → Checked (SandboxConfig × Options)
output_defaults_from key (cfg, t) =
    if str_eq key (codes "output_defaults")
    then (do
      (rm_cp, t1) ← get_bool_item t (codes "remove_checkpoints_on_terminate") cfg.rm_cp_terminate
      (queue, t2) ← get_option_char t1 (codes "read_queue") cfg.read_queue queue_options
      valid (record cfg { rm_cp_terminate = rm_cp; read_queue = queue }, t2))
    else valid (cfg, t)

-- All options of a table, of which none may be left.
unfoldable pub all_defaults_from :
    Bytes → SandboxConfig → Options → Checked (SandboxConfig × Options)
unfolding defaults_from analysis_defaults_from output_defaults_from
all_defaults_from key cfg t = do
  common ← defaults_from key cfg t
  analysis ← analysis_defaults_from key common
  (cfg', t') ← output_defaults_from key analysis
  _ ← check_for_unknown_options t' (some key)
  valid (cfg', t')

abbrev kept_bottom : Globals → SandboxConfig × Options → SandboxConfig × LuaState
kept_bottom globals (cfg, t) = (cfg, record { bottom = some (table t); globals = globals })

abbrev empty_bottom : Globals → SandboxConfig × Options → SandboxConfig × LuaState
empty_bottom globals (cfg, t) = (cfg, record { bottom = none; globals = globals })

-- The options are taken from index 1. That is the table that was pushed, unless an error has left a
-- value there; from one that is not a table Lua takes no field, and ends the process.
unfoldable pub defaults_at_one :
    Bytes
    → SandboxConfig
    → Option (Value Options)
    → Options
    → Globals
    → Run (Checked (SandboxConfig × LuaState))
unfolding all_defaults_from
defaults_at_one key cfg none pushed globals =
    ok (all_defaults_from key cfg pushed >>= λ x. valid (empty_bottom globals x))
defaults_at_one key cfg (some (table t)) pushed globals =
    ok (all_defaults_from key cfg t >>= λ x. valid (kept_bottom globals x))
defaults_at_one key cfg (some _) pushed globals = exit_failure

unfoldable pub defaults_of :
    Bytes
    → SandboxConfig
    → LuaState
    → Option (Value Options)
    → Run (Checked (SandboxConfig × LuaState))
unfolding defaults_at_one remove_item
defaults_of key cfg s (some (table pushed)) =
    defaults_at_one key cfg s.bottom pushed (remove_item key s.globals)
defaults_of key cfg s _ = ok (invalid (key ++ codes " must be a table"))

-- `load_sandbox_defaults`
unfoldable pub load_sandbox_defaults :
    Bytes → SandboxConfig → LuaState → Run (Checked (SandboxConfig × LuaState))
unfolding defaults_of get_field
load_sandbox_defaults key cfg s = defaults_of key cfg s (get_field key s.globals)

abbrev pub and_then {ℓ κ} :
    {A : Type ℓ} {B : Type κ} → Run (Checked A) → (A → Run (Checked B)) → Run (Checked B)
and_then exit_failure next = exit_failure
and_then (ok (invalid message)) next = ok (invalid message)
and_then (ok (valid a)) next = next a
