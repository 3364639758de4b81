-- ===== src/Tests/Configuration.antt =====
-- Configurations that are accepted, and one that is moved from the load directory.
use hindsight.Base.{
  ◌≡◌, ◌++◌, Bool, refl, ltb, length, true, false, none, some, [], ◌∷◌, if◌then◌else◌,
}
use hindsight.Base.Run.{ok}
use hindsight.CString.{Bytes, codes, str_eq}
use hindsight.CString.Decimal.{decimal}
use hindsight.Disk.{Disk}
use hindsight.Util.{has_ext, cfg_ext, get_fqfn}
use hindsight.Config.Options.{
  LuaNumber, from_zero, Value, number, text, table, named, Entries, valid, get_unsigned_int,
  get_string_item, get_bool_item, get_option_char, get_uint8, check_for_unknown_options,
}
use hindsight.Config.Sandbox.{SandboxConfig, init_sandbox_config, load_sandbox_config}
use hindsight.Config.Sandbox.Accepted.{IsAccepted, load_sandbox_config-IsAccepted}
use hindsight.Config.Defaults.{Globals, Options}
use hindsight.Config.Main.{HsConfig, init_config, load_config}
use hindsight.Config.Runtime.{output_runtime_cfg}
use hindsight.Config.Main.Limits.{IsWithin, load_config-IsWithin}
use hindsight.Config.LoadDirectory.{Loaded, process_load_cfg}
use hindsight.Config.LoadDirectory.Moved.{Outcome, process_load_cfg-cfg}

abbrev pub print : LuaNumber → Bytes
print _ = codes "1"

-- The load directory has a new configuration; the plugin was terminated before.
abbrev disk : Disk
disk = record {
  content = λ p.
      if str_eq p (codes "load/output/a.cfg")
      then some (codes "new")
      else if str_eq p (codes "run/output/a.err")
      then some (codes "error")
      else none;
  entries = λ _. none;
  refuses = λ _. false;
  free_bytes = λ _. none;
}

process_load_cfg-cfg_example :
    (d' : Disk) × (result : Loaded) × (process_load_cfg disk
        (codes "load/output")
        (codes "run/output")
        (codes "a.cfg")
      ≡ ok (d', result))
    × Outcome disk (codes "load/output/a.cfg") (codes "run/output/a.cfg") d' result
unfolding has_ext get_fqfn str_eq
process_load_cfg-cfg_example =
    process_load_cfg-cfg disk (codes "load/output") (codes "run/output") (codes "a.cfg")
      (codes "load/output/a.cfg") (codes "run/output/a.cfg") refl refl refl (λ e. cc)

-- An output plugin with a matcher, and a wrong option whose result is not looked at.
abbrev pub options : Entries (Unit {0})
options =
    (named (codes "filename"), text (codes "a.lua"))
    ∷ (named (codes "message_matcher"), text (codes "TRUE"))
    ∷ (named (codes "remove_checkpoints_on_terminate"), number (from_zero 1 true))
    ∷ []

accepted :
    (cfg : SandboxConfig) × (load_sandbox_config print
        (λ _. valid options)
        []
        disk
        (codes "load/output")
        (codes "a.cfg")
        none
        b'o'
      ≡ (disk, some cfg))
unfolding load_sandbox_config get_unsigned_int get_string_item get_bool_item get_option_char
accepted = (_, refl)

load_sandbox_config-IsAccepted_example :
    (disk ≡ disk)
    × (has_ext (codes "a.cfg") cfg_ext ≡ true)
    × IsAccepted (codes "a.cfg") b'o' accepted.0
load_sandbox_config-IsAccepted_example =
    load_sandbox_config-IsAccepted print (λ _. valid options) [] disk disk (codes "load/output")
      (codes "a.cfg") none b'o' accepted.0 accepted.1

abbrev no_defaults : Value Options
no_defaults = table []

abbrev globals : Globals
globals =
    (named (codes "output_path"), text (codes "out"))
    ∷ (named (codes "sandbox_run_path"), text (codes "run"))
    ∷ (named (codes "io_lua_path"), text (codes "p"))
    ∷ (named (codes "io_lua_cpath"), text (codes "p"))
    ∷ (named (codes "analysis_lua_path"), text (codes "p"))
    ∷ (named (codes "analysis_lua_cpath"), text (codes "p"))
    ∷ (named (codes "analysis_threads"), number (from_zero 4 true))
    ∷ (named (codes "input_defaults"), no_defaults)
    ∷ (named (codes "analysis_defaults"), no_defaults)
    ∷ (named (codes "output_defaults"), no_defaults)
    ∷ []

configured :
    (cfg : HsConfig) × (load_config print 7 (codes "host") (valid globals) ≡ ok (valid cfg))
unfolding load_config get_unsigned_int str_eq get_string_item get_uint8 get_bool_item
    check_for_unknown_options get_option_char
configured = (_, refl)

load_config-IsWithin_example : IsWithin configured.0
load_config-IsWithin_example =
    load_config-IsWithin print 7 (codes "host") (valid globals) configured.0 configured.1

-- A buffer that takes 1,000 bytes, and no part of a text that is longer than what is left.
abbrev limited : Bytes → Bytes → Bytes × Bool
limited ob t = if ltb 1000 (length (ob ++ t)) then (ob, false) else (ob ++ t, true)

abbrev started : Bytes → SandboxConfig
started lua = record init_sandbox_config {
  cfg_name = some (codes "analysis.a");
  cfg_lua = some lua;
}

-- A short configuration fits into it.
output_runtime_cfg-written :
    (output_runtime_cfg limited
      (λ ob. ob)
      []
      b'a'
      6
      (init_config 7)
      (started (codes "a = 1"))
      disk).2
    ≡ true
unfolding output_runtime_cfg decimal str_eq
output_runtime_cfg-written = refl
