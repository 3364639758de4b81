-- ===== src/Config/Runtime.antt =====
-- src/hs_config.c: the file of the configuration that a plugin was started with.
use hindsight.Base.{ℕ, Bool, false, some, List, [], ◌∷◌, ◌++◌, ◌==◌, if◌then◌else◌}
use hindsight.CString.{Bytes, codes}
use hindsight.CString.Decimal.{decimal}
use hindsight.Disk.{Disk, put, bytes_of}
use hindsight.Util.{rtc_ext}
use hindsight.Config.Sandbox.{SandboxConfig}
use hindsight.Config.Main.{HsConfig}

-- The lines `key = [[value]]`, `key = number` and `key = true`.
abbrev line : Bytes → Bytes → Bytes
line key value = key ++ codes " = " ++ value ++ codes "\n"

abbrev text_line : Bytes → Bytes → Bytes
text_line key value = line key (codes "[[" ++ value ++ codes "]]")

abbrev number_line : Bytes → ℕ → Bytes
number_line key n = line key (decimal n)

abbrev bool_line : Bytes → Bool → Bytes
bool_line key b = line key (if b then codes "true" else codes "false")

abbrev read_queue_line : ℕ → Bytes
read_queue_line c = line (codes "read_queue") (
    if c == b'i'
    then codes "\"input\""
    else if c == b'a'
    then codes "\"analysis\""
    else codes "\"both\"")

abbrev path_lines : ℕ → HsConfig → List Bytes
path_lines kind cfg =
    if kind == b'a'
    then text_line (codes "path") cfg.analysis_lua_path
      ∷ text_line (codes "cpath") cfg.analysis_lua_cpath
      ∷ []
    else text_line (codes "path") cfg.io_lua_path
      ∷ text_line (codes "cpath") cfg.io_lua_cpath
      ∷ text_line (codes "output_path") cfg.output_path
      ∷ number_line (codes "output_size") cfg.output_size
      ∷ number_line (codes "max_message_size") cfg.max_message_size
      ∷ text_line (codes "sandbox_load_path") cfg.load_path
      ∷ text_line (codes "sandbox_run_path") cfg.run_path
      ∷ text_line (codes "sandbox_install_path") cfg.install_path
      ∷ []

abbrev sandbox_lines : SandboxConfig → List Bytes
sandbox_lines sbc =
    codes "\n-- Sandbox defaults and overrides\n"
    ∷ text_line (codes "Logger") (bytes_of sbc.cfg_name)
    ∷ number_line (codes "output_limit") sbc.output_limit
    ∷ number_line (codes "memory_limit") sbc.memory_limit
    ∷ number_line (codes "instruction_limit") sbc.instruction_limit
    ∷ number_line (codes "ticker_interval") sbc.ticker_interval
    ∷ bool_line (codes "preserve_data") sbc.preserve_data
    ∷ bool_line (codes "restricted_headers") sbc.restricted_headers
    ∷ bool_line (codes "shutdown_on_terminate") sbc.shutdown_terminate
    ∷ []

abbrev analysis_lines : ℕ → SandboxConfig → List Bytes
analysis_lines kind sbc =
    if kind == b'a'
    then number_line (codes "thread") sbc.thread
      ∷ number_line (codes "process_message_inject_limit") sbc.pm_im_limit
      ∷ number_line (codes "timer_event_inject_limit") sbc.te_im_limit
      ∷ []
    else []

abbrev output_lines : ℕ → SandboxConfig → List Bytes
output_lines kind sbc =
    if kind == b'o'
    then number_line (codes "async_buffer_size") sbc.async_buffer_size
      ∷ bool_line (codes "remove_checkpoints_on_terminate") sbc.rm_cp_terminate
      ∷ read_queue_line sbc.read_queue
      ∷ []
    else []

-- All that is written before the last line, for a configuration that has its name and its text, as an
-- accepted one.
unfoldable pub runtime_lines : ℕ → ℕ → HsConfig → SandboxConfig → List Bytes
runtime_lines kind log_level cfg sbc =
    (codes "-- original configuration\n"
      ∷ (bytes_of sbc.cfg_lua ++ codes "\n")
      ∷ codes "-- Hindsight defaults and overrides\n"
      ∷ text_line (codes "Hostname") cfg.hostname
      ∷ number_line (codes "Pid") cfg.pid
      ∷ number_line (codes "log_level") log_level
      ∷ [])
    ++ path_lines kind cfg
    ++ sandbox_lines sbc
    ++ analysis_lines kind sbc
    ++ output_lines kind sbc

abbrev last_line : Bytes
last_line = codes "-- end Hindsight configuration\n"

abbrev rtc_path : HsConfig → SandboxConfig → Bytes
rtc_path cfg sbc = cfg.output_path ++ (b'/' ∷ (bytes_of sbc.cfg_name ++ rtc_ext))

-- The buffer, with `lsb_outputf` of a text, which tells whether it succeeded, and with what it holds.
module _ {Buffer : Type 0} (outputf : Buffer → Bytes → Buffer × Bool) (held : Buffer → Bytes) where
  -- Results in between are not looked at.
  unfoldable pub output_all : Buffer → List Bytes → Buffer
  output_all ob [] = ob
  output_all ob (text ∷ rest) = let (ob', _) = outputf ob text in output_all ob' rest

  -- `hs_output_runtime_cfg`
  unfoldable pub output_runtime_cfg :
      Buffer → ℕ → ℕ → HsConfig → SandboxConfig → Disk → Buffer × Disk × Bool
  unfolding output_all runtime_lines
  output_runtime_cfg ob kind log_level cfg sbc d =
      let (ob', fitted) =
        outputf (output_all ob (runtime_lines kind log_level cfg sbc)) last_line in
      if d.refuses (rtc_path cfg sbc)
      then (ob', d, false)
      else (ob', put d (rtc_path cfg sbc) (some (held ob')), fitted)
