-- ===== src/Inject.antt =====
-- What the three `inject_message` functions do under the lock of their queue: the frame of a message,
-- the change to the next file, and backpressure (src/hs_input_plugins.c, src/hs_analysis_plugins.c,
-- src/hs_output_plugins.c).
pub mod Write
pub mod Backpressure
use hindsight.Base.{
  ℕ, zero, suc, ◌+◌, ◌-◌, ◌%◌, ◌^◌, ◌≡◌, Bool, true, false, not, ◌&&◌, ◌||◌, Option, none, some,
  List, [], ◌∷◌, ◌++◌, arith, ltb, leb, ◌==◌, if◌then◌else◌, length,
}
use hindsight.Base.Run.{Run, ok, exit_failure, ◌>>=◌}
use hindsight.CString.{Bytes}
use hindsight.Disk.{Disk, append}
use hindsight.Util.{disk_free_ob}
use hindsight.Checkpoint.{Checkpoint}
use hindsight.Output.{Output, file_of, open_output_file}

-- The fields of `hs_config` that the writers of a queue read.
pub record QueueConfig : Type 0 where
  pub output_size : ℕ  -- unsigned
  pub backpressure : ℕ  -- unsigned
  pub backpressure_df : ℕ  -- unsigned

-- The static variables of an `inject_message`.
pub record Throttle : Type 0 where
  pub last_bp_check : ℕ  -- time_t
  pub backpressure : Bool

-- What the system answers during one call: whether the two writes succeed, and the two times read.
pub record Answers : Type 0 where
  pub header_written : Bool
  pub message_written : Bool
  pub checked_at : ℕ
  pub stored_at : ℕ

abbrev pub add64 : ℕ → ℕ → ℕ
add64 a b = (a + b) % 2 ^ 64

abbrev pub sub64 : ℕ → ℕ → ℕ
sub64 a b = (a + 2 ^ 64 - b) % 2 ^ 64

-- `(size_t)(int)n`
abbrev pub int_to_size : ℕ → ℕ
int_to_size n = let low = n % 2 ^ 32 in if ltb low (2 ^ 31) then low else low + 2 ^ 64 - 2 ^ 32

-- `lsb_pb_output_varint` of the lua_sandbox library gives the bytes of a number.
module _ (varint : ℕ → Bytes) where
  -- `header`, up to `4 + len`
  unfoldable pub header : ℕ → Bytes
  header pb_len = 0x1e ∷ (length (varint pb_len) + 1) % 256 ∷ 0x08 ∷ (varint pb_len ++ (0x1f ∷ []))

  unfoldable pub frame : Bytes → Bytes
  unfolding header
  frame pb = header (length pb) ++ pb

  -- the two writes and the new offset; a write that fails ends the process
  unfoldable pub write_frame : Disk → Output → Bytes → Answers → Run (Disk × Output)
  write_frame d o pb a =
      let len = length (varint (length pb)) in
      let tlen = 4 + len + length pb in
      if a.header_written && a.message_written
      then ok (
        append (append d (file_of o) (header (length pb))) (file_of o) pb,
        record o { cp = record o.cp { offset = add64 o.cp.offset (int_to_size tlen) } },
      )
      else exit_failure

-- Whether backpressure stands after a change to the next file.
unfoldable pub applied : QueueConfig → Disk → Output → Bool → Bool
applied cfg d o bp =
    let lagging = not (cfg.backpressure == 0) && ltb cfg.backpressure (sub64 o.cp.id o.min_cp_id) in
    let checked = bp || lagging in
    let df = disk_free_ob d o.path cfg.output_size in
    checked || (not (cfg.backpressure_df == 0) && leb df cfg.backpressure_df)

-- The change to the next file once the current one is full.
unfoldable pub rotate : QueueConfig → Disk → Output → Bool → Run (Disk × Output × Bool)
rotate cfg d o bp =
    if leb cfg.output_size o.cp.offset
    then (do
      (d', o') ← open_output_file d (record o { cp = record o.cp { id = add64 o.cp.id 1 } })
      ok (d', o', applied cfg d' o' bp))
    else ok (d, o, bp)

-- Whether backpressure still stands after the check that is made once a second.
unfoldable pub released : QueueConfig → Disk → Output → Throttle → Answers → Throttle
released cfg d o th a =
    let df = disk_free_ob d o.path cfg.output_size in
    let release_dfbp = cfg.backpressure_df == 0 || ltb cfg.backpressure_df df in
    if th.backpressure && ltb th.last_bp_check a.checked_at
    then record {
      last_bp_check = a.stored_at;
      backpressure = not (o.cp.id == o.min_cp_id && release_dfbp);
    }
    else th

module _ (varint : ℕ → Bytes) where
  -- The part of `inject_message` between the lock and the unlock of the queue. The call then waits
  -- for a tenth of a second if backpressure stands.
  unfoldable pub write_message :
      QueueConfig → Disk → Output → Throttle → Bytes → Answers → Run (Disk × Output × Throttle)
  write_message cfg d o th pb a = do
    (d1, o1) ← write_frame varint d o pb a
    (d2, o2, bp) ← rotate cfg d1 o1 th.backpressure
    ok (d2, o2, released cfg d2 o2 (record th { backpressure = bp }) a)
