-- ===== src/InputPlugin.antt =====
-- src/hs_input_plugins.c: a message that the sandbox of an input plugin injects.
pub mod Inject
pub mod PluginList
pub mod Thread
pub mod Removal
pub mod Loading
use hindsight.Base.{
  ℕ, zero, suc, ◌+◌, ◌%◌, ◌^◌, ◌≡◌, Bool, true, false, Option, none, some, List, if◌then◌else◌,
}
use hindsight.Base.Run.{Run, ok, ◌>>=◌}
use hindsight.CString.{Bytes}
use hindsight.Disk.{Disk}
use hindsight.Output.{Output}
use hindsight.Inject.{QueueConfig, Throttle, Answers, write_message}
use hindsight.IpCheckpoint.{IpCheckpoint, Status, success, failure, update_checkpoint}

-- `hs_input_plugin`, as far as messages change it. `stop_requested` tells whether the sandbox was told
-- to stop, by `lsb_heka_stop_sandbox_clean`. `Stats` is what `lsb_heka_get_stats` gives.
pub record InputPlugin (Number Stats : Type 0) : Type 0 where
  pub cp : IpCheckpoint Number
  pub stats : Stats
  pub shutdown : ℕ  -- the value of the semaphore
  pub im_delta_cnt : ℕ
  pub sample : Bool
  pub stop_requested : Bool

-- What one call leaves behind, and its result.
pub record Injected (Number Stats : Type 0) : Type 0 where
  pub disk : Disk
  pub output : Output
  pub throttle : Throttle
  pub plugin : InputPlugin Number Stats
  pub result : Status

module _ {Number Stats : Type 0} where
  -- The statistics are taken when the writer of the checkpoints asked for them.
  unfoldable pub sampled : Stats → InputPlugin Number Stats → InputPlugin Number Stats
  sampled now p = if p.sample then record p { stats = now; sample = false } else p

  unfoldable pub counted : Option Bytes → InputPlugin Number Stats → InputPlugin Number Stats
  counted none p = p
  counted (some _) p = record p { im_delta_cnt = p.im_delta_cnt + 1 }

  -- What the call does under the lock of the checkpoint.
  unfoldable pub record_checkpoint :
      Bool
      → Option Number
      → Option Bytes
      → Stats
      → Option Bytes
      → InputPlugin Number Stats
      → InputPlugin Number Stats × Status
  unfolding update_checkpoint sampled counted
  record_checkpoint malloc cp_numeric cp_string now pb p =
      let (cp, rv) = update_checkpoint malloc cp_numeric cp_string p.cp in
      (counted pb (sampled now (record p { cp = cp })), rv)

  -- A call without a message: where the semaphore was posted, the sandbox is told to stop, and the
  -- semaphore is posted again for its thread.
  unfoldable pub synchronize : InputPlugin Number Stats → InputPlugin Number Stats
  synchronize p = elim p.shutdown [
    | zero ↦ p
    | suc n ↦ record p { shutdown = n + 1; stop_requested = true }
  ]

module _ {Number Stats : Type 0} (varint : ℕ → Bytes) where
  -- A message goes to the queue only with a checkpoint that was accepted.
  unfoldable pub deliver :
      QueueConfig
      → Disk
      → Output
      → Throttle
      → Option Bytes
      → Answers
      → InputPlugin Number Stats
      → Status
      → Run (Injected Number Stats)
  unfolding synchronize write_message
  deliver cfg d o th none a p rv =
      ok (record { disk = d; output = o; throttle = th; plugin = synchronize p; result = rv })
  deliver cfg d o th (some pb) a p failure =
      ok (record { disk = d; output = o; throttle = th; plugin = p; result = failure })
  deliver cfg d o th (some pb) a p success = do
    (d', o', th') ← write_message varint cfg d o th pb a
    ok (record { disk = d'; output = o'; throttle = th'; plugin = p; result = success })

  -- `inject_message`; `now` is what `lsb_heka_get_stats` gives
  unfoldable pub inject_message :
      QueueConfig
      → Disk
      → Output
      → Throttle
      → InputPlugin Number Stats
      → Option Bytes
      → Option Number
      → Option Bytes
      → Bool
      → Stats
      → Answers
      → Run (Injected Number Stats)
  unfolding record_checkpoint deliver
  inject_message cfg d o th p pb cp_numeric cp_string malloc now a =
      let (p', rv) = record_checkpoint malloc cp_numeric cp_string now pb p in
      deliver cfg d o th pb a p' rv
