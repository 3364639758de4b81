-- ===== src/InputPlugin/Thread.antt =====
-- src/hs_input_plugins.c: `input_thread`, which calls the sandbox once, or again and again until it is
-- told to stop.
pub mod Leaving
pub mod Restart
use hindsight.Base.{
  ℕ, zero, suc, ◌+◌, ◌-◌, Bool, true, false, not, ◌&&◌, ◌||◌, Option, none, some, List, [], ◌∷◌,
  ◌==◌, set, if◌then◌else◌,
}
use hindsight.Base.Run.{Run, ok, ◌>>=◌}
use hindsight.CString.{Bytes}
use hindsight.Disk.{Disk}
use hindsight.Util.{save_termination_err}
use hindsight.Output.{Output}
use hindsight.CheckpointReader.{Table}
use hindsight.IpCheckpoint.{store_checkpoint}
use hindsight.Inject.{QueueConfig, Throttle, Answers}
use hindsight.InputPlugin.{InputPlugin, Injected, inject_message}
use hindsight.InputPlugin.PluginList.{InputPlugins}

-- The arguments of a call of `inject_message`, with what it meets.
pub record InjectCall (Number Stats : Type 0) : Type 0 where
  pub message : Option Bytes
  pub cp_numeric : Option Number
  pub cp_string : Option Bytes
  pub malloc : Bool
  pub now : Stats
  pub answers : Answers

-- The result of `lsb_heka_pm_input`: at most 0, where `poll_failed` is `LSB_HEKA_PM_FAIL`, or above.
pub data Polled : Type 0 where
  poll_done poll_failed poll_fatal : Polled

abbrev pub is_error : Polled → Bool
is_error poll_fatal = true
is_error _ = false

-- A call of the sandbox: the messages that it injects, its result, its statistics, and whether the
-- semaphore is posted before the time until the next call is over.
pub record Poll (Number Stats : Type 0) : Type 0 where
  pub injected : List (InjectCall Number Stats)
  pub result : Polled
  pub stats : Stats
  pub posted : Bool

-- The queue that is written, and the plugin.
pub record InputState (Number Stats : Type 0) : Type 0 where
  pub disk : Disk
  pub output : Output
  pub throttle : Throttle
  pub plugin : InputPlugin Number Stats

-- What the loop ends with: the state, whether the plugin is to shut down, and whether the sandbox ended
-- with an error.
pub record InputEnded (Number Stats : Type 0) : Type 0 where
  pub state : InputState Number Stats
  pub shutdown : Bool
  pub failed : Bool

module _ {Number Stats : Type 0} where
  -- `sem_trywait`
  unfoldable pub try_wait : InputPlugin Number Stats → InputPlugin Number Stats × Bool
  try_wait p = elim p.shutdown [ zero ↦ (p, false) | suc n ↦ (record p { shutdown = n }, true) ]

  -- A wait for the semaphore, which has the value `n`, where it may be posted meanwhile.
  abbrev pub waited : ℕ → Bool → InputPlugin Number Stats → InputPlugin Number Stats × Bool
  waited zero posted p = (p, posted)
  waited (suc n) posted p = (record p { shutdown = n }, true)

  -- `sem_timedwait`
  unfoldable pub timed_wait : Bool → InputPlugin Number Stats → InputPlugin Number Stats × Bool
  timed_wait posted p = waited p.shutdown posted p

  abbrev exits : InputState Number Stats → Bool → Option (InputEnded Number Stats)
  exits s failed =
      let (p, shutdown) = try_wait s.plugin in
      some (record { state = record s { plugin = p }; shutdown = shutdown; failed = failed })

  -- Until the next call: the statistics are taken, and the semaphore is waited for.
  unfoldable pub wait_next :
      Poll Number Stats → InputState Number Stats → InputState Number Stats × Bool
  unfolding timed_wait
  wait_next x s =
      let (p, shutdown) = timed_wait x.posted (record s.plugin { stats = x.stats }) in
      (record s { plugin = p }, shutdown)

  -- What the result of a call leads to: the loop is left, or goes on as `more`.
  unfoldable pub after_call :
      Polled
      → ℕ
      → InputState Number Stats
      → InputState Number Stats
      → Bool
      → Run (Option (InputEnded Number Stats))
      → Run (Option (InputEnded Number Stats))
  unfolding try_wait
  after_call result ticker_interval s1 s2 shutdown more =
      if is_error result
      then ok (exits s1 true)
      else if ticker_interval == 0
      then ok (exits s1 false)
      else if shutdown
      then ok (some (record { state = s2; shutdown = true; failed = false }))
      else more

  module _ (varint : ℕ → Bytes) (cfg : QueueConfig) where
    -- The messages of one call.
    unfoldable pub inject_calls :
        List (InjectCall Number Stats) → InputState Number Stats → Run (InputState Number Stats)
    unfolding inject_message
    inject_calls [] s = ok s
    inject_calls (c ∷ rest) s = do
      r ←
          inject_message varint cfg s.disk s.output s.throttle s.plugin c.message c.cp_numeric
            c.cp_string c.malloc c.now c.answers
      inject_calls rest
          (record { disk = r.disk; output = r.output; throttle = r.throttle; plugin = r.plugin })

    -- The loop of `input_thread`: it ends after the first call where there is no `ticker_interval`,
    -- and after an error. There is no result as long as it goes on.
    unfoldable pub polls :
        ℕ
        → List (Poll Number Stats)
        → InputState Number Stats
        → Run (Option (InputEnded Number Stats))
    unfolding inject_calls wait_next after_call
    polls ticker_interval [] s = ok none
    polls ticker_interval (x ∷ rest) s = do
      s1 ← inject_calls x.injected s
      let (s2, shutdown) = wait_next x s1
      let more = polls ticker_interval rest s2
      after_call x.result ticker_interval s1 s2 shutdown more

-- The plugin of the thread, its place in the list, and what it meets at its end: the error of its
-- sandbox, and the date in front of that.
pub record InputOwner : Type 0 where
  pub name : Bytes
  pub list_index : ℕ
  pub shutdown_terminate : Bool
  pub error : Bytes
  pub stamp : Bytes

-- What the thread changes at its end.
pub record InputShared (Number Stats : Type 0) : Type 0 where
  pub disk : Disk
  pub table : Table Number
  pub plugins : InputPlugins Number Stats
  pub sigterm : Bool

module _ {Number Stats : Type 0} where
  -- A plugin that ends by itself leaves the list; its error is saved, if there is one.
  unfoldable pub leave :
      Bytes → InputOwner → Bool → InputShared Number Stats → InputShared Number Stats
  leave run_path o failed s = record {
    disk = if failed then save_termination_err s.disk run_path o.name o.stamp o.error else s.disk;
    table = s.table;
    plugins = record {
      list = set s.plugins.list o.list_index none;
      list_cnt = s.plugins.list_cnt - 1;
    };
    sigterm = s.sigterm || (failed && o.shutdown_terminate);
  }

  unfoldable pub end_with :
      Bytes
      → InputOwner
      → InputEnded Number Stats
      → InputShared Number Stats
      → Option (Table Number)
      → Option (InputShared Number Stats)
  unfolding leave
  end_with run_path o e s none = none
  end_with run_path o e s (some t) =
      let stored = record s { table = t } in
      some (if e.shutdown then stored else leave run_path o e.failed stored)

  -- Behind the loop: the checkpoint goes to the table; `none` where that reads past its buffer.
  unfoldable pub end_input_thread :
      Bytes
      → InputOwner
      → InputEnded Number Stats
      → InputShared Number Stats
      → Option (InputShared Number Stats)
  unfolding store_checkpoint end_with
  end_input_thread run_path o e s =
      end_with run_path o e s (store_checkpoint s.table o.name e.state.plugin.cp)
