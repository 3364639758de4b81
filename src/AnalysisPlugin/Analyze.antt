-- ===== src/AnalysisPlugin/Analyze.antt =====
-- src/hs_analysis_plugins.c: a message, or a timer event, goes to the sandboxes of a thread.
pub mod Count
pub mod EachPlugin
use hindsight.Base.{
  ℕ, zero, suc, ◌+◌, ◌-◌, ◌≡◌, Bool, true, false, not, ◌&&◌, ◌||◌, Option, none, some, List, [],
  ◌∷◌, arith, ltb, leb, ◌==◌, if◌then◌else◌, length, get_elem?, set,
}
use hindsight.Base.Run.{Run, ok, ◌>>=◌}
use hindsight.CString.{Bytes}
use hindsight.Disk.{Disk}
use hindsight.Util.{save_termination_err}
use hindsight.Output.{Output}
use hindsight.Inject.{QueueConfig, Throttle, Answers}
use hindsight.QueueReader.{Message}
use hindsight.AnalysisPlugin.{Injecting, ImResult, inject_message}
use hindsight.AnalysisPlugin.Threads.{AnalysisThread}

-- The int that a call of a sandbox returns: below 0, 0, or above 0.
pub data Code : Type 0 where
  message_failed : Code
  completed : Code
  terminated : Code

abbrev pub is_terminated : Code → Bool
is_terminated terminated = true
is_terminated _ = false

abbrev pub is_completed : Code → Bool
is_completed completed = true
is_completed _ = false

-- What the code in a sandbox does during one call: it injects messages, and goes on by the result of
-- each, until it returns.
pub data Session (Sandbox : Type 0) : Type 0 where
  returns : Sandbox → Code → Session Sandbox
  injects : Bytes → Answers → (ImResult → Session Sandbox) → Session Sandbox

-- The functions of the lua_sandbox library on a sandbox: `lsb_heka_pm_analysis`,
-- `lsb_heka_timer_event`, `lsb_heka_get_error`, `lsb_heka_get_stats`; and `lsb_update_running_stats`.
pub record Library (Sandbox Stats Running : Type 0) : Type 0 where
  pub pm_analysis : Sandbox → Message → Bool → Session Sandbox
  pub timer_event : Sandbox → ℕ → Bool → Session Sandbox
  pub error_of : Sandbox → Bytes
  pub stats_of : Sandbox → Stats
  pub update_running_stats : Running → ℕ → Running

-- `hs_analysis_plugin`; the matcher is what `lsb_eval_message_matcher` answers.
pub record AnalysisPlugin (Sandbox Stats Running : Type 0) : Type 0 where
  pub name : Bytes
  pub sandbox : Sandbox
  pub matcher : Message → Bool
  pub stats : Stats
  pub mms : Running
  pub pm_delta_cnt : ℕ
  pub ticker_interval : ℕ
  pub ticker_expires : ℕ  -- time_t, which stays below its limit
  pub im_limit : ℕ
  pub pm_im_limit : ℕ
  pub te_im_limit : ℕ
  pub shutdown_terminate : Bool
  pub pm_sample : Bool

-- What the sandboxes share: the disk, the queue that they write, and whether the process was sent
-- SIGTERM.
pub record World : Type 0 where
  pub disk : Disk
  pub output : Output
  pub throttle : Throttle
  pub sigterm : Bool

-- What the system's clock gives for the plugin in a place of the list: the time that its matcher takes,
-- and the date in front of an error.
pub record Clock : Type 0 where
  pub elapsed : ℕ → ℕ
  pub stamp : ℕ → Bytes

-- `remove_plugin`
unfoldable pub remove_plugin : {Plugin : Type 0} → AnalysisThread Plugin → ℕ → AnalysisThread Plugin
remove_plugin at idx = record {
  list = set at.list idx none;
  list_cnt = at.list_cnt - 1;
  utilization = if ltb 5 at.utilization then at.utilization - 5 else 0;
  max_mps = 0;
}

module _ {Sandbox Stats Running : Type 0} (varint : ℕ → Bytes) (cfg : QueueConfig)
    (run_path : Bytes) (lib : Library Sandbox Stats Running) (clock : Clock) where
  abbrev Plugin : Type 0
  Plugin = AnalysisPlugin Sandbox Stats Running

  unfoldable pub run_session : Injecting → Session Sandbox → Run (Injecting × Sandbox × Code)
  run_session s (returns sandbox code) = ok (s, sandbox, code)
  run_session s (injects pb a next) = do
    (s', result) ← inject_message varint cfg s pb a
    run_session s' (next result)

  -- A call of a sandbox under a limit of messages.
  unfoldable pub run_limited : World → Plugin → ℕ → Session Sandbox → Run (World × Plugin × Code)
  unfolding run_session
  run_limited w p limit session = do
    (s, sandbox, code) ←
        run_session
          (record { disk = w.disk; output = w.output; throttle = w.throttle; im_limit = limit })
          session
    ok (
      record w { disk = s.disk; output = s.output; throttle = s.throttle },
      record p { sandbox = sandbox; im_limit = s.im_limit },
      code,
    )

  unfoldable pub process_message : World → Plugin → Message → Run (World × Plugin × Code)
  unfolding run_limited
  process_message w p msg = do
    (w', p', code) ← run_limited w p p.pm_im_limit (lib.pm_analysis p.sandbox msg p.pm_sample)
    ok (w', record p' { pm_delta_cnt = p.pm_delta_cnt + 1; pm_sample = false }, code)

  -- The matcher is timed in a pass that takes samples.
  unfoldable pub matcher_timed : Bool → ℕ → Plugin → Plugin
  matcher_timed sample i p =
      if sample
      then record p { mms = lib.update_running_stats p.mms (clock.elapsed i); pm_sample = true }
      else p

  -- The part of the loop that handles the message; `none` is the idle message.
  unfoldable pub receive : Bool → Option Message → ℕ → World → Plugin → Run (World × Plugin × Code)
  unfolding process_message matcher_timed
  receive sample none i w p = ok (w, if sample then record p { pm_sample = true } else p, completed)
  receive sample (some msg) i w p =
      if p.matcher msg
      then process_message w (matcher_timed sample i p) msg
      else ok (w, matcher_timed sample i p, completed)

  unfoldable pub timer_if_due : ℕ → World → Plugin → Code → Run (World × Plugin × Code)
  unfolding run_limited
  timer_if_due current_t w p code =
      if not (is_terminated code)
        && (not (p.ticker_interval == 0) && leb p.ticker_expires current_t)
      then (do
        (w', p', code') ← run_limited w p p.te_im_limit (lib.timer_event p.sandbox current_t false)
        ok (w', record p' { ticker_expires = current_t + p.ticker_interval }, code'))
      else ok (w, p, code)

  -- The body of the loop of `analyze_message`, up to the end of the sandbox, of which it tells.
  unfoldable pub analyze_plugin :
      Bool → Option Message → ℕ → ℕ → World → Plugin → Run (World × Plugin × Bool)
  unfolding receive timer_if_due
  analyze_plugin sample msg current_t i w p = do
    (w1, p1, ret) ← receive sample msg i w p
    (w2, p2, ret') ← timer_if_due current_t w1 p1 ret
    ok (
      w2,
      if sample then record p2 { stats = lib.stats_of p2.sandbox } else p2,
      is_terminated ret',
    )

  -- The body of the loop of `shutdown_timer_event`: any result but 0 ends the sandbox.
  unfoldable pub last_timer_event : ℕ → ℕ → World → Plugin → Run (World × Plugin × Bool)
  unfolding run_limited
  last_timer_event current_t i w p = do
    (w', p', code) ← run_limited w p p.te_im_limit (lib.timer_event p.sandbox current_t true)
    ok (w', p', not (is_completed code))

  -- What `terminate_sandbox` does outside of the list.
  unfoldable pub reported : ℕ → World → Plugin → World
  reported i w p = record w {
    disk = save_termination_err w.disk run_path p.name (clock.stamp i) (lib.error_of p.sandbox);
    sigterm = w.sigterm || p.shutdown_terminate;
  }

  -- `terminate_sandbox`
  unfoldable pub terminate_sandbox :
      World → AnalysisThread Plugin → ℕ → Plugin → World × AnalysisThread Plugin
  unfolding reported remove_plugin
  terminate_sandbox w at i p = (reported i w p, remove_plugin at i)

  unfoldable pub conclude :
      World → AnalysisThread Plugin → ℕ → Plugin → Bool → World × AnalysisThread Plugin
  unfolding terminate_sandbox
  conclude w at i p ends =
      let at' = record at { list = set at.list i (some p) } in
      if ends then terminate_sandbox w at' i p else (w, at')

  module _ (handle : ℕ → World → Plugin → Run (World × Plugin × Bool)) where
    unfoldable pub visit :
        World
        → AnalysisThread Plugin
        → ℕ
        → Option (Option Plugin)
        → Run (World × AnalysisThread Plugin)
    unfolding conclude
    visit w at i (some (some p)) = do (w', p', ends) ← handle i w p; ok (conclude w' at i p' ends)
    visit w at i _ = ok (w, at)

    -- The loop over the list, from a place on.
    unfoldable pub for_plugins :
        ℕ → ℕ → World → AnalysisThread Plugin → Run (World × AnalysisThread Plugin)
    unfolding visit
    for_plugins i zero w at = ok (w, at)
    for_plugins i (suc n) w at = do
      (w', at') ← visit w at i (get_elem? at.list i)
      for_plugins (i + 1) n w' at'

  -- `analyze_message`
  unfoldable pub analyze_message :
      Bool
      → Option Message
      → ℕ
      → World
      → AnalysisThread Plugin
      → Run (World × AnalysisThread Plugin)
  unfolding analyze_plugin for_plugins
  analyze_message sample msg current_t w at =
      for_plugins (analyze_plugin sample msg current_t) 0 (length at.list) w at

  -- `shutdown_timer_event`
  unfoldable pub shutdown_timer_event :
      ℕ → World → AnalysisThread Plugin → Run (World × AnalysisThread Plugin)
  unfolding last_timer_event for_plugins
  shutdown_timer_event current_t w at =
      for_plugins (last_timer_event current_t) 0 (length at.list) w at
