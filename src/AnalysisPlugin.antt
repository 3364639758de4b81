-- ===== src/AnalysisPlugin.antt =====
-- src/hs_analysis_plugins.c: the messages that the sandbox of an analysis plugin injects, which are
-- limited for each call of it.
pub mod Analyze
pub mod Limit
pub mod Placement
pub mod Loading
pub mod Startup
pub mod Thread
pub mod Threads
use hindsight.Base.{ℕ, zero, suc, ◌≡◌, Option, none, some, List, [], ◌∷◌}
use hindsight.Base.Run.{Run, ok, ◌>>=◌}
use hindsight.CString.{Bytes}
use hindsight.Disk.{Disk}
use hindsight.Output.{Output}
use hindsight.Inject.{QueueConfig, Throttle, Answers, write_message}

-- `LSB_HEKA_IM_SUCCESS` and `LSB_HEKA_IM_LIMIT`
pub data ImResult : Type 0 where
  im_success : ImResult
  im_limit_reached : ImResult

-- The queue with the limit that is left.
pub record Injecting : Type 0 where
  pub disk : Disk
  pub output : Output
  pub throttle : Throttle
  pub im_limit : ℕ  -- unsigned

module _ (varint : ℕ → Bytes) (cfg : QueueConfig) where
  unfoldable pub within_limit : ℕ → Injecting → Bytes → Answers → Run (Injecting × ImResult)
  within_limit zero s pb a = ok (s, im_limit_reached)
  within_limit (suc left) s pb a = do
    (d, o, th) ← write_message varint cfg s.disk s.output s.throttle pb a
    ok (record { disk = d; output = o; throttle = th; im_limit = left }, im_success)

  -- `inject_message`
  unfoldable pub inject_message : Injecting → Bytes → Answers → Run (Injecting × ImResult)
  unfolding within_limit
  inject_message s pb a = within_limit s.im_limit s pb a

  -- The calls that one sandbox makes one after another, with their results.
  unfoldable pub inject_all : Injecting → List (Bytes × Answers) → Run (Injecting × List ImResult)
  unfolding inject_message
  inject_all s [] = ok (s, [])
  inject_all s ((pb, a) ∷ rest) = do
    (s', r) ← inject_message s pb a
    (s'', rs) ← inject_all s' rest
    ok (s'', r ∷ rs)
