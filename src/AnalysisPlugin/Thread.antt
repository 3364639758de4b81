-- ===== src/AnalysisPlugin/Thread.antt =====
-- src/hs_analysis_plugins.c: a round of `input_thread` (without HINDSIGHT_CLI).
pub mod Resume
use hindsight.Base.{ℕ, ◌+◌, Bool, true, false, Option, none, some, ltb, ◌==◌, if◌then◌else◌, length}
use hindsight.Base.Run.{Run, ok, ◌>>=◌}
use hindsight.CString.{Bytes}
use hindsight.Util.{input_dir}
use hindsight.Checkpoint.{Checkpoint}
use hindsight.CheckpointReader.{Table, lookup_input_checkpoint}
use hindsight.Inject.{QueueConfig, sub64}
use hindsight.Input.{Handle, Input, open_file}
use hindsight.Input.Place.{unread}
use hindsight.QueueReader.{Message, Framing, Queue, Reader, every_round, follow, scanned}
use hindsight.AnalysisPlugin.Threads.{AnalysisThread}
use hindsight.AnalysisPlugin.Analyze.{Library, World, Clock, AnalysisPlugin, analyze_message}

-- `hs_analysis_thread`, with the variables of `input_thread`. `cp` and `sample` are those that the
-- writer of the checkpoints also uses.
pub record ThreadState (Sandbox Stats Running : Type 0) : Type 0 where
  pub reader : Reader
  pub world : World
  pub plugins : AnalysisThread (AnalysisPlugin Sandbox Stats Running)
  pub cp : Checkpoint
  pub mm_delta_cnt : ℕ
  pub sample : Bool

-- The checkpoint after a message was analyzed.
abbrev pub cp_after : Option Message → Reader → Checkpoint → Checkpoint
cp_after none r cp = cp
cp_after (some _) r cp = scanned r

module _ {Sandbox Stats Running Number : Type 0} (varint : ℕ → Bytes) (cfg : QueueConfig)
    (run_path : Bytes) (lib : Library Sandbox Stats Running) (clock : Clock) (fr : Framing)
    (q : Queue) (table : Table Number) where
  abbrev State : Type 0
  State = ThreadState Sandbox Stats Running

  -- A message, or the idle message, goes to the plugins; a sample was taken if one was asked for.
  unfoldable pub give : Option Message → ℕ → State → Run State
  give msg current_t t = do
    (w, at) ← analyze_message varint cfg run_path lib clock t.sample msg current_t t.world t.plugins
    ok (record t { world = w; plugins = at; sample = false })

  -- The checkpoint goes to the end of the message.
  unfoldable pub advance_checkpoint : State → State
  unfolding scanned
  advance_checkpoint t = record t { mm_delta_cnt = t.mm_delta_cnt + 1; cp = scanned t.reader }

  -- What a round does with what was found or read. Afterwards `at->msg` is null.
  unfoldable pub handle_found : Option Message → ℕ → State → Run State
  unfolding give advance_checkpoint
  handle_found (some msg) current_t t = do
    t' ← give (some msg) current_t t
    ok (advance_checkpoint (record t' { reader = record t'.reader { found = none } }))
  handle_found none current_t t = if t.reader.bytes_read == 0 then give none current_t t else ok t

  -- While the first file is not there: after sixty tries the checkpoint is that of the queue, or of its
  -- first file.
  unfoldable pub reset : State → Run State
  reset t =
      if ltb 60 t.reader.wait_cnt
      then (do
        cp ←
            lookup_input_checkpoint t.world.disk table input_dir none (some q.path)
              t.reader.input.cp
        ok (record t {
          reader = record t.reader { input = record t.reader.input { cp = cp }; wait_cnt = 0 };
          cp = cp;
        }))
      else ok t

  unfoldable pub try_first : State → Run State
  try_first t = do
    (input, next) ← open_file t.world.disk t.reader.input input_dir t.reader.input.cp.id
    ok (record t {
      reader = record t.reader {
        input = input;
        next = next;
        wait_cnt = if next then 0 else t.reader.wait_cnt;
      };
    })

  -- The two branches of a round, by whether a file is open; `most` bytes at most are read.
  unfoldable pub read_or_wait : ℕ → State → Option Handle → Run State
  unfolding reset try_first
  read_or_wait most t (some fh) = do
    r ← follow fr t.world.disk q every_round most t.reader fh
    ok (record t { reader = r })
  read_or_wait most t none = do
    t' ← reset (record t { reader = record t.reader { wait_cnt = t.reader.wait_cnt + 1 } })
    try_first t'

  -- A round of `input_thread`
  unfoldable pub round : ℕ → ℕ → State → Run State
  unfolding read_or_wait handle_found
  round most current_t t = do
    t' ← read_or_wait most t t.reader.input.fh
    handle_found t'.reader.found current_t t'
