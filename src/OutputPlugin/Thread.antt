-- ===== src/OutputPlugin/Thread.antt =====
-- src/hs_output_plugins.c: `input_thread` (without HINDSIGHT_CLI), which reads the two queues and gives
-- the older message to the plugin.
pub mod Ending
pub mod Sending
pub mod Side
pub mod Resume
pub mod Termination
use hindsight.Base.{
  ℕ, ◌+◌, Bool, true, false, not, ◌&&◌, ◌||◌, Option, none, some, List, [], ◌∷◌, ltb, leb, ◌==◌,
  if◌then◌else◌,
}
use hindsight.Base.Run.{Run, ok, ◌>>=◌}
use hindsight.Disk.{Disk}
use hindsight.Checkpoint.{Checkpoint}
use hindsight.CheckpointReader.{Table, lookup_input_checkpoint}
use hindsight.CheckpointWriter.{reads_input, reads_analysis}
use hindsight.Input.{Handle, open_file}
use hindsight.QueueReader.{Message, Framing, Queue, Reader, once_a_second, follow, scanned}
use hindsight.OutputPlugin.{
  OutputPlugin, PmResult, sent, retry, Answers, is_fatal, is_retry, output_message,
}

-- The plugin with its two readers; `found` of a reader is `pim` or `pam`.
pub record OutputThread : Type 0 where
  pub plugin : OutputPlugin
  pub input : Reader
  pub analysis : Reader

-- What another thread has changed when `input_thread` looks at the plugin: `stop` and `sample`.
unfoldable pub changed : Bool → Bool → OutputPlugin → OutputPlugin
changed stop sample p = record p { stop = p.stop || stop; sample = p.sample || sample }

-- One more try to send a message, a second later: the time, what the sandbox answers, and whether the
-- plugin was stopped meanwhile.
pub record Attempt : Type 0 where
  pub current_t : ℕ
  pub answers : Answers
  pub stop : Bool

-- What one turn of the loop meets: the files, how many bytes a read gets at most, the time, what
-- others have set in the plugin, what the sandbox answers, and the tries that may follow.
pub record Turn : Type 0 where
  pub disk : Disk
  pub most_input : ℕ
  pub most_analysis : ℕ
  pub current_t : ℕ
  pub stop : Bool
  pub sample : Bool
  pub answers : Answers
  pub attempts : List Attempt

-- The loop that follows a retry, where `stop` is not set: the plugin, the last result and `stop`.
-- There is no result as long as the loop goes on.
unfoldable pub try_again : OutputPlugin → List Attempt → Option (OutputPlugin × PmResult × Bool)
try_again p [] = none
try_again p (x ∷ rest) =
    let (q, r) = output_message p true false x.current_t x.answers in
    let q' = changed x.stop false q in
    let more = try_again q' rest in
    if is_retry r then (if q'.stop then some (q', r, true) else more) else some (q, r, false)

-- `output_message`, and again while the result is a retry and the plugin is not to stop.
unfoldable pub send :
    OutputPlugin
    → Bool
    → Bool
    → ℕ
    → Answers
    → List Attempt
    → Option (OutputPlugin × PmResult × Bool)
unfolding try_again
send p stop sample current_t a attempts =
    let (q, r) = output_message p true sample current_t a in
    if is_retry r && not stop then try_again q attempts else some (q, r, stop)

-- The older of the two messages that were found, where the first is that of the input queue.
pub data Choice : Type 0 where
  from_input from_analysis nothing : Choice

unfoldable pub oldest : Option Message → Option Message → Choice
oldest none none = nothing
oldest none (some am) = from_analysis
oldest (some im) none = from_input
oldest (some im) (some am) = if leb im.timestamp am.timestamp then from_input else from_analysis

-- The message is taken: the plugin has read its queue up to the end of the message.
unfoldable pub take_input : OutputThread → OutputThread
unfolding scanned
take_input t = record {
  plugin = record t.plugin {
    cur = record t.plugin.cur { input = scanned t.input };
    mm_delta_cnt = t.plugin.mm_delta_cnt + 1;
  };
  input = record t.input { found = none };
  analysis = t.analysis;
}

unfoldable pub take_analysis : OutputThread → OutputThread
unfolding scanned
take_analysis t = record {
  plugin = record t.plugin {
    cur = record t.plugin.cur { analysis = scanned t.analysis };
    mm_delta_cnt = t.plugin.mm_delta_cnt + 1;
  };
  input = t.input;
  analysis = record t.analysis { found = none };
}

-- After a turn: the thread, whether its loop was left on a fatal error, and `stop`.
pub record Turned : Type 0 where
  pub thread : OutputThread
  pub failed : Bool
  pub stop : Bool

-- The loop goes on unless it is left, or `stop` is set.
abbrev unless_ended : (OutputThread → Run (Option Turned)) → Option Turned → Run (Option Turned)
unless_ended more none = ok none
unless_ended more (some e) = if e.failed || e.stop then ok (some e) else more e.thread

abbrev after_send : OutputThread → Option (OutputPlugin × PmResult × Bool) → Option Turned
after_send t none = none
after_send t (some (p, r, stop)) =
    some (record { thread = record t { plugin = p }; failed = is_fatal r; stop = stop })

-- The second half of a turn: the oldest message is sent, or, if nothing was read, the idle message,
-- whose result is not looked at.
unfoldable pub send_oldest : Turn → Bool → Bool → OutputThread → Choice → Option Turned
unfolding send take_input take_analysis
send_oldest x stop sample t from_input =
    let t' = take_input t in
    after_send t' (send t'.plugin stop sample x.current_t x.answers x.attempts)
send_oldest x stop sample t from_analysis =
    let t' = take_analysis t in
    after_send t' (send t'.plugin stop sample x.current_t x.answers x.attempts)
send_oldest x stop sample t nothing =
    let (p, _) = output_message t.plugin false sample x.current_t x.answers in
    some (record {
      thread =
          if t.input.bytes_read == 0 && t.analysis.bytes_read == 0
          then record t { plugin = p }
          else t;
      failed = false;
      stop = stop;
    })

unfoldable pub restart_input : Option Checkpoint → OutputPlugin → OutputPlugin
restart_input none p = p
restart_input (some cp) p = record p {
  cp = record p.cp { input = cp };
  cur = record p.cur { input = cp };
}

unfoldable pub restart_analysis : Option Checkpoint → OutputPlugin → OutputPlugin
restart_analysis none p = p
restart_analysis (some cp) p = record p {
  cp = record p.cp { analysis = cp };
  cur = record p.cur { analysis = cp };
}

abbrev at_place : Option Checkpoint → Reader → Reader
at_place none r = r
at_place (some cp) r = record r { input = record r.input { cp = cp }; wait_cnt = 0 }

module _ {Number : Type 0} (fr : Framing) (table : Table Number) where
  -- After sixty tries for the first file: the checkpoint of the queue, or its first file.
  unfoldable pub restart_place : Disk → Queue → Reader → Run (Option Checkpoint)
  restart_place d q r =
      if ltb 60 r.wait_cnt
      then (do
        cp ← lookup_input_checkpoint d table q.subdir none (some q.path) r.input.cp
        ok (some cp))
      else ok none

  -- "still waiting on the first file", and the place to start from if that was reset
  unfoldable pub wait_first : Disk → Queue → ℕ → Reader → Run (Reader × Option Checkpoint)
  unfolding restart_place
  wait_first d q current_t r = if r.timer == current_t then ok (r, none) else (do
    place ← restart_place d q (record r { timer = current_t; wait_cnt = r.wait_cnt + 1 })
    let r1 = at_place place (record r { timer = current_t; wait_cnt = r.wait_cnt + 1 })
    (input, next) ← open_file d r1.input q.subdir r1.input.cp.id
    ok (
      record r1 { input = input; next = next; wait_cnt = if next then 0 else r1.wait_cnt },
      place,
    ))

  -- What a turn does for one queue; nothing, as long as a message of it is held back.
  unfoldable pub follow_queue :
      Disk
      → Queue
      → ℕ
      → ℕ
      → Reader
      → Option Handle
      → Option Message
      → Run (Reader × Option Checkpoint)
  unfolding wait_first
  follow_queue d q current_t most r (some fh) (some msg) = ok (r, none)
  follow_queue d q current_t most r (some fh) none = do
    r' ← follow fr d q (once_a_second current_t) most r fh
    ok (r', none)
  follow_queue d q current_t most r none _ = wait_first d q current_t r

  module _ (q_input q_analysis : Queue) where
    unfoldable pub read_input : Turn → OutputThread → Run OutputThread
    unfolding follow_queue restart_input
    read_input x t =
        if reads_input t.plugin
        then (do
          (r, place) ←
              follow_queue x.disk q_input x.current_t x.most_input t.input t.input.input.fh
                t.input.found
          ok (record t { plugin = restart_input place t.plugin; input = r }))
        else ok t

    unfoldable pub read_analysis : Turn → OutputThread → Run OutputThread
    unfolding follow_queue restart_analysis
    read_analysis x t =
        if reads_analysis t.plugin
        then (do
          (r, place) ←
              follow_queue x.disk q_analysis x.current_t x.most_analysis t.analysis
                t.analysis.input.fh t.analysis.found
          ok (record t { plugin = restart_analysis place t.plugin; analysis = r }))
        else ok t

    -- One turn of the loop; no result if it still tries to send its message.
    unfoldable pub turn : Turn → OutputThread → Run (Option Turned)
    unfolding changed read_input read_analysis send_oldest oldest
    turn x t = do
      let p = changed x.stop x.sample t.plugin
      t1 ← read_input x (record t { plugin = p })
      t2 ← read_analysis x t1
      ok (send_oldest x p.stop p.sample t2 (oldest t2.input.found t2.analysis.found))

    -- The loop: what it ends with, if it ends within the turns that are given.
    unfoldable pub turns : List Turn → OutputThread → Run (Option Turned)
    unfolding turn
    turns [] t = ok none
    turns (x ∷ rest) t = do
      result ← turn x t
      unless_ended (λ (t' : OutputThread). turns rest t') result
