-- ===== src/OutputPlugin.antt =====
-- src/hs_output_plugins.c: an output plugin, and how it moves its checkpoints.
pub mod Start
pub mod PluginList
pub mod Ring
pub mod Advance
pub mod Hold
pub mod Thread
pub mod Loading
use hindsight.Base.{
  ℕ, zero, suc, ◌+◌, ◌-◌, ◌%◌, ◌^◌, ◌≡◌, Bool, true, false, not, ◌&&◌, ◌||◌, Option, none, some,
  List, [], ◌∷◌, ◌++◌, arith, ltb, leb, ◌==◌, if◌then◌else◌, length, get_elem?, set,
}
use hindsight.CString.{Bytes}
use hindsight.Base.Run.{Run}
use hindsight.Disk.{Disk}
use hindsight.Output.{Output}
use hindsight.Inject.{add64, QueueConfig, Throttle, Answers as WriteAnswers, write_message}
use hindsight.Checkpoint.{Checkpoint, CheckpointPair}

-- `hs_output_plugin`, without the sandbox, the matcher, the readers and the thread. `async_cp` holds
-- `async_len` pairs; it is empty where the source has a null pointer and the length 0.
pub record OutputPlugin : Type 0 where
  pub sequence_id : ℕ  -- uintptr_t
  pub ack_sequence_id : ℕ  -- uintptr_t
  pub batching : Bool
  pub async_cp : List CheckpointPair
  pub cp : CheckpointPair
  pub cur : CheckpointPair
  pub read_queue : ℕ
  pub ticker_interval : ℕ
  pub ticker_expires : ℕ
  pub mm_delta_cnt : ℕ
  pub pm_delta_cnt : ℕ
  pub stop : Bool
  pub sample : Bool
  pub pm_sample : Bool
  pub rm_cp_terminate : Bool
  pub shutdown_terminate : Bool

-- `inject_message`, of `varint` as in Inject; it always reports success
unfoldable pub inject_message :
    (ℕ → Bytes)
    → QueueConfig
    → Disk
    → Output
    → Throttle
    → Bytes
    → WriteAnswers
    → Run (Disk × Output × Throttle)
unfolding write_message
inject_message varint cfg d o th pb a = write_message varint cfg d o th pb a

abbrev pub async_len : OutputPlugin → ℕ
async_len p = length p.async_cp

-- `update_checkpoint`
unfoldable pub update_checkpoint : OutputPlugin → OutputPlugin
update_checkpoint p = record p { cp = p.cur }

-- `a` if it is further on in the queue than `c`, else `c`
unfoldable pub later : Checkpoint → Checkpoint → Checkpoint
later a c = if (a.id == c.id && ltb c.offset a.offset) || ltb c.id a.id then a else c

-- the same in both queues; nothing is noted at an index that is out of range
unfoldable pub later_pair : Option CheckpointPair → CheckpointPair → CheckpointPair
later_pair none c = c
later_pair (some a) c = record {
  input = later a.input c.input;
  analysis = later a.analysis c.analysis;
}

-- `update_checkpoint_callback`, which the sandbox calls with the number of a message that has been
-- delivered, or 0 after a batch.
unfoldable pub update_checkpoint_callback : ℕ → OutputPlugin → OutputPlugin
unfolding update_checkpoint
update_checkpoint_callback sequence_id p =
    if not (sequence_id == 0) && not (async_len p == 0)
    then record p {
      ack_sequence_id =
          if ltb p.ack_sequence_id sequence_id || ltb p.sequence_id p.ack_sequence_id
          then sequence_id
          else p.ack_sequence_id;
      cp = later_pair (get_elem? p.async_cp (sequence_id % async_len p)) p.cp;
    }
    else if p.batching
    then record (update_checkpoint p) { batching = false }
    else p

-- What a sandbox returns for a message: `fatal` stands for a positive result, `other` for one of
-- `LSB_HEKA_PM_SKIP` and further values below 0.
pub data PmResult : Type 0 where
  sent batch async fail retry other fatal : PmResult

-- What the sandbox and the matcher answer during one call: whether the message matches and how long
-- that took, the calls of `update_checkpoint_callback` and the result of processing the message, and
-- those of the timer event, where a positive result is fatal.
pub record Answers : Type 0 where
  pub matched : Bool
  pub pm_acks : List ℕ
  pub pm_result : PmResult
  pub te_acks : List ℕ
  pub te_fatal : Bool

unfoldable pub callbacks : List ℕ → OutputPlugin → OutputPlugin
callbacks [] p = p
callbacks (s ∷ rest) p = callbacks rest (update_checkpoint_callback s p)

abbrev pub is_fatal : PmResult → Bool
is_fatal fatal = true
is_fatal _ = false

abbrev pub is_retry : PmResult → Bool
is_retry retry = true
is_retry _ = false

-- The place of the message, noted in the ring before the sandbox gets it.
unfoldable pub note_place : OutputPlugin → OutputPlugin
note_place p =
    if async_len p == 0
    then p
    else record p { async_cp = set p.async_cp (add64 p.sequence_id 1 % async_len p) p.cur }

-- What follows from the sandbox's result. An asynchronous one without a ring is fatal.
abbrev settle : PmResult → OutputPlugin → OutputPlugin × PmResult
settle sent p = (record p { batching = false }, sent)
settle batch p = (record p { batching = true }, batch)
settle async p = (p, if async_len p == 0 then fatal else async)
settle r p = (p, r)

-- `++pm_delta_cnt; ++sequence_id`, for a result of at most 0 that is no retry
abbrev count_message : PmResult → OutputPlugin × PmResult → OutputPlugin × PmResult
count_message fatal (p, r) = (p, r)
count_message retry (p, r) = (p, r)
count_message _ (p, r) =
    (record p { sequence_id = add64 p.sequence_id 1; pm_delta_cnt = p.pm_delta_cnt + 1 }, r)

-- A message that matches, given to the sandbox.
unfoldable pub process : OutputPlugin → Answers → OutputPlugin × PmResult
process p a =
    count_message a.pm_result
      (settle a.pm_result (record (callbacks a.pm_acks (note_place p)) { pm_sample = false }))

-- Asynchronous messages are still without their acknowledgement.
abbrev pub pending : OutputPlugin → Bool
pending p = not (async_len p == 0) && not (p.sequence_id == p.ack_sequence_id)

-- "advance the checkpoint if not fatal/batching/pending asyc/retrying"
unfoldable pub advance : OutputPlugin × PmResult → OutputPlugin × PmResult
advance (p, r) =
    if not (is_fatal r) && not p.batching && not (pending p) && not (is_retry r)
    then (update_checkpoint p, r)
    else (p, r)

-- A message is there: match, process, advance. The result of one that does not match is 0.
unfoldable pub handle : OutputPlugin → Bool → Answers → OutputPlugin × PmResult
handle p sampled a =
    let p' = record p { pm_sample = p.pm_sample || sampled } in
    advance (if a.matched then process p' a else (p', sent))

-- The timer event, at most once every `ticker_interval` seconds; whether it was fatal.
unfoldable pub tick : OutputPlugin × PmResult → ℕ → Answers → OutputPlugin × Bool
tick (p, r) current_t a =
    if not (is_fatal r) && not (p.ticker_interval == 0) && leb p.ticker_expires current_t
    then (
      record (callbacks a.te_acks p) { ticker_expires = current_t + p.ticker_interval },
      a.te_fatal,
    )
    else (p, false)

-- `output_message`; `message` is false for an idle message, and the result is that of the function.
unfoldable pub output_message : OutputPlugin → Bool → Bool → ℕ → Answers → OutputPlugin × PmResult
output_message p message sampled current_t a =
    let (p1, r) = if message then handle p sampled a else (p, sent) in
    let (p2, te_fatal) = tick (p1, r) current_t a in
    let p3 = if sampled then record p2 { sample = false } else p2 in
    (p3, if te_fatal then fatal else r)
