-- ===== src/OutputPlugin/Start.antt =====
-- src/hs_output_plugins.c: an output plugin that is created and added to the list, up to the start of
-- its thread.
pub mod Resume
use mathlib.Core.Path.{subst}
use hindsight.Base.{
  ℕ, zero, suc, ◌+◌, ◌≤◌, ◌<◌, ◌≡◌, ◌⊎◌, inl, inr, refl, sym, ap, ◌∙◌, Bool, true, false, Option,
  none, some, List, [], ◌∷◌, ◌++◌, arith, leb, ltb, ◌==◌, if◌then◌else◌, get_elem?, length,
}
use hindsight.Base.Run.{Run, ok, exit_failure, ◌>>=◌, >>=-eq-ok, ok-injective}
use hindsight.CString.{Bytes, codes}
use hindsight.Disk.{Disk}
use hindsight.Util.{input_dir, analysis_dir}
use hindsight.Checkpoint.{Checkpoint, CheckpointPair}
use hindsight.CheckpointReader.{Table, key_of, clear, lookup_input_checkpoint}
use hindsight.OutputPlugin.{OutputPlugin}
use hindsight.OutputPlugin.Advance.{Precedes, Precedes-refl, IsBehind}

abbrev pub origin : Checkpoint
origin = record { id = 0; offset = 0 }

abbrev pub origins : CheckpointPair
origins = record { input = origin; analysis = origin }

-- `calloc` of the ring
unfoldable pub empty_ring : ℕ → List CheckpointPair
empty_ring zero = []
empty_ring (suc n) = origins ∷ empty_ring n

-- The fields of `hs_sandbox_config` that the plugin takes.
pub record SandboxConfig : Type 0 where
  pub async_buffer_size : ℕ
  pub read_queue : ℕ
  pub ticker_interval : ℕ
  pub rm_cp_terminate : Bool
  pub shutdown_terminate : Bool

-- `create_output_plugin`, where nothing fails; `expires` is the first time of its timer event
unfoldable pub create_output_plugin : SandboxConfig → ℕ → OutputPlugin
unfolding empty_ring
create_output_plugin sbc expires = record {
  sequence_id = 0;
  ack_sequence_id = 0;
  batching = false;
  async_cp = empty_ring sbc.async_buffer_size;
  cp = origins;
  cur = origins;
  read_queue = sbc.read_queue;
  ticker_interval = sbc.ticker_interval;
  ticker_expires = if sbc.ticker_interval == 0 then 0 else expires;
  mm_delta_cnt = 0;
  pm_delta_cnt = 0;
  stop = false;
  sample = false;
  pm_sample = true;
  rm_cp_terminate = sbc.rm_cp_terminate;
  shutdown_terminate = sbc.shutdown_terminate;
}

abbrev pub at_place : Checkpoint → Checkpoint → OutputPlugin → OutputPlugin
at_place input analysis p =
    let both : CheckpointPair = record { input = input; analysis = analysis } in
    record p { cp = both; cur = both }

module _ {Number : Type 0} where
  -- `remove_checkpoint_q`, where the keys fit their buffer
  unfoldable pub remove_checkpoint_q : Table Number → Bytes → ℕ → Table Number
  unfolding clear
  remove_checkpoint_q t plugin_name q =
      let t' = if leb b'b' q then clear (key_of input_dir (some plugin_name)) t else t in
      if leb q b'b' then clear (key_of analysis_dir (some plugin_name)) t' else t'

  -- The checkpoint of one queue: looked up if the plugin reads it, else removed.
  unfoldable pub sync_queue :
      Disk
      → Table Number
      → Bytes
      → Bytes
      → Option Bytes
      → ℕ
      → Bool
      → Run (Table Number × Checkpoint)
  unfolding remove_checkpoint_q
  sync_queue d t subdir name path q reads =
      if reads
      then (do found ← lookup_input_checkpoint d t subdir (some name) path origin; ok (t, found))
      else ok (remove_checkpoint_q t name q, origin)

  -- What `add_to_output_plugins` does with the checkpoints of a new plugin; `path` is null for one
  -- that is loaded while the program runs.
  unfoldable pub sync_checkpoints :
      Disk → Table Number → Bytes → Option Bytes → OutputPlugin → Run (Table Number × OutputPlugin)
  sync_checkpoints d t name path p = do
    (t1, input) ← sync_queue d t input_dir name path b'i' (leb b'b' p.read_queue)
    (t2, analysis) ← sync_queue d t1 analysis_dir name path b'a' (leb p.read_queue b'b')
    ok (t2, at_place input analysis p)
