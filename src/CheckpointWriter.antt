-- ===== src/CheckpointWriter.antt =====
-- src/hs_checkpoint_writer.c: what one call of hs_write_checkpoints does with the checkpoints. Its
-- statistics are left aside.
pub mod Least
pub mod Percentage
pub mod File
use hindsight.Base.{
  ℕ, zero, suc, ◌+◌, ◌*◌, ◌/◌, ◌%◌, ◌≡◌, Bool, true, false, not, ◌&&◌, ◌||◌, Option, none, some,
  List, [], ◌∷◌, arith, leb, ltb, ◌==◌, if◌then◌else◌,
}
use hindsight.Base.Run.{Run, ok, exit_failure, ◌>>=◌}
use hindsight.CString.{Bytes, ullong_max}
use hindsight.Disk.{Disk, put, append, rename}
use hindsight.Util.{input_dir, analysis_dir}
use hindsight.Checkpoint.{Checkpoint}
use hindsight.Output.{Output}
use hindsight.OutputPlugin.{OutputPlugin}
use hindsight.IpCheckpoint.{IpCheckpoint, store_checkpoint}
use hindsight.CheckpointReader.{Table, update_input_checkpoint, output_checkpoints}

-- `round_percentage`, of numbers that are not negative and whose quotient an `int` holds
unfoldable pub round_percentage : ℕ → ℕ → ℕ
round_percentage n d =
    let tenths = n * 1000 / d in
    let p = tenths / 10 in
    let r = tenths % 10 in
    if d == 0 then 0 else if ltb 5 r || (r == 5 && not (p % 2 == 0)) then p + 1 else p

-- The least file numbers of `checkpoint_info`.
pub record LeastIds : Type 0 where
  pub min_input_id : ℕ  -- unsigned long long
  pub min_analysis_id : ℕ  -- unsigned long long

abbrev pub lesser : ℕ → ℕ → ℕ
lesser id min = if ltb id min then id else min

-- The checkpoints of a thread's reader, by the name of the reader.
abbrev pub Thread : Type 0
Thread = Bytes × Checkpoint

-- A place in the list of output plugins, which may be empty.
abbrev pub Slot : Type 0
Slot = Option (Bytes × OutputPlugin)

abbrev pub reads_input : OutputPlugin → Bool
reads_input p = leb b'b' p.read_queue

abbrev pub reads_analysis : OutputPlugin → Bool
reads_analysis p = leb p.read_queue b'b'

-- `analysis_stats`: the least number over the threads
unfoldable pub least_thread : LeastIds → List Thread → LeastIds
least_thread m [] = m
least_thread m ((_, cp) ∷ rest) =
    least_thread (record m { min_input_id = lesser cp.id m.min_input_id }) rest

-- `output_stats`: the least numbers over the plugins, of the places that they have read
unfoldable pub least_slot : LeastIds → List Slot → LeastIds
least_slot m [] = m
least_slot m (none ∷ rest) = least_slot m rest
least_slot m (some (_, p) ∷ rest) =
    least_slot
      (record {
        min_input_id =
            if reads_input p then lesser p.cur.input.id m.min_input_id else m.min_input_id;
        min_analysis_id =
            if reads_analysis p
            then lesser p.cur.analysis.id m.min_analysis_id
            else m.min_analysis_id;
      })
      rest

-- The two numbers that `hs_write_checkpoints` finds.
unfoldable pub least_ids : List Thread → List Slot → LeastIds
unfolding least_thread least_slot
least_ids threads slots =
    least_slot
      (least_thread (record { min_input_id = ullong_max; min_analysis_id = ullong_max }) threads)
      slots

-- `print` is how Lua prints a number, in the checkpoints of readers.
module _ {Number : Type 0} (print : ℕ → Bytes) where
  -- `input_stats`: the checkpoints of the input plugins; `none` where one reads past its buffer
  unfoldable pub store_inputs :
      Table Number → List (Option (Bytes × IpCheckpoint Number)) → Option (Table Number)
  unfolding store_checkpoint
  store_inputs t [] = some t
  store_inputs t (none ∷ rest) = store_inputs t rest
  store_inputs t (some (name, cp) ∷ rest) = elim (store_checkpoint t name cp) [
    | none ↦ none
    | some t' ↦ store_inputs t' rest
  ]

  -- `analysis_stats`: the checkpoint of each thread's reader, and that of the queue
  unfoldable pub store_threads : Checkpoint → Table Number → List Thread → Table Number
  unfolding update_input_checkpoint
  store_threads queue t [] = t
  store_threads queue t ((name, cp) ∷ rest) =
      store_threads queue
        (update_input_checkpoint print (update_input_checkpoint print t input_dir (some name) cp)
          analysis_dir none queue)
        rest

  -- `output_stats`: the checkpoints of one plugin
  unfoldable pub store_plugin : Table Number → Bytes → OutputPlugin → Table Number
  unfolding update_input_checkpoint
  store_plugin t name p =
      let t' =
        if reads_input p
        then update_input_checkpoint print t input_dir (some name) p.cp.input
        else t in
      if reads_analysis p
      then update_input_checkpoint print t' analysis_dir (some name) p.cp.analysis
      else t'

  unfoldable pub store_slots : Table Number → List Slot → Table Number
  unfolding store_plugin
  store_slots t [] = t
  store_slots t (none ∷ rest) = store_slots t rest
  store_slots t (some (name, p) ∷ rest) = store_slots (store_plugin t name p) rest

-- What the end of a round does with files, one call of the system at a time. `close` fails where a write
-- before it, or the close itself, has failed.
pub data FileStep : Type 0 where
  open_new : Bytes → FileStep
  put_byte : Bytes → ℕ → FileStep
  close : Bool → FileStep
  move : Bytes → Bytes → FileStep

unfoldable pub run_step : Disk → FileStep → Run Disk
unfolding append rename
run_step d (open_new fn) = if d.refuses fn then exit_failure else ok (put d fn (some []))
run_step d (put_byte fn b) = ok (append d fn (b ∷ []))
run_step d (close written) = if written then ok d else exit_failure
run_step d (move a b) = ok (rename d a b).0

unfoldable pub run_steps : Disk → List FileStep → Run Disk
unfolding run_step
run_steps d [] = ok d
run_steps d (s ∷ rest) = do d' ← run_step d s; run_steps d' rest

-- `hs_output_checkpoints` to the file, byte by byte.
unfoldable pub put_text : Bytes → Bytes → List FileStep → List FileStep
put_text fn [] next = next
put_text fn (b ∷ text) next = put_byte fn b ∷ put_text fn text next

-- The file is written under another name and then takes its own; `written` tells whether the writes
-- succeed.
unfoldable pub replace_steps : Bytes → Bytes → Bytes → Bool → List FileStep
unfolding put_text
replace_steps tmp path text written =
    open_new tmp ∷ put_text tmp text (close written ∷ move tmp path ∷ [])

unfoldable pub replace_file : Disk → Bytes → Bytes → Bytes → Bool → Run Disk
unfolding run_steps replace_steps
replace_file d tmp path text written = run_steps d (replace_steps tmp path text written)
