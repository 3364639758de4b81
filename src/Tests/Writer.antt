-- ===== src/Tests/Writer.antt =====
-- A round of the writer of the checkpoints.
use hindsight.Base.{ℕ, ◌≤◌, ◌≡◌, ◌⊎◌, refl, false, some, none, List, [], ◌∷◌, All, if◌then◌else◌}
use hindsight.CString.{codes, str_eq, ullong_max}
use hindsight.Disk.{Disk}
use hindsight.Checkpoint.{CheckpointPair}
use hindsight.OutputPlugin.{OutputPlugin}
use hindsight.CheckpointWriter.{Thread, Slot, least_ids, least_thread, least_slot, round_percentage}
use hindsight.CheckpointWriter.Least.{SlotAbove}
use hindsight.CheckpointWriter.Least.Slowest.{
  IsThreadFile, IsInputFile, IsAnalysisFile, least_ids-slowest,
}

-- 0.5 and 1.5 percent
half_to_even : (round_percentage 5 1000 ≡ 0) × (round_percentage 15 1000 ≡ 2)
unfolding round_percentage
half_to_even = (refl, refl)

abbrev at : ℕ → CheckpointPair
at n = record { input = record { id = n; offset = 9 }; analysis = record { id = 2; offset = 0 } }

abbrev plugin : OutputPlugin
plugin = record {
  sequence_id = 0;
  ack_sequence_id = 0;
  batching = false;
  async_cp = [];
  cp = at 3;
  cur = at 4;
  read_queue = b'b';
  ticker_interval = 0;
  ticker_expires = 0;
  mm_delta_cnt = 0;
  pm_delta_cnt = 0;
  stop = false;
  sample = false;
  pm_sample = false;
  rm_cp_terminate = false;
  shutdown_terminate = false;
}

abbrev threads : List Thread
threads = (codes "analysis0", record { id = 6; offset = 1 }) ∷ []

abbrev slots : List Slot
slots = none ∷ some (codes "output.a", plugin) ∷ []

least_values : least_ids threads slots ≡ record { min_input_id = 4; min_analysis_id = 2 }
unfolding least_ids least_thread least_slot
least_values = refl

least_ids-slowest_example :
    All (λ (t : Thread). (least_ids threads slots).min_input_id ≤ t.1.id) threads
    × All (SlotAbove (least_ids threads slots)) slots
    × (((least_ids threads slots).min_input_id ≡ ullong_max)
        ⊎ (IsThreadFile (least_ids threads slots).min_input_id threads
            ⊎ IsInputFile (least_ids threads slots).min_input_id slots))
    × (((least_ids threads slots).min_analysis_id ≡ ullong_max)
        ⊎ IsAnalysisFile (least_ids threads slots).min_analysis_id slots)
least_ids-slowest_example = least_ids-slowest threads slots

abbrev disk : Disk
disk = record {
  content = λ p. if str_eq p (codes "out/hindsight.cp") then some (7 ∷ []) else none;
  entries = λ _. none;
  refuses = λ _. false;
  free_bytes = λ _. none;
}
