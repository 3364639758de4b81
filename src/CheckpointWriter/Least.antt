-- ===== src/CheckpointWriter/Least.antt =====
-- The least file numbers are those of the slowest readers.
pub mod Slowest
use mathlib.Core.Path.{subst}
use hindsight.Base.{
  ℕ, suc, ◌≤◌, ◌≡◌, ◌⊎◌, inl, inr, refl, sym, ◌∙◌, Bool, true, false, none, some, List, [], ◌∷◌,
  arith, if◌then◌else◌, All, get_elem?, ltb, if-both,
}
use hindsight.CString.{Bytes, ullong_max}
use hindsight.OutputPlugin.{OutputPlugin}
use hindsight.CheckpointWriter.{
  LeastIds, Thread, Slot, lesser, reads_input, reads_analysis, least_thread, least_slot, least_ids,
}

-- The file that a plugin reads is not one of those below the least numbers.
abbrev pub SlotAbove : LeastIds → Slot → Type 0
SlotAbove m none = Unit {0}
SlotAbove m (some (_, p)) =
    (reads_input p ≡ true → m.min_input_id ≤ p.cur.input.id)
    × (reads_analysis p ≡ true → m.min_analysis_id ≤ p.cur.analysis.id)

pub record Below (m n : LeastIds) : Type 0 where
  pub input : m.min_input_id ≤ n.min_input_id
  pub analysis : m.min_analysis_id ≤ n.min_analysis_id

least_thread-Below : (m : LeastIds) (threads : List Thread) → Below (least_thread m threads) m
unfolding least_thread
least_thread-Below m [] = record { input = omega arith; analysis = omega arith }
least_thread-Below m ((_, cp) ∷ rest) =
    let later = least_thread-Below (record m { min_input_id = lesser cp.id m.min_input_id }) rest in
    record { input = ground (arith, later.input); analysis = ground (arith, later.analysis) }

least_thread-above :
    (m : LeastIds) (threads : List Thread)
    → All (λ (t : Thread). (least_thread m threads).min_input_id ≤ t.1.id) threads
unfolding least_thread
least_thread-above m [] = tt
least_thread-above m ((_, cp) ∷ rest) =
    let m' = record m { min_input_id = lesser cp.id m.min_input_id } in
    (ground (arith, (least_thread-Below m' rest).input), least_thread-above m' rest)

Below-trans : (l m n : LeastIds) → Below l m → Below m n → Below l n
Below-trans l m n a b = record {
  input = omega (arith, a.input, b.input);
  analysis = omega (arith, a.analysis, b.analysis);
}

-- one plugin
unfoldable pub with_plugin : LeastIds → OutputPlugin → LeastIds
with_plugin m p = record {
  min_input_id = if reads_input p then lesser p.cur.input.id m.min_input_id else m.min_input_id;
  min_analysis_id =
      if reads_analysis p then lesser p.cur.analysis.id m.min_analysis_id else m.min_analysis_id;
}

with_plugin-Below : (m : LeastIds) (p : OutputPlugin) → Below (with_plugin m p) m
unfolding with_plugin
with_plugin-Below m p = record { input = ground arith; analysis = ground arith }

least_slot-Below : (m : LeastIds) (slots : List Slot) → Below (least_slot m slots) m
unfolding least_slot with_plugin
least_slot-Below m [] = record { input = omega arith; analysis = omega arith }
least_slot-Below m (none ∷ rest) = least_slot-Below m rest
least_slot-Below m (some (_, p) ∷ rest) =
    Below-trans _ (with_plugin m p) m (least_slot-Below (with_plugin m p) rest)
      (with_plugin-Below m p)

with_plugin-above :
    (l m : LeastIds) (name : Bytes) (p : OutputPlugin)
    → Below l (with_plugin m p)
    → SlotAbove l (some (name, p))
unfolding with_plugin
with_plugin-above l m name p below =
    (λ r. ground (arith, below.input), λ r. ground (arith, below.analysis))

least_slot-above : (m : LeastIds) (slots : List Slot) → All (SlotAbove (least_slot m slots)) slots
unfolding least_slot with_plugin
least_slot-above m [] = tt
least_slot-above m (none ∷ rest) = (tt, least_slot-above m rest)
least_slot-above m (some (name, p) ∷ rest) = (
  with_plugin-above _ m name p (least_slot-Below (with_plugin m p) rest),
  least_slot-above (with_plugin m p) rest,
)

All-Below :
    (l m : LeastIds) (threads : List Thread)
    → Below l m
    → All (λ (t : Thread). m.min_input_id ≤ t.1.id) threads
    → All (λ (t : Thread). l.min_input_id ≤ t.1.id) threads
All-Below l m [] below all = tt
All-Below l m ((_, cp) ∷ rest) below all =
    (omega (arith, below.input, all.0), All-Below l m rest below all.1)

pub least_ids-SlotAbove :
    (threads : List Thread) (slots : List Slot)
    → All (λ (t : Thread). (least_ids threads slots).min_input_id ≤ t.1.id) threads
      × All (SlotAbove (least_ids threads slots)) slots
unfolding least_ids
least_ids-SlotAbove threads slots =
    let start : LeastIds = record { min_input_id = ullong_max; min_analysis_id = ullong_max } in
    let m = least_thread start threads in
    (
      All-Below (least_slot m slots) m threads (least_slot-Below m slots)
          (least_thread-above start threads),
      least_slot-above m slots,
    )
