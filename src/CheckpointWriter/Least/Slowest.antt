-- ===== src/CheckpointWriter/Least/Slowest.antt =====
-- The least file number of a queue is that of a reader.
use mathlib.Core.Path.{subst}
use hindsight.Base.{
  ℕ, suc, ◌≤◌, ◌≡◌, ◌⊎◌, inl, inr, refl, sym, ◌∙◌, Bool, true, false, none, some, List, [], ◌∷◌,
  if◌then◌else◌, All, get_elem?, ltb, if-both,
}
use hindsight.CString.{Bytes, ullong_max}
use hindsight.OutputPlugin.{OutputPlugin}
use hindsight.CheckpointWriter.{
  LeastIds, Thread, Slot, lesser, reads_input, reads_analysis, least_thread, least_slot, least_ids,
}
use hindsight.CheckpointWriter.Least.{SlotAbove, with_plugin, least_ids-SlotAbove}

-- A number is the file of a reader of a queue: of a thread, or of an output plugin that reads it.
abbrev pub IsThreadFile : ℕ → List Thread → Type 0
IsThreadFile n threads = (k : ℕ) × (t : Thread) × (get_elem? threads k ≡ some t) × (t.1.id ≡ n)

abbrev pub IsInputFile : ℕ → List Slot → Type 0
IsInputFile n slots =
    (k : ℕ) × (name : Bytes) × (p : OutputPlugin) × (get_elem? slots k ≡ some (some (name, p)))
    × (reads_input p ≡ true)
    × (p.cur.input.id ≡ n)

abbrev pub IsAnalysisFile : ℕ → List Slot → Type 0
IsAnalysisFile n slots =
    (k : ℕ) × (name : Bytes) × (p : OutputPlugin) × (get_elem? slots k ≡ some (some (name, p)))
    × (reads_analysis p ≡ true)
    × (p.cur.analysis.id ≡ n)

lesser-cases : (a b : ℕ) → (lesser a b ≡ b) ⊎ (lesser a b ≡ a)
lesser-cases a b = if-both (λ (n : ℕ). (n ≡ b) ⊎ (n ≡ a)) (ltb a b) (λ _. inr refl) (λ _. inl refl)

later_thread :
    (n : ℕ) (t : Thread) (rest : List Thread) → IsThreadFile n rest → IsThreadFile n (t ∷ rest)
later_thread n t rest (k, u, there, same) = (suc k, u, there, same)

least_thread-found :
    (m : LeastIds) (threads : List Thread)
    → ((least_thread m threads).min_input_id ≡ m.min_input_id)
      ⊎ IsThreadFile (least_thread m threads).min_input_id threads
unfolding least_thread
least_thread-found m [] = inl refl
least_thread-found m ((name, cp) ∷ rest) =
    let m' = record m { min_input_id = lesser cp.id m.min_input_id } in
    elim (least_thread-found m' rest) [
      | inr found ↦ inr (later_thread _ (name, cp) rest found)
      | inl same ↦ elim (lesser-cases cp.id m.min_input_id) [
        | inl kept ↦ inl (same ∙ kept)
        | inr here ↦ inr (0, (name, cp), refl, sym (same ∙ here))
      ]
    ]

least_thread-analysis :
    (m : LeastIds) (threads : List Thread)
    → (least_thread m threads).min_analysis_id ≡ m.min_analysis_id
unfolding least_thread
least_thread-analysis m [] = refl
least_thread-analysis m ((_, cp) ∷ rest) =
    least_thread-analysis (record m { min_input_id = lesser cp.id m.min_input_id }) rest

later_input : (n : ℕ) (s : Slot) (rest : List Slot) → IsInputFile n rest → IsInputFile n (s ∷ rest)
later_input n s rest (k, name, p, there, reads, same) = (suc k, name, p, there, reads, same)

later_analysis :
    (n : ℕ) (s : Slot) (rest : List Slot) → IsAnalysisFile n rest → IsAnalysisFile n (s ∷ rest)
later_analysis n s rest (k, name, p, there, reads, same) = (suc k, name, p, there, reads, same)

-- Where a plugin counts, the least number is the one before or its own.
counted :
    (reads : Bool) (id min : ℕ)
    → ((if reads then lesser id min else min) ≡ min)
      ⊎ ((reads ≡ true) × ((if reads then lesser id min else min) ≡ id))
counted false id min = inl refl
counted true id min = elim (lesser-cases id min) [
  | inl kept ↦ inl kept
  | inr here ↦ inr (refl, here)
]

least_slot-input :
    (m : LeastIds) (slots : List Slot)
    → ((least_slot m slots).min_input_id ≡ m.min_input_id)
      ⊎ IsInputFile (least_slot m slots).min_input_id slots
unfolding least_slot with_plugin
least_slot-input m [] = inl refl
least_slot-input m (none ∷ rest) = elim (least_slot-input m rest) [
  | inl same ↦ inl same
  | inr found ↦ inr (later_input _ none rest found)
]
least_slot-input m (some (name, p) ∷ rest) = elim (least_slot-input (with_plugin m p) rest) [
  | inr found ↦ inr (later_input _ (some (name, p)) rest found)
  | inl same ↦ elim (counted (reads_input p) p.cur.input.id m.min_input_id) [
    | inl kept ↦ inl (same ∙ kept)
    | inr (reads, here) ↦ inr (0, name, p, refl, reads, sym (same ∙ here))
  ]
]

least_slot-analysis :
    (m : LeastIds) (slots : List Slot)
    → ((least_slot m slots).min_analysis_id ≡ m.min_analysis_id)
      ⊎ IsAnalysisFile (least_slot m slots).min_analysis_id slots
unfolding least_slot with_plugin
least_slot-analysis m [] = inl refl
least_slot-analysis m (none ∷ rest) = elim (least_slot-analysis m rest) [
  | inl same ↦ inl same
  | inr found ↦ inr (later_analysis _ none rest found)
]
least_slot-analysis m (some (name, p) ∷ rest) = elim (least_slot-analysis (with_plugin m p) rest) [
  | inr found ↦ inr (later_analysis _ (some (name, p)) rest found)
  | inl same ↦ elim (counted (reads_analysis p) p.cur.analysis.id m.min_analysis_id) [
    | inl kept ↦ inl (same ∙ kept)
    | inr (reads, here) ↦ inr (0, name, p, refl, reads, sym (same ∙ here))
  ]
]

-- Each of the two numbers that a round finds is not above the file of any reader of its queue, and it
-- is the file of one of them, a thread or an output plugin that reads the queue, or the greatest
-- 64-bit number.
pub least_ids-slowest :
    (threads : List Thread) (slots : List Slot)
    → All (λ (t : Thread). (least_ids threads slots).min_input_id ≤ t.1.id) threads
      × All (SlotAbove (least_ids threads slots)) slots
      × (((least_ids threads slots).min_input_id ≡ ullong_max)
          ⊎ (IsThreadFile (least_ids threads slots).min_input_id threads
              ⊎ IsInputFile (least_ids threads slots).min_input_id slots))
      × (((least_ids threads slots).min_analysis_id ≡ ullong_max)
          ⊎ IsAnalysisFile (least_ids threads slots).min_analysis_id slots)
unfolding least_ids
least_ids-slowest threads slots =
    let start : LeastIds = record { min_input_id = ullong_max; min_analysis_id = ullong_max } in
    let m = least_thread start threads in
    let (below_threads, below_slots) = least_ids-SlotAbove threads slots in
    (
      below_threads,
      below_slots,
      elim (least_slot-input m slots) [
        | inr found ↦ inr (inr found)
        | inl same ↦ elim (least_thread-found start threads) [
          | inl unread ↦ inl (same ∙ unread)
          | inr found ↦ inr (inl (subst (λ (n : ℕ). IsThreadFile n threads) (sym same) found))
        ]
      ],
      elim (least_slot-analysis m slots) [
        | inr found ↦ inr found
        | inl same ↦ inl (same ∙ least_thread-analysis start threads)
      ],
    )
