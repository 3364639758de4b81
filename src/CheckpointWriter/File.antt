-- ===== src/CheckpointWriter/File.antt =====
-- The file of checkpoints is replaced as a whole.
use hindsight.Base.{◌≡◌, ◌⊎◌, inl, inr, Bool, false, ◌&&◌, not, some, List, [], ◌∷◌, Bool-cases}
use hindsight.Base.Run.{absurd_ok, ok}
use hindsight.CString.{Bytes}
use hindsight.Disk.{Disk, put, exists}
use hindsight.CheckpointWriter.{FileStep, open_new, close, move, run_step, run_steps}

-- What a reader finds under a name: the whole old file, or the whole new one.
abbrev pub IsOldOrNew : Disk → Disk → Bytes → Bytes → Type 0
IsOldOrNew d d' path text = (d'.content path ≡ d.content path) ⊎ (d'.content path ≡ some text)

abbrev renames : Disk → Bytes → Bytes → Bool
renames d a b = exists d a && not (d.refuses a) && not (d.refuses b)

module _ (tmp path : Bytes) (written : Bool) where
  abbrev last_steps : List FileStep
  last_steps = close written ∷ move tmp path ∷ []

-- The file is opened, or the process ends.
opened :
    (d : Disk) (tmp : Bytes) (next : List FileStep) (x : Disk)
    → run_steps d (open_new tmp ∷ next) ≡ ok x
    → (d.refuses tmp ≡ false) × (run_steps (put d tmp (some [])) next ≡ ok x)
unfolding run_steps run_step
opened d tmp next x e = elim (Bool-cases (d.refuses tmp)) [
  | inl refused ↦ absurd_ok (rw (refused) at e)
  | inr free ↦ (free, rw (free) at e)
]
