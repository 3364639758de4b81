-- ===== src/CheckpointReader/Cleanup/Gone.antt =====
-- Which checkpoints hs_cleanup_checkpoints removes, by the readers that they belong to.
use hindsight.Base.{ℕ, ◌≡◌, ◌≢◌, Bool, false, List, [], ◌∷◌, ◌++◌, All}
use hindsight.Base.Run.{Run, ok, exit_failure}
use hindsight.CString.{Bytes, is_space}
use hindsight.Disk.{Disk}
use hindsight.Util.{cfg_ext}
use hindsight.CheckpointReader.Cleanup.{is_stale}

-- The name of a plugin is one word.
abbrev pub IsWord : Bytes → Type 0
IsWord name = (name ≢ []) × All (λ c. is_space c ≡ false) name

-- The configuration of a plugin in the run directory.
abbrev pub cfg_path : Bytes → Bytes → Bytes → Bytes
cfg_path run_path type name = run_path ++ (b'/' ∷ (type ++ (b'/' ∷ (name ++ cfg_ext))))

module _ (d : Disk) (run_path : Bytes) (threads : ℕ) where
  -- The path of the configuration that a key names, if it names one, fits its buffer.
  abbrev pub HasPath : Bytes → Type 0
  HasPath key = (gone : Bool) × (is_stale d run_path threads key ≡ ok gone)

  stale_by : Run Bool → Bool
  stale_by exit_failure = false
  stale_by (ok gone) = gone
