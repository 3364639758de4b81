-- ===== src/Checkpoint.antt =====
-- The checkpoints of src/hs_checkpoint_reader.h.
use hindsight.Base.{ℕ}

-- `hs_checkpoint`: a queue file, and a place in it
pub record Checkpoint : Type 0 where
  pub id : ℕ  -- unsigned long long
  pub offset : ℕ  -- size_t

-- `hs_checkpoint_pair`: a place in either queue
pub record CheckpointPair : Type 0 where
  pub input : Checkpoint
  pub analysis : Checkpoint
