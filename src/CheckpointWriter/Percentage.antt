-- ===== src/CheckpointWriter/Percentage.antt =====
-- How round_percentage rounds.
use hindsight.Base.{ℕ, ◌+◌, ◌*◌, ◌/◌, ◌%◌, ◌≤◌, ◌<◌, ◌≡◌, arith}
use hindsight.CheckpointWriter.{round_percentage}

-- The percentage is the number of tenths of a percent, rounded to the nearest whole number, and to the
-- even one of two that are equally near; the divisor is not 0.
pub round_percentage_lem :
    (n d : ℕ)
    → 0 < d
    → (n * 1000 / d ≤ 10 * round_percentage n d + 5)
      × (10 * round_percentage n d ≤ n * 1000 / d + 5)
      × ((n * 1000 / d) % 10 ≡ 5 → round_percentage n d % 2 ≡ 0)
unfolding round_percentage
round_percentage_lem n d pos = ground arith
