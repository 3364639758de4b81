-- ===== src/Tests/Reader.antt =====
-- The table of checkpoints: storing, looking up, cleaning up.
use hindsight.Base.{ℕ, ◌≡◌, arith, refl, false, none, some, [], ◌∷◌, if◌then◌else◌}
use hindsight.Base.Run.{ok}
use hindsight.CString.{codes, str_eq}
use hindsight.CString.Decimal.{decimal}
use hindsight.Disk.{Disk}
use hindsight.Checkpoint.{Checkpoint}
use hindsight.CheckpointReader.{Table, str, num, update_input_checkpoint, lookup_input_checkpoint}
use hindsight.CheckpointReader.RoundTrip.{lookup-update}

-- One plugin has a configuration.
abbrev disk : Disk
disk = record {
  content = λ path. if str_eq path (codes "run/output/a.cfg") then some [] else none;
  entries = λ _. none;
  refuses = λ _. false;
  free_bytes = λ _. none;
}

abbrev table : Table ℕ
table =
    (codes "input", str (codes "3:5"))
    ∷ (codes "input->output.a", str (codes "2:7"))
    ∷ (codes "input->output.b", str (codes "2:9"))
    ∷ (codes "input->analysis1", str (codes "3:1"))
    ∷ (codes "input.b", num 4)
    ∷ []

abbrev place : Checkpoint
place = record { id = 3; offset = 9 }

abbrev origin : Checkpoint
origin = record { id = 0; offset = 0 }

lookup-update_example :
    lookup_input_checkpoint disk
      (update_input_checkpoint decimal table (codes "input") (some (codes "output.a")) place)
      (codes "input")
      (some (codes "output.a"))
      (some (codes "out"))
      origin
    ≡ ok place
lookup-update_example =
    lookup-update disk table decimal (codes "input") (some (codes "output.a")) (some (codes "out"))
      place origin (λ n h. refl) (omega arith) (omega arith)
