-- ===== src/Tests/Queue.antt =====
-- The writing end of a queue.
use hindsight.Base.{
  ℕ, ◌<◌, ◌≡◌, ◌⊎◌, refl, true, false, none, some, [], ◌∷◌, ◌++◌, arith, if◌then◌else◌,
}
use hindsight.Base.Run.{ok}
use hindsight.CString.{Bytes, codes, ullong_max, str_eq, strtoull}
use hindsight.CString.Decimal.{decimal}
use hindsight.Disk.{Disk, bytes_of, mkdir, open_append, append}
use hindsight.Util.{disk_free_ob}
use hindsight.QueueFile.{extract_id, digit_run, find_last_id}
use hindsight.QueueFile.Naming.{log_name}
use hindsight.Output.{Output, file_of, open_output_file, init_output}
use hindsight.Output.Open.{IsAtEnd, Resumes, init_output-Resumes}
use hindsight.Inject.{
  QueueConfig, Throttle, Answers, add64, frame, header, write_frame, applied, rotate, released,
  write_message,
}
use hindsight.Inject.Write.{write_message-content, write_message-IsAtEnd}
use hindsight.Inject.Backpressure.{
  IsLagging, IsFull, backpressure_begins, backpressure_ends, write_messages, backpressure_stuck,
}

-- A directory `q/input` with the files 3 and 5, the latter with two bytes.
abbrev disk : Disk
disk = record {
  content = λ p. if str_eq p (codes "q/input/5.log") then some (1 ∷ 2 ∷ []) else none;
  entries = λ p. some (codes "3.log" ∷ codes "5.log" ∷ []);
  refuses = λ _. false;
  free_bytes = λ _. some 1000;
}

abbrev started : Output
started = record { path = codes "q/input"; min_cp_id = 5; cp = record { id = 5; offset = 2 } }

init_output_starts : init_output disk (codes "q") (codes "input") ≡ ok (disk, started)
unfolding init_output mkdir open_output_file open_append find_last_id extract_id digit_run strtoull
    log_name decimal
init_output_starts = refl

init_output-Resumes_example : Resumes disk disk (codes "3.log" ∷ codes "5.log" ∷ []) started
init_output-Resumes_example =
    init_output-Resumes disk disk (codes "q") (codes "input") started
      (codes "3.log" ∷ codes "5.log" ∷ []) refl init_output_starts

-- One byte holds a number below 128.
abbrev varint : ℕ → Bytes
varint n = n ∷ []

abbrev config : QueueConfig
config = record { output_size = 10; backpressure = 0; backpressure_df = 4 }

abbrev quiet : Throttle
quiet = record { last_bp_check = 0; backpressure = false }

abbrev answers : Answers
answers = record { header_written = true; message_written = true; checked_at = 7; stored_at = 7 }

abbrev Written : Disk → Output → Throttle → Bytes → Type 0
Written d o th pb =
    (x : Disk × Output × Throttle) × (write_message varint config d o th pb answers ≡ ok x)

-- Five bytes fill the file: the queue goes on to file 6.
rotated : Written disk started quiet (codes "hello")
unfolding write_message write_frame rotate open_output_file open_append append released header
    log_name decimal disk_free_ob applied str_eq
rotated = (_, refl)

rotated_values :
    (rotated.0.1.cp ≡ record { id = 6; offset = 0 })
    × (rotated.0.0.content (codes "q/input/5.log")
        ≡ some (1 ∷ 2 ∷ 0x1e ∷ 2 ∷ 8 ∷ 5 ∷ 0x1f ∷ codes "hello"))
unfolding rotated append log_name decimal str_eq
rotated_values = (refl, refl)

write_message-content_example : bytes_of (rotated.0.0.content (codes "q/input/6.log")) ≡ (
    if str_eq (file_of started) (codes "q/input/6.log")
    then bytes_of (disk.content (codes "q/input/6.log")) ++ frame varint (codes "hello")
    else bytes_of (disk.content (codes "q/input/6.log")))
write_message-content_example =
    write_message-content varint config disk rotated.0.0 started rotated.0.1 quiet rotated.0.2
      (codes "hello") answers (codes "q/input/6.log") rotated.1

started-IsAtEnd : IsAtEnd disk started
unfolding log_name decimal str_eq
started-IsAtEnd = record { there = refl; at_end = refl }

write_message-IsAtEnd_example : IsAtEnd rotated.0.0 rotated.0.1
unfolding frame header
write_message-IsAtEnd_example =
    write_message-IsAtEnd varint config disk rotated.0.0 started rotated.0.1 quiet rotated.0.2
      (codes "hello") answers started-IsAtEnd (omega arith) (omega arith) rotated.1

abbrev small_disk : Disk
small_disk = record disk { free_bytes = λ _. some 30 }

-- The same with room for three more files only.
throttled : Written small_disk started quiet (codes "hello")
unfolding write_message write_frame rotate open_output_file open_append append released header
    log_name decimal disk_free_ob applied str_eq
throttled = (_, refl)

throttled_on : throttled.0.2.backpressure ≡ true
unfolding throttled str_eq
throttled_on = refl

backpressure_begins_example :
    (throttled.0.1.cp.id ≡ add64 5 1)
    × (IsLagging config throttled.0.1 ⊎ IsFull config throttled.0.0 throttled.0.1)
backpressure_begins_example =
    backpressure_begins varint config small_disk throttled.0.0 started throttled.0.1 quiet
      throttled.0.2 (codes "hello") answers throttled.1 refl throttled_on

abbrev pressed : Throttle
pressed = record { last_bp_check = 0; backpressure = true }

freed : Written disk started pressed []
unfolding write_message write_frame rotate append released header log_name decimal disk_free_ob
    applied str_eq
freed = (_, refl)

freed_off : freed.0.2.backpressure ≡ false
unfolding freed
freed_off = refl

backpressure_ends_example :
    (0 < 7)
    × (freed.0.1.cp.id ≡ freed.0.1.min_cp_id)
    × ((config.backpressure_df ≡ 0)
        ⊎ (config.backpressure_df < disk_free_ob freed.0.0 freed.0.1.path config.output_size))
backpressure_ends_example =
    backpressure_ends varint config disk freed.0.0 started freed.0.1 pressed freed.0.2 [] answers
      freed.1 refl freed_off

abbrev unread : Output
unread = record started { min_cp_id = ullong_max }

two :
    (x : Disk × Output × Throttle) × (write_messages varint config disk unread pressed
        ((codes "hello", answers) ∷ ([], answers) ∷ [])
      ≡ ok x)
unfolding write_messages write_message write_frame rotate open_output_file open_append append
    released header log_name decimal disk_free_ob applied str_eq
two = (_, refl)

backpressure_stuck_example : two.0.2.backpressure ≡ true
backpressure_stuck_example =
    backpressure_stuck varint config disk two.0.0 unread two.0.1 pressed two.0.2
      ((codes "hello", answers) ∷ ([], answers) ∷ []) two.1 refl refl (omega arith)
