-- ===== src/Tests/Plugins.antt =====
-- The messages that plugins inject, the checkpoints of input plugins, and the reading of a queue.
use hindsight.Base.{
  ℕ, ◌+◌, ◌≡◌, zero, suc, arith, refl, true, false, Option, none, some, List, [], ◌∷◌, ◌++◌, length,
  drop, if◌then◌else◌, leb,
}
use hindsight.Base.Run.{ok}
use hindsight.CString.{Bytes, codes, str_eq}
use hindsight.CString.Decimal.{decimal}
use hindsight.Disk.{Disk}
use hindsight.QueueFile.Naming.{log_name}
use hindsight.Output.{Output}
use hindsight.Inject.{
  QueueConfig, Throttle, Answers, write_message, write_frame, rotate, released, header,
}
use hindsight.CheckpointReader.{Table}
use hindsight.IpCheckpoint.{init_ip_checkpoint, failure, update_checkpoint, store_checkpoint}
use hindsight.IpCheckpoint.Safety.{IsReadable, store-update_too_long}
use hindsight.InputPlugin.{InputPlugin, inject_message}
use hindsight.InputPlugin.Inject.{inject_message_lem, queue_after, messages}
use hindsight.AnalysisPlugin.{inject_all}
use hindsight.AnalysisPlugin.Limit.{write_all, results, inject_all_lem}
use hindsight.Input.{InputBuffer, Handle, Input, open_file, read_file}
use hindsight.Input.Place.{KeepsUnread, unread, read_file_lem}

abbrev empty_table : Table ℕ
empty_table = []

-- A text of as many bytes.
many : ℕ → Bytes
many zero = []
many (suc n) = 97 ∷ many n

length-many : (n : ℕ) → length (many n) ≡ n
unfolding many
length-many zero = refl
length-many (suc n) = omega (arith, length-many n)

store-update_too_long_example :
    ((update_checkpoint true none (some (many 8192)) (init_ip_checkpoint {Number = ℕ})).1 ≡ failure)
    × (store_checkpoint empty_table
          (codes "input.a")
          (update_checkpoint true none (some (many 8192)) init_ip_checkpoint).0
        ≡ none)
unfolding IsReadable
store-update_too_long_example =
    store-update_too_long true (many 8192) (codes "input.a") empty_table init_ip_checkpoint
      (refl, refl) (omega (arith, length-many 8192)) (omega (arith, length-many 8192))

abbrev disk : Disk
disk = record {
  content = λ p. if str_eq p (codes "q/input/5.log") then some (1 ∷ 2 ∷ 3 ∷ []) else none;
  entries = λ p. some (codes "5.log" ∷ []);
  refuses = λ _. false;
  free_bytes = λ _. some 1000;
}

abbrev queue : Output
queue = record { path = codes "q/input"; min_cp_id = 5; cp = record { id = 5; offset = 3 } }

abbrev config : QueueConfig
config = record { output_size = 100; backpressure = 0; backpressure_df = 0 }

abbrev quiet : Throttle
quiet = record { last_bp_check = 0; backpressure = false }

abbrev answers : Answers
answers = record { header_written = true; message_written = true; checked_at = 7; stored_at = 7 }

abbrev varint : ℕ → Bytes
varint n = n ∷ []

abbrev plugin : InputPlugin ℕ ℕ
plugin = record {
  cp = init_ip_checkpoint;
  stats = 0;
  shutdown = 0;
  im_delta_cnt = 2;
  sample = true;
  stop_requested = false;
}

queue_written :
    (x : Disk × Output × Throttle) × (queue_after varint config disk queue quiet answers
        (some (codes "hi"))
        (update_checkpoint true (some 8) none plugin.cp).1
      ≡ ok x)
unfolding update_checkpoint write_message write_frame rotate released header
queue_written = (_, refl)

inject_message_lem_example : record {
  0 as after : InputPlugin ℕ ℕ;
  1 :
      inject_message varint config disk queue quiet plugin
        (some (codes "hi"))
        (some 8)
        none
        true
        4
        answers
      ≡ ok (record {
        disk = queue_written.0.0;
        output = queue_written.0.1;
        throttle = queue_written.0.2;
        plugin = after;
        result = (update_checkpoint true (some 8) none plugin.cp).1;
      });
  2 : after.cp ≡ (update_checkpoint true (some 8) none plugin.cp).0;
  3 : after.im_delta_cnt ≡ plugin.im_delta_cnt + messages (some (codes "hi"));
}
inject_message_lem_example =
    inject_message_lem varint config disk queue quiet plugin (some (codes "hi")) (some 8) none true
      4 answers queue_written.0.0 queue_written.0.1 queue_written.0.2 queue_written.1

abbrev calls : List (Bytes × Answers)
calls = (codes "a", answers) ∷ (codes "b", answers) ∷ []

first_written :
    (x : Disk × Output × Throttle) × (write_all varint config
        (disk, queue, quiet)
        ((codes "a", answers) ∷ [])
      ≡ ok x)
unfolding write_all write_message write_frame rotate released header
first_written = (_, refl)

inject_all_lem_example :
    inject_all varint config
      (record { disk = disk; output = queue; throttle = quiet; im_limit = 1 })
      calls
    ≡ ok (
      record {
        disk = first_written.0.0;
        output = first_written.0.1;
        throttle = first_written.0.2;
        im_limit = 0;
      },
      results 1 2,
    )
inject_all_lem_example =
    inject_all_lem varint config 1 disk queue quiet calls first_written.0 first_written.1

-- A buffer that never moves, and always has room.
abbrev buffer : InputBuffer
buffer = record { buf = 9 ∷ 8 ∷ []; scanpos = 1; size = 100; msglen = 0 }

expand : InputBuffer → ℕ → Option InputBuffer
expand ib n = if leb ib.scanpos (length ib.buf) then some ib else none

expand-KeepsUnread : KeepsUnread expand
unfolding expand
expand-KeepsUnread = record {
  same = λ ib n ib' e. ground arith;
  within = λ ib n ib' e. ground arith;
}

abbrev reader : Input
reader = record {
  path = codes "q";
  name = codes "output.a";
  fh = some (record { file = codes "q/input/4.log"; position = 7 });
  fn = some (codes "q/input/4.log");
  ib = buffer;
  cp = record { id = 4; offset = 7 };
}

next_opened : (x : Input) × (open_file disk reader (codes "input") 5 ≡ ok (x, true))
unfolding open_file log_name decimal str_eq
next_opened = (_, refl)

abbrev place : Handle
place = record { file = codes "q/input/5.log"; position = 1 }

abbrev at_place : Input
at_place = record reader { fh = some place; cp = record { id = 5; offset = 1 } }

read_file_lem_example : record {
  0 as after : Input;
  1 as nread : ℕ;
  2 : read_file expand 3 (1 ∷ 2 ∷ 3 ∷ []) 10 at_place place ≡ ok (after, nread);
  3 : after.fh ≡ some (record place { position = 1 + nread });
  4 : after.cp.offset ≡ 1 + nread;
  5 : unread after.ib ++ drop (1 + nread) (1 ∷ 2 ∷ 3 ∷ []) ≡ 8 ∷ 2 ∷ 3 ∷ [];
}
unfolding expand
read_file_lem_example =
    read_file_lem expand expand-KeepsUnread 3 (1 ∷ 2 ∷ 3 ∷ []) 10 at_place place buffer refl
      (omega arith) refl
