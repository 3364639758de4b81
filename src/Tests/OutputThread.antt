-- ===== src/Tests/OutputThread.antt =====
-- A turn of an output plugin's thread, which reads two queues and is then stopped.
use hindsight.Base.{ℕ, ◌≡◌, ◌≢◌, refl, true, false, none, some, List, [], ◌∷◌, arith}
use hindsight.Base.Run.{ok}
use hindsight.CString.{str_eq, codes}
use hindsight.CString.Decimal.{decimal}
use hindsight.QueueFile.Naming.{log_name}
use hindsight.Checkpoint.{Checkpoint}
use hindsight.CheckpointReader.{Table}
use hindsight.QueueReader.Stream.{stream, files, rest_of_file}
use hindsight.QueueReader.Whole.{from_checkpoint}
use hindsight.OutputPlugin.{
  OutputPlugin, Answers, PmResult, sent, retry, callbacks, output_message, tick, handle, advance,
  process, note_place, update_checkpoint, update_checkpoint_callback,
}
use hindsight.OutputPlugin.Start.{SandboxConfig, create_output_plugin, sync_checkpoints}
use hindsight.OutputPlugin.Thread.{OutputThread, Attempt, Turn, turns, send}
use hindsight.OutputPlugin.Thread.Ending.{
  Owner, Shared, LastWords, shutdown_timer_event, end_thread,
}
use hindsight.OutputPlugin.Thread.Ending.Restart.{end_thread-Rereads}
use hindsight.OutputPlugin.Thread.Sending.{Sent}
use hindsight.OutputPlugin.Thread.Sending.Delivery.{Delivered, send_lem}
use hindsight.OutputPlugin.Thread.Sending.BatchRetry.{output_message-batch_retry}
use hindsight.OutputPlugin.Thread.Sending.Termination.{is_stopped}
use hindsight.OutputPlugin.Thread.Termination.{is_stopped_in, all_bounded, turns_end}
use hindsight.OutputPlugin.Thread.Side.{IsSafe}
use hindsight.OutputPlugin.Thread.Resume.{At, Rereads, IsReading, reading}
use hindsight.Tests.Following.{byte_framing, gap_disk, queue}
use hindsight.Tests.Analysis.{buffered, first_handle, buffered-IsPlaced, buffered-IsWhole}

abbrev origin : Checkpoint
origin = record { id = 1; offset = 0 }

abbrev pub plugin : OutputPlugin
plugin = record {
  sequence_id = 0;
  ack_sequence_id = 0;
  batching = false;
  async_cp = [];
  cp = record { input = origin; analysis = origin };
  cur = record { input = origin; analysis = origin };
  read_queue = b'b';
  ticker_interval = 0;
  ticker_expires = 0;
  mm_delta_cnt = 0;
  pm_delta_cnt = 0;
  stop = false;
  sample = false;
  pm_sample = false;
  rm_cp_terminate = false;
  shutdown_terminate = false;
}

-- Both readers have a buffer with the two messages of the first file.
abbrev thread : OutputThread
thread = record { plugin = plugin; input = buffered; analysis = buffered }

abbrev answer : PmResult → Answers
answer r = record { matched = true; pm_acks = []; pm_result = r; te_acks = []; te_fatal = false }

abbrev first_turn : Turn
first_turn = record {
  disk = gap_disk;
  most_input = 100;
  most_analysis = 100;
  current_t = 5;
  stop = false;
  sample = false;
  answers = answer retry;
  attempts = record { current_t = 6; answers = answer sent; stop = false } ∷ [];
}

abbrev empty_table : Table ℕ
empty_table = []

abbrev here : At
here = record { fh = first_handle; held = [] }

abbrev Known : OutputThread → At → At → Type 0
Known t i a = IsSafe (reading gap_disk queue 3) (reading gap_disk queue 3) t i a

origin-Rereads : Rereads gap_disk queue 3 here buffered origin
unfolding from_checkpoint stream files rest_of_file str_eq log_name decimal
origin-Rereads = ([], refl)

thread-IsSafe : Known thread here here
thread-IsSafe =
    let standing : IsReading gap_disk queue 3 here buffered = record {
      stands = record {
        placed = buffered-IsPlaced;
        whole = buffered-IsWhole;
        within = omega arith;
      };
      free = λ _. refl;
    } in
    record {
      input = standing;
      analysis = standing;
      places = record {
        cp = (origin-Rereads, origin-Rereads);
        cur = (origin-Rereads, origin-Rereads);
        ring = λ i x e. cc;
      };
    }

-- The plugin is stopped with the second message of the two held back.
abbrev owner : Owner
owner = record { name = codes "output.a"; list_index = 0 }

abbrev pub last_words : LastWords
last_words = record { is_running = true; acks = 0 ∷ []; error = []; stamp = [] }

abbrev shared : Shared ℕ
shared = record {
  disk = gap_disk;
  table = empty_table;
  plugins = record { list = some (owner.name, plugin) ∷ []; list_cnt = 1 };
  sigterm = false;
}

abbrev settings : SandboxConfig
settings = record {
  async_buffer_size = 2;
  read_queue = b'b';
  ticker_interval = 0;
  rm_cp_terminate = false;
  shutdown_terminate = false;
}

end_thread-Rereads_example :
    (p : OutputPlugin) × (sync_checkpoints gap_disk
        (end_thread decimal (codes "run") owner last_words true thread.plugin shared).table
        owner.name
        none
        (create_output_plugin settings 0)
      ≡ ok ((end_thread decimal (codes "run") owner last_words true thread.plugin shared).table, p))
    × (p.cur ≡ p.cp)
    × Rereads gap_disk queue 3 here buffered p.cp.input
    × Rereads gap_disk queue 3 here buffered p.cp.analysis
unfolding shutdown_timer_event callbacks update_checkpoint_callback
end_thread-Rereads_example =
    end_thread-Rereads last_words gap_disk queue queue 3 3 decimal (codes "run") owner thread here
      here shared gap_disk none settings 0 thread-IsSafe (λ n h. refl) refl refl (omega arith)
      (omega arith) (omega arith) (omega arith)

-- A message is tried twice, and then delivered.
delivery : (s : Sent) × (send plugin false false 5 (answer retry) first_turn.attempts ≡ some s)
unfolding send output_message tick handle advance process callbacks note_place update_checkpoint
delivery = (_, refl)

send_lem_example : Delivered plugin delivery.0
send_lem_example =
    send_lem plugin false false 5 (answer retry) first_turn.attempts delivery.0
      (record { no_batch = refl; no_ring = refl }) delivery.1

-- The plugin is stopped while a message is tried again.
abbrev stopping : List Attempt
stopping = record { current_t = 6; answers = answer retry; stop = true } ∷ []

-- A batch is under way, and the sandbox has stored it before it refuses the next message.
abbrev open_batch : OutputPlugin
open_batch = record plugin {
  batching = true;
  cur = record { input = record { id = 1; offset = 2 }; analysis = origin };
}

abbrev flushing : Answers
flushing = record (answer retry) { pm_acks = 0 ∷ [] }

turns_end_example :
    turns byte_framing empty_table queue queue
      (record first_turn { attempts = stopping }
        ∷ record first_turn { attempts = stopping; stop = true }
        ∷ [])
      thread
    ≢ ok none
unfolding is_stopped_in all_bounded is_stopped
turns_end_example =
    turns_end byte_framing empty_table queue queue
      (record first_turn { attempts = stopping }
        ∷ record first_turn { attempts = stopping; stop = true }
        ∷ [])
      thread refl refl

output_message-batch_retry_example :
    let (q, r) = output_message open_batch true false 0 flushing in
    (q.cp ≡ open_batch.cur) × (r ≡ retry)
output_message-batch_retry_example =
    output_message-batch_retry open_batch false 0 flushing refl refl refl refl refl refl
