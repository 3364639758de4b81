-- ===== src/Tests/Analysis.antt =====
-- A message goes to the sandboxes of an analysis thread.
use hindsight.CString.Decimal.{decimal}
use hindsight.QueueFile.Naming.{log_name}
use hindsight.OutputPlugin.PluginList.Count.{occupied}
use hindsight.Base.{
  ℕ, zero, suc, ◌+◌, ◌≤◌, ◌<◌, ◌≡◌, refl, true, false, none, some, [], ◌∷◌, ◌++◌, arith, length,
}
use hindsight.Base.Run.{ok}
use hindsight.CString.{str_eq, codes}
use hindsight.CheckpointReader.{Table}
use hindsight.Inject.{QueueConfig}
use hindsight.Input.{Handle}
use hindsight.QueueReader.{unless_found, follow, Message, Reader, find_or_read}
use hindsight.QueueReader.Stream.{stream, rest_of_file}
use hindsight.QueueReader.Opening.{IsPlaced}
use hindsight.AnalysisPlugin.Threads.{AnalysisThread}
use hindsight.AnalysisPlugin.Analyze.{
  Library, World, Clock, AnalysisPlugin, returns, Code, completed, terminated, analyze_message,
  analyze_plugin, shutdown_timer_event, last_timer_event,
}
use hindsight.AnalysisPlugin.Analyze.EachPlugin.{by_plugin, analyze_message-by_plugin}
use hindsight.AnalysisPlugin.Analyze.Count.{IsCounted, analyze_message-IsCounted}
use hindsight.AnalysisPlugin.Thread.{ThreadState, round}
use hindsight.AnalysisPlugin.Thread.Resume.{round-checkpoint}
use hindsight.QueueReader.Stream.{IsWhole}
use hindsight.QueueReader.Whole.{from_checkpoint}
use hindsight.Tests.Following.{byte_framing, gap_disk, queue, place}

abbrev ended_at : ℕ → Code
ended_at zero = completed
ended_at (suc _) = terminated

-- A sandbox counts the messages that it gets, and ends at the second.
abbrev counting : Library ℕ ℕ ℕ
counting = record {
  pm_analysis = λ n msg sample. returns (n + 1) (ended_at n);
  timer_event = λ n now shutdown. returns n completed;
  error_of = λ _. codes "second";
  stats_of = λ n. n;
  update_running_stats = λ a b. a + b;
}

abbrev clock : Clock
clock = record { elapsed = λ _. 1; stamp = λ _. [] }

abbrev plugin : ℕ → AnalysisPlugin ℕ ℕ ℕ
plugin n = record {
  name = codes "analysis.a";
  sandbox = n;
  matcher = λ _. true;
  stats = 0;
  mms = 0;
  pm_delta_cnt = 0;
  ticker_interval = 0;
  ticker_expires = 0;
  im_limit = 0;
  pm_im_limit = 0;
  te_im_limit = 10;
  shutdown_terminate = false;
  pm_sample = true;
}

abbrev world : World
world = record {
  disk = gap_disk;
  output = record { path = codes "o"; cp = record { id = 0; offset = 0 }; min_cp_id = 0 };
  throttle = record { last_bp_check = 0; backpressure = false };
  sigterm = false;
}

abbrev config : QueueConfig
config = record { output_size = 64; backpressure = 0; backpressure_df = 0 }

abbrev thread_list : AnalysisThread (AnalysisPlugin ℕ ℕ ℕ)
thread_list = record {
  list = some (plugin 0) ∷ none ∷ some (plugin 1) ∷ [];
  list_cnt = 2;
  utilization = 7;
  max_mps = 9;
}

abbrev message : Message
message = record { raw = 7 ∷ []; timestamp = 0 }

analyze_message-by_plugin_example :
    (analyze_message
        (λ n. n ∷ [])
        config
        (codes "run")
        counting
        clock
        true
        (some message)
        5
        world
        thread_list
      ≡ by_plugin
          (λ n. n ∷ [])
          config
          (codes "run")
          counting
          clock
          (analyze_plugin (λ n. n ∷ []) config (codes "run") counting clock true (some message) 5)
          world
          thread_list)
    × (shutdown_timer_event (λ n. n ∷ []) config (codes "run") counting clock 5 world thread_list
        ≡ by_plugin
            (λ n. n ∷ [])
            config
            (codes "run")
            counting
            clock
            (last_timer_event (λ n. n ∷ []) config (codes "run") counting clock 5)
            world
            thread_list)
analyze_message-by_plugin_example =
    analyze_message-by_plugin (λ n. n ∷ []) config (codes "run") counting clock true (some message)
      5 world thread_list

-- The second sandbox ends.
analyzed :
    (x : World × AnalysisThread (AnalysisPlugin ℕ ℕ ℕ)) × (analyze_message
        (λ n. n ∷ [])
        config
        (codes "run")
        counting
        clock
        true
        (some message)
        5
        world
        thread_list
      ≡ ok x)
unfolding analyze_message
analyzed = (_, refl)

analyze_message-IsCounted_example :
    IsCounted analyzed.0.1 × (length analyzed.0.1.list ≡ 3) × (analyzed.0.1.utilization ≤ 7)
unfolding occupied
analyze_message-IsCounted_example =
    analyze_message-IsCounted (λ n. n ∷ []) config (codes "run") counting clock true (some message)
      5 world analyzed.0.0 thread_list analyzed.0.1 refl analyzed.1

-- The thread has read the two bytes of the first file; each is a message.
abbrev pub first_handle : Handle
first_handle = record { file = place 1; position = 2 }

abbrev pub buffered : Reader
buffered = record {
  input = record {
    path = codes "o";
    name = [];
    fh = some first_handle;
    fn = some (place 1);
    ib = record { buf = 7 ∷ 8 ∷ []; scanpos = 0; size = 64; msglen = 0 };
    cp = record { id = 1; offset = 2 };
  };
  bytes_read = 0;
  next = false;
  wait_cnt = 0;
  timer = 0;
  found = none;
}

pub buffered-IsPlaced : IsPlaced queue buffered.input first_handle
buffered-IsPlaced = record {
  handle = refl;
  name = refl;
  file = refl;
  place = refl;
  path = refl;
  range = omega arith;
}

pub buffered-IsWhole : IsWhole gap_disk buffered.input first_handle
unfolding rest_of_file str_eq log_name decimal
buffered-IsWhole = record { few = omega arith; range = omega arith; same = refl }

pub first_handle-small :
    first_handle.position + length (rest_of_file gap_disk first_handle) < 18446744073709551616
unfolding rest_of_file str_eq log_name decimal
first_handle-small = omega arith

abbrev thread : ThreadState ℕ ℕ ℕ
thread = record {
  reader = buffered;
  world = world;
  plugins = thread_list;
  cp = record { id = 1; offset = 0 };
  mm_delta_cnt = 0;
  sample = true;
}

abbrev empty_table : Table ℕ
empty_table = []

went :
    (t : ThreadState ℕ ℕ ℕ) × (round
        (λ n. n ∷ [])
        config
        (codes "run")
        counting
        clock
        byte_framing
        queue
        empty_table
        100
        5
        thread
      ≡ ok t)
unfolding round follow find_or_read unless_found analyze_message
went = (_, refl)

round-checkpoint_example :
    (stream gap_disk queue 3 buffered.input first_handle
      ≡ (7 ∷ []) ++ from_checkpoint gap_disk queue 3 went.0.cp)
    × (stream gap_disk queue 3 went.0.reader.input first_handle
        ≡ from_checkpoint gap_disk queue 3 went.0.cp)
    × IsPlaced queue went.0.reader.input first_handle
    × IsWhole gap_disk went.0.reader.input first_handle
round-checkpoint_example =
    round-checkpoint (λ n. n ∷ []) config (codes "run") counting clock byte_framing queue
      empty_table gap_disk 3 100 5 thread went.0 first_handle _ _ (7 ∷ []) refl buffered-IsPlaced
      buffered-IsWhole refl refl went.1
