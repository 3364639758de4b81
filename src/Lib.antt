-- ===== src/Lib.antt =====
-- Hindsight moves messages from input plugins through queues of numbered files to analysis and
-- output plugins. This library models its handling of the queues and of the checkpoints from which
-- every reader goes on after a restart.
--
-- An input plugin's sandbox injects messages (src/hs_input_plugins.c); they are framed and
-- appended to the input queue (src/hs_output.c), which goes on to its next file when one is full
-- and may hold its writers back. Analysis threads and output plugins read the queue's files
-- (src/hs_input.c), analysis plugins inject into the second queue, and output plugins move their
-- checkpoints as messages are delivered (src/hs_output_plugins.c). Once a second the checkpoints
-- go to a table and a file, from which they are looked up at the next start
-- (src/hs_checkpoint_reader.c).
--
-- The files, and the code that each models:
-- - Base: Boolean tests, lists, order, and Run, the result of code that may call
--   exit(EXIT_FAILURE). CString: the functions of the C library on strings, with decimal output
--   and its reading. Disk: what the program sees of the file system.
-- - Util, Util/Name, Util/LuaString: src/hs_util.c, function by function (hs_get_fqfn is get_fqfn,
--   and so on, without the prefix hs_).
-- - QueueFile, QueueFile/Naming, QueueFile/Search: extract_id, find_first_id and hs_find_next_id
--   of src/hs_checkpoint_reader.c and find_last_id of src/hs_output.c.
-- - Output, Output/Open: hs_open_output_file and hs_init_output of src/hs_output.c; the record
--   Output is hs_output.
-- - Inject, Inject/Write, Inject/Backpressure: what the three inject_message functions do under
--   the lock of their queue; the record Throttle is their static variables.
-- - InputPlugin, AnalysisPlugin and OutputPlugin.inject_message: the three functions themselves,
--   of src/hs_input_plugins.c, src/hs_analysis_plugins.c and src/hs_output_plugins.c.
-- - InputPlugin/PluginList and AnalysisPlugin/Threads: add_to_input_plugins and
--   add_to_analysis_plugins, which put a plugin into its list. InputPlugin/Thread, with Leaving,
--   Leaving/Semaphore and Restart: input_thread of src/hs_input_plugins.c. InputPlugin/Removal and
--   Removal/Counted: how its plugins are told to stop and waited for.
-- - Loading, with InputPlugin/Loading, AnalysisPlugin/Loading, OutputPlugin/Loading and
--   Loading/Reload below that: what each kind of plugins does with a file in the load directory
--   (process_lua and the three functions hs_load_..._dynamic), and at the start for input and
--   output plugins. AnalysisPlugin/Startup, with Fewest: hs_load_analysis_startup and
--   hs_start_analysis_threads, where the directory is read as the same entries each time.
-- - IpCheckpoint, IpCheckpoint/Safety, IpCheckpoint/RoundTrip: hs_ip_checkpoint, with
--   update_checkpoint of src/hs_input_plugins.c and hs_load_checkpoint, hs_lookup_checkpoint and
--   hs_update_checkpoint of src/hs_checkpoint_reader.c.
-- - CheckpointReader and its children: the table of checkpoints of src/hs_checkpoint_reader.c, a
--   list of keys and values for the globals of the Lua state; Cleanup and Cleanup/Gone are about
--   hs_cleanup_checkpoints.
-- - Input, Input/Place: hs_open_file and hs_read_file of src/hs_input.c; the record Input is
--   hs_input.
-- - QueueReader: the part of the two functions input_thread, of src/hs_analysis_plugins.c and
--   src/hs_output_plugins.c, that follows a queue from file to file; the record Reader is their
--   variables. QueueReader/Stream: the bytes that a reader has before it. QueueReader/Opening,
--   QueueReader/NextFile and QueueReader/Refine: what opening a file, going on to the next one,
--   and a round do to them. QueueReader/Whole and QueueReader/Standing: the buffer against the
--   file, and what is read from a checkpoint.
-- - AnalysisPlugin/Analyze: analyze_message, shutdown_timer_event and terminate_sandbox of
--   src/hs_analysis_plugins.c, with what a sandbox does during a call as a Session; EachPlugin and
--   Count below it are about the loops over the list. AnalysisPlugin/Thread, with Resume: a round
--   of input_thread and its checkpoint.
-- - AnalysisPlugin/Placement, with LeastUsed and Restart: least_used_thread_id and get_thread_id
--   of src/hs_analysis_plugins.c, which choose the thread of a plugin that is loaded while the
--   program runs.
-- - Config/Options, Config/Sandbox, Config/Defaults, Config/Main and Config/LoadDirectory:
--   src/hs_config.c, the options of a Lua table, hs_load_sandbox_config, hs_load_config and
--   hs_process_load_cfg; Config/Runtime: hs_output_runtime_cfg, with lsb_outputf of a text as a
--   parameter; Accepted, Limits and Moved below them are about their results.
-- - OutputPlugin and its children: update_checkpoint_callback and output_message of
--   src/hs_output_plugins.c; the record OutputPlugin is the part of hs_output_plugin that they
--   change. OutputPlugin/Start and OutputPlugin/Start/Resume: the fields that create_output_plugin
--   sets, and how add_to_output_plugins finds the checkpoints of a new plugin.
--   OutputPlugin/Thread: input_thread of src/hs_output_plugins.c, turn by turn; Thread/Sending
--   with its children: a message and its tries; Thread/Side, Side/Turning and Thread/Resume: what
--   a turn does to the places in the two queues; Thread/Ending and Ending/Restart: the end of the
--   thread, and the next start. OutputPlugin/PluginList: the list that add_to_output_plugins and
--   remove_from_output_plugins change.
-- - CheckpointWriter and its children: src/hs_checkpoint_writer.c, the least file numbers of all
--   readers, the entries of the table, the replacement of the file, and round_percentage.
-- - Tests: runs of the definitions and the theorems at concrete inputs.
--
-- Numbers: an unsigned long long or size_t keeps its wrap-around at 2^64 where the code adds or
-- subtracts, and an unsigned its wrap-around at 2^32. Counters that only statistics read do not
-- wrap. All loops are structural recursions over lists or over the digits of a number; the loop of
-- an output plugin's thread, that of its tries to send a message, and that of an input plugin's
-- thread go over a list of what they meet, and end once the plugin is stopped.
--
-- What stands outside: the sandboxes, the message matcher, lsb_pb_output_varint and
-- lsb_expand_input_buffer belong to the lua_sandbox library, and the printing of numbers, the
-- reading of strings and the run of a configuration to Lua. They are parameters, or the answers of
-- a record Answers, and theorems about them state what those libraries document as hypotheses.
-- Times, the results of system calls and the order in which Lua lists its globals are arguments
-- too.
--
-- Not modelled: the buffers of the C library's streams, so that a write is in the file at once;
-- locks and threads, since each definition is one critical section; the log; memory that runs out,
-- except where a checkpoint's text is stored; numbers of a configuration that are not numbers,
-- tables that stand in two options of one; what a sandbox saves when it is destroyed; the creation
-- of sandboxes, the stop of analysis threads, the main function, and the statistics.
pub mod Base
pub mod CString
pub mod Disk
pub mod Util
pub mod QueueFile
pub mod Checkpoint
pub mod Output
pub mod CheckpointReader
pub mod IpCheckpoint
pub mod Inject
pub mod Input
pub mod Loading
pub mod QueueReader
pub mod InputPlugin
pub mod AnalysisPlugin
pub mod OutputPlugin
pub mod CheckpointWriter
pub mod Config
mod Tests
