-- ===== src/Tests/Start.antt =====
-- An output plugin that is started again.
use hindsight.Base.{ℕ, ◌≡◌, refl, false, none, []}
use hindsight.Base.Run.{ok}
use hindsight.CString.{codes}
use hindsight.Disk.{Disk}
use hindsight.CheckpointReader.{
  Table, get, lookup_input_checkpoint, found_or_missing, missing, found_or, stored_checkpoint,
}
use hindsight.OutputPlugin.{OutputPlugin}
use hindsight.OutputPlugin.Start.{SandboxConfig, create_output_plugin, sync_checkpoints, sync_queue}

abbrev settings : SandboxConfig
settings = record {
  async_buffer_size = 2;
  read_queue = b'b';
  ticker_interval = 0;
  rm_cp_terminate = false;
  shutdown_terminate = false;
}

abbrev disk : Disk
disk = record {
  content = λ _. none;
  entries = λ _. none;
  refuses = λ _. false;
  free_bytes = λ _. none;
}

abbrev empty_table : Table ℕ
empty_table = []

started :
    (x : Table ℕ × OutputPlugin) × (sync_checkpoints disk empty_table
        (codes "output.a")
        none
        (create_output_plugin settings 0)
      ≡ ok x)
unfolding sync_checkpoints sync_queue lookup_input_checkpoint found_or_missing missing found_or
    stored_checkpoint get create_output_plugin
started = (_, refl)

abbrev stopped : OutputPlugin
unfolding create_output_plugin
stopped = record (create_output_plugin settings 0) {
  cp = record { input = record { id = 4; offset = 9 }; analysis = record { id = 2; offset = 0 } };
}
