-- ===== src/OutputPlugin/Thread/Ending.antt =====
-- src/hs_output_plugins.c: the end of `input_thread`, behind its loop.
pub mod Restart
use hindsight.Base.{ℕ, ◌-◌, Bool, true, false, ◌||◌, none, List, set, if◌then◌else◌}
use hindsight.CString.{Bytes}
use hindsight.Disk.{Disk}
use hindsight.Util.{save_termination_err}
use hindsight.CheckpointReader.{Table}
use hindsight.CheckpointWriter.{Slot, store_plugin}
use hindsight.OutputPlugin.{OutputPlugin, callbacks}
use hindsight.OutputPlugin.Start.{remove_checkpoint_q}
use hindsight.OutputPlugin.PluginList.{OutputPlugins}

-- The plugin of the thread: its name, and its place in the list.
pub record Owner : Type 0 where
  pub name : Bytes
  pub list_index : ℕ

-- What the thread changes outside of its plugin: the files, the table of checkpoints, the list of the
-- plugins, and whether it sends the signal that ends the program.
pub record Shared (Number : Type 0) : Type 0 where
  pub disk : Disk
  pub table : Table Number
  pub plugins : OutputPlugins (Bytes × OutputPlugin)
  pub sigterm : Bool

-- What is met at the end: whether the sandbox still runs and which acknowledgements its last timer
-- event gives, its error, and the date in front of that.
pub record LastWords : Type 0 where
  pub is_running : Bool
  pub acks : List ℕ
  pub error : Bytes
  pub stamp : Bytes

-- `shutdown_timer_event`; a failure of the event is only logged.
unfoldable pub shutdown_timer_event : OutputPlugin → LastWords → OutputPlugin
shutdown_timer_event p w = if w.is_running then callbacks w.acks p else p

module _ {Number : Type 0} where
  -- A plugin that ends without being stopped: its error is saved, and it leaves the list.
  unfoldable pub detach : Bytes → Owner → LastWords → OutputPlugin → Shared Number → Shared Number
  unfolding remove_checkpoint_q
  detach run_path owner w p s = record {
    disk = save_termination_err s.disk run_path owner.name w.stamp w.error;
    table =
        if p.rm_cp_terminate then remove_checkpoint_q s.table owner.name p.read_queue else s.table;
    plugins = record {
      list = set s.plugins.list owner.list_index none;
      list_cnt = s.plugins.list_cnt - 1;
    };
    sigterm = s.sigterm || p.shutdown_terminate;
  }

  -- Behind the loop: the last timer event, and the checkpoints, which are kept for a restart.
  unfoldable pub end_thread :
      (ℕ → Bytes) → Bytes → Owner → LastWords → Bool → OutputPlugin → Shared Number → Shared Number
  unfolding shutdown_timer_event detach
  end_thread print run_path owner w stop p s =
      let p' = shutdown_timer_event p w in
      let stored = record s { table = store_plugin print s.table owner.name p' } in
      if stop then stored else detach run_path owner w p' stored
