-- ===== src/OutputPlugin/Thread/Ending/Restart.antt =====
-- A plugin that is stopped and started again goes on where it was.
use hindsight.Base.{ℕ, ◌^◌, ◌<◌, ◌≡◌, refl, true, Option, if-both}
use hindsight.Base.Run.{ok}
use hindsight.CString.{Bytes}
use hindsight.CString.Decimal.{decimal}
use hindsight.Disk.{Disk}
use hindsight.QueueReader.{Queue}
use hindsight.OutputPlugin.{OutputPlugin}
use hindsight.OutputPlugin.Start.{SandboxConfig, create_output_plugin, sync_checkpoints}
use hindsight.OutputPlugin.Start.Resume.{sync_checkpoints-store_plugin}
use hindsight.OutputPlugin.Advance.Steps.{callbacks_keep}
use hindsight.OutputPlugin.Advance.Everywhere.{Everywhere, Everywhere-IsKept}
use hindsight.OutputPlugin.Thread.{OutputThread}
use hindsight.OutputPlugin.Thread.Side.{IsSafe}
use hindsight.OutputPlugin.Thread.Resume.{At, Rereads, reading}
use hindsight.OutputPlugin.Thread.Ending.{
  Owner, Shared, LastWords, shutdown_timer_event, end_thread,
}

module _ (w : LastWords) (d : Disk) (q_input q_analysis : Queue) (top_input top_analysis : ℕ) where
  abbrev In : At → OutputThread → OutputPlugin → At → Type 0
  In i t p a =
      Rereads d q_input top_input i t.input p.cp.input
      × Rereads d q_analysis top_analysis a t.analysis p.cp.analysis

  shutdown-In :
      (t : OutputThread) (i a : At)
      → IsSafe (reading d q_input top_input) (reading d q_analysis top_analysis) t i a
      → In i t (shutdown_timer_event t.plugin w) a
  unfolding shutdown_timer_event
  shutdown-In t i a safe =
      let P = Rereads d q_input top_input i t.input in
      let Q = Rereads d q_analysis top_analysis a t.analysis in
      if-both (λ (p : OutputPlugin). In i t p a) w.is_running
        (λ _.
          (callbacks_keep (Everywhere P Q) (Everywhere-IsKept P Q) w.acks t.plugin safe.places).cp)
        (λ _. safe.places.cp)

  -- An output plugin that reads both queues is stopped where its checkpoints are those of
  -- `turn-IsSafe`. Its last timer event may still acknowledge messages, and its checkpoints then
  -- have numbers below 10^14. A plugin of its name that is created and added afterwards, whatever its
  -- settings but those of the queues, begins at checkpoints from which both queues give again all that
  -- the stopped one had before it, the message that it held back included.
  pub end_thread-Rereads :
      {Number : Type 0} (print : ℕ → Bytes) (run_path : Bytes) (owner : Owner) (t : OutputThread)
      (i a : At) (s : Shared Number) (d' : Disk) (path : Option Bytes) (sbc : SandboxConfig)
      (expires : ℕ)
      → IsSafe (reading d q_input top_input) (reading d q_analysis top_analysis) t i a
      → ((n : ℕ) → n < 10 ^ 14 → print n ≡ decimal n)
      → (shutdown_timer_event t.plugin w).read_queue ≡ b'b'
      → sbc.read_queue ≡ b'b'
      → (shutdown_timer_event t.plugin w).cp.input.id < 10 ^ 14
      → (shutdown_timer_event t.plugin w).cp.input.offset < 10 ^ 14
      → (shutdown_timer_event t.plugin w).cp.analysis.id < 10 ^ 14
      → (shutdown_timer_event t.plugin w).cp.analysis.offset < 10 ^ 14
      → (p : OutputPlugin) × (sync_checkpoints d'
            (end_thread print run_path owner w true t.plugin s).table
            owner.name
            path
            (create_output_plugin sbc expires)
          ≡ ok ((end_thread print run_path owner w true t.plugin s).table, p))
        × (p.cur ≡ p.cp)
        × Rereads d q_input top_input i t.input p.cp.input
        × Rereads d q_analysis top_analysis a t.analysis p.cp.analysis
  unfolding end_thread
  end_thread-Rereads print run_path owner t i a s d' path sbc expires safe prints both both' i1 o1
        i2 o2 =
      let last = shutdown_timer_event t.plugin w in
      let (input, analysis) = shutdown-In t i a safe in
      (
        record (create_output_plugin sbc expires) { cp = last.cp; cur = last.cp },
        sync_checkpoints-store_plugin d' s.table print owner.name path last sbc expires prints both
            both' i1 o1 i2 o2,
        refl,
        input,
        analysis,
      )
