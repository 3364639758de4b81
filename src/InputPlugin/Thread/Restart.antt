-- ===== src/InputPlugin/Thread/Restart.antt =====
-- An input plugin that is started again goes on at its checkpoint.
use mathlib.Core.Path.{subst}
use mathlib.Core.Option.{some-injective}
use hindsight.Base.{◌^◌, ◌<◌, ◌≡◌, refl, true, Option, none, some, if-both}
use hindsight.CString.{Bytes}
use hindsight.CheckpointReader.{Table}
use hindsight.IpCheckpoint.{init_ip_checkpoint, lookup_checkpoint}
use hindsight.IpCheckpoint.RoundTrip.{meaning, loadable, lookup_checkpoint-store_checkpoint}
use hindsight.InputPlugin.Thread.{
  InputOwner, InputEnded, InputShared, leave, end_with, end_input_thread,
}

module _ {Number Stats : Type 0} where
  end_with_table :
      (run_path : Bytes) (o : InputOwner) (e : InputEnded Number Stats)
      (s s' : InputShared Number Stats) (stored : Option (Table Number))
      → end_with run_path o e s stored ≡ some s'
      → stored ≡ some s'.table
  unfolding end_with leave
  end_with_table run_path o e s s' none h = cc
  end_with_table run_path o e s s' (some t) h =
      subst (λ (x : InputShared Number Stats). some t ≡ some x.table) (some-injective _ _ h)
        (if-both (λ (x : InputShared Number Stats). some t ≡ some x.table) e.shutdown
          {x = record s { table = t }} {y = leave run_path o e.failed (record s { table = t })}
          (λ _. refl) (λ _. refl))

  -- When the thread of an input plugin ends, for whatever reason, a plugin of its name that is added
  -- afterwards, with memory for the checkpoint, looks up the same number, the same bytes of a text of
  -- at most 8,191 bytes with the closing 0 that update_checkpoint has counted, or again nothing. A
  -- longer text cannot be read then, as that of 8,192 bytes that a text of 8,191 bytes and its closing
  -- 0 are. The length is of 32 bits.
  pub end_input_thread-lookup_checkpoint :
      (run_path : Bytes) (o : InputOwner) (e : InputEnded Number Stats)
      (s s' : InputShared Number Stats)
      → e.state.plugin.cp.len < 2 ^ 32
      → end_input_thread run_path o e s ≡ some s'
      → meaning (lookup_checkpoint true s'.table o.name init_ip_checkpoint)
        ≡ loadable (meaning e.state.plugin.cp)
  unfolding end_input_thread
  end_input_thread-lookup_checkpoint run_path o e s s' small h =
      lookup_checkpoint-store_checkpoint s.table s'.table o.name e.state.plugin.cp small
        (end_with_table run_path o e s s' _ h)
