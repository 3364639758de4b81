-- ===== src/Tests/Delivery.antt =====
-- How an output plugin moves its checkpoints.
use hindsight.Base.{
  ℕ, zero, suc, ◌*◌, ◌≤◌, ◌≡◌, refl, inr, true, false, some, [], ◌∷◌, arith, if◌then◌else◌,
  get_elem?,
}
use hindsight.Checkpoint.{CheckpointPair}
use hindsight.OutputPlugin.{
  OutputPlugin, update_checkpoint_callback, later, later_pair, Answers, PmResult, sent, async,
  retry, callbacks, note_place, process, advance, handle, tick, output_message,
}
use hindsight.OutputPlugin.Advance.{IsBehind, Moves, Precedes}
use hindsight.OutputPlugin.Advance.Steps.{output_message-Moves}
use hindsight.OutputPlugin.Ring.Holds.{MovesTo, output_message-HoldsPlaces, acknowledged}
use hindsight.OutputPlugin.Ring.Overrun.{refused_takes_slot}
use hindsight.OutputPlugin.Hold.{holds_back, output_message-cp}
use hindsight.OutputPlugin.Ring.{HoldsPlaces}

abbrev at : ℕ → CheckpointPair
at n = record { input = record { id = 0; offset = n }; analysis = record { id = 0; offset = 0 } }

-- Two slots; messages 1 and 2 were sent and are under way, message 3 has been read.
abbrev plugin : OutputPlugin
plugin = record {
  sequence_id = 2;
  ack_sequence_id = 0;
  batching = false;
  async_cp = at 20 ∷ at 10 ∷ [];
  cp = at 0;
  cur = at 30;
  read_queue = b'b';
  ticker_interval = 0;
  ticker_expires = 0;
  mm_delta_cnt = 0;
  pm_delta_cnt = 0;
  stop = false;
  sample = false;
  pm_sample = false;
  rm_cp_terminate = false;
  shutdown_terminate = false;
}

abbrev answer : PmResult → Answers
answer r = record { matched = true; pm_acks = []; pm_result = r; te_acks = []; te_fatal = false }

le_thirty : (n : ℕ) → n ≤ 30 → Precedes (at n) (at 30)
le_thirty n h = record { input = inr (refl, h); analysis = inr (refl, omega arith) }

in_ring : (i : ℕ) (x : CheckpointPair) → get_elem? plugin.async_cp i ≡ some x → Precedes x (at 30)
in_ring zero x h = let e : x ≡ at 20 = cc in rw e (le_thirty 20 (omega arith))
in_ring (suc zero) x h = let e : x ≡ at 10 = cc in rw e (le_thirty 10 (omega arith))
in_ring (suc (suc i)) x h = cc

plugin-IsBehind : IsBehind plugin
plugin-IsBehind = record { cp = le_thirty 0 (omega arith); ring = in_ring }

abbrev after : PmResult → OutputPlugin
after r = (output_message plugin true false 0 (answer r)).0

output_message-Moves_example : Moves plugin (after sent)
output_message-Moves_example =
    output_message-Moves plugin true false 0 (answer sent) plugin-IsBehind

-- Two messages are under way, so the checkpoint stays.
output_message-cp_example :
    (after async).cp ≡ (if holds_back plugin (answer async) then at 0 else at 30)
output_message-cp_example = output_message-cp plugin false 0 (answer async) refl refl

-- Each message ends ten bytes behind the one before.
abbrev place : ℕ → CheckpointPair
place s = at (10 * s)

plugin-HoldsPlaces : HoldsPlaces place plugin
plugin-HoldsPlaces = record { slot = λ s le window. let e : s ≡ 2 = omega arith in rw e refl }

output_message-HoldsPlaces_example : HoldsPlaces place (after async)
output_message-HoldsPlaces_example =
    output_message-HoldsPlaces place plugin true false 0 (answer async) plugin-HoldsPlaces
      (omega arith) (λ _. refl)

-- Message 3 is refused, and message 2 is acknowledged.
acknowledged_example :
    MovesTo (at 20) (after retry).cp (update_checkpoint_callback 2 (after retry)).cp
unfolding output_message handle process note_place callbacks advance tick
acknowledged_example =
    acknowledged place plugin true false 0 (answer retry) 2 plugin-HoldsPlaces (omega arith)
      (λ _. refl) (omega arith) (omega arith) (omega arith)

-- The acknowledgement of message 1 moves the checkpoint to the end of message 3, which was refused.
refused_takes_slot_example :
    (update_checkpoint_callback 1 (after retry)).cp ≡ later_pair (some (at 30)) (at 0)
refused_takes_slot_example =
    refused_takes_slot plugin 1 0 false (answer retry) (omega arith) (omega arith) refl
      (omega arith) refl refl refl refl

refused_skips : (update_checkpoint_callback 1 (after retry)).cp ≡ at 30
unfolding update_checkpoint_callback output_message handle process note_place callbacks advance tick
    later_pair later
refused_skips = refl
