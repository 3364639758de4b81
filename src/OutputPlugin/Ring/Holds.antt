-- ===== src/OutputPlugin/Ring/Holds.antt =====
-- The ring through a whole step of an output plugin, and what an acknowledgement then finds.
use mathlib.Core.Path.{subst}
use hindsight.Base.{
  ℕ, ◌+◌, ◌^◌, ◌≤◌, ◌<◌, ◌≡◌, refl, sym, ◌∙◌, ◌⊎◌, inl, inr, Bool, true, false, ◌||◌, ◌&&◌, ◌==◌,
  ltb, some, arith, if◌then◌else◌, if-both,
}
use hindsight.Checkpoint.{Checkpoint, CheckpointPair}
use hindsight.OutputPlugin.Advance.{◌≼◌}
use hindsight.OutputPlugin.Hold.{note_place-same}
use hindsight.OutputPlugin.{
  OutputPlugin, async_len, update_checkpoint_callback, later, later_pair, PmResult, sent, Answers,
  callbacks, note_place, process, advance, handle, tick, output_message,
}
use hindsight.OutputPlugin.Ring.{
  HoldsPlaces, Noted, callback-cp, note_place-Noted, SameRing, callbacks-SameRing, advance-SameRing,
  tick-SameRing, settled-number,
}

-- A checkpoint that was `old` is now at a place, where that is not further back, or is as it was, where
-- it was not further back than the place.
abbrev pub IsMoved : Checkpoint → Checkpoint → Checkpoint → Type 0
IsMoved at old new = ((new ≡ at) × (old ≼ at)) ⊎ ((new ≡ old) × (at ≼ old))

-- The same in both queues.
abbrev pub MovesTo : CheckpointPair → CheckpointPair → CheckpointPair → Type 0
MovesTo at old new =
    IsMoved at.input old.input new.input × IsMoved at.analysis old.analysis new.analysis

later-IsMoved : (a c : Checkpoint) → IsMoved a c (later a c)
unfolding later
later-IsMoved a c =
    if-both (λ (x : Checkpoint). IsMoved a c x)
      ((a.id == c.id && ltb c.offset a.offset) || ltb c.id a.id)
      (λ further. inl (refl, ground (arith, further)))
      (λ not_further. inr (refl, ground (arith, not_further)))

later_pair-MovesTo : (a c : CheckpointPair) → MovesTo a c (later_pair (some a) c)
unfolding later_pair
later_pair-MovesTo a c = (later-IsMoved a.input c.input, later-IsMoved a.analysis c.analysis)

module _ (place : ℕ → CheckpointPair) where
  HoldsPlaces-same : (p q : OutputPlugin) → HoldsPlaces place p → SameRing p q → HoldsPlaces place q
  HoldsPlaces-same p q h same = record {
    slot = λ s le window.
        rw same.ring
          (h.slot s (omega (arith, same.number)) (rw (same.ring, same.number) at window));
  }

  Noted-HoldsPlaces :
      (p q : OutputPlugin)
      → Noted place p
      → q.async_cp ≡ p.async_cp
      → (q.sequence_id ≡ p.sequence_id) ⊎ (q.sequence_id ≡ p.sequence_id + 1)
      → HoldsPlaces place q
  Noted-HoldsPlaces p q h ring number = record {
    slot = λ s le window.
        let window' : q.sequence_id + 1 < s + async_len p = rw ring at window in
        rw ring (h.slot s (ground arith) (ground arith));
  }

  process-HoldsPlaces :
      (p : OutputPlugin) (a : Answers)
      → HoldsPlaces place p
      → p.sequence_id + 1 < 2 ^ 64
      → p.cur ≡ place (p.sequence_id + 1)
      → HoldsPlaces place (process p a).0
  unfolding process
  process-HoldsPlaces p a h small here =
      let noted = note_place-Noted place p h small here in
      let (_, seq, _, _, _, _) = note_place-same p in
      let acked = callbacks-SameRing a.pm_acks (note_place p) in
      let q = callbacks a.pm_acks (note_place p) in
      let (ring, number) = settled-number q a.pm_result in
      Noted-HoldsPlaces (note_place p) _ noted (ring ∙ acked.ring) (ground (arith, acked.number))

  advanced-HoldsPlaces :
      (x : OutputPlugin × PmResult) → HoldsPlaces place x.0 → HoldsPlaces place (advance x).0
  advanced-HoldsPlaces x h = HoldsPlaces-same x.0 (advance x).0 h (advance-SameRing x.0 x.1)

  matched-HoldsPlaces :
      (p : OutputPlugin) (a : Answers) (m : Bool)
      → HoldsPlaces place p
      → p.sequence_id + 1 < 2 ^ 64
      → (m ≡ true → p.cur ≡ place (p.sequence_id + 1))
      → HoldsPlaces place (if m then process p a else (p, sent)).0
  matched-HoldsPlaces p a true h small here = process-HoldsPlaces p a h small (here refl)
  matched-HoldsPlaces p a false h small here = h

  handle-HoldsPlaces :
      (p : OutputPlugin) (sampled : Bool) (a : Answers)
      → HoldsPlaces place p
      → p.sequence_id + 1 < 2 ^ 64
      → (a.matched ≡ true → p.cur ≡ place (p.sequence_id + 1))
      → HoldsPlaces place (handle p sampled a).0
  unfolding handle
  handle-HoldsPlaces p sampled a h small here =
      let p' = record p { pm_sample = p.pm_sample || sampled } in
      advanced-HoldsPlaces (if a.matched then process p' a else (p', sent))
        (matched-HoldsPlaces p' a a.matched (record { slot = h.slot }) small here)

  given-HoldsPlaces :
      (p : OutputPlugin) (message sampled : Bool) (a : Answers)
      → HoldsPlaces place p
      → p.sequence_id + 1 < 2 ^ 64
      → (a.matched ≡ true → p.cur ≡ place (p.sequence_id + 1))
      → HoldsPlaces place (if message then handle p sampled a else (p, sent)).0
  given-HoldsPlaces p true sampled a h small here = handle-HoldsPlaces p sampled a h small here
  given-HoldsPlaces p false sampled a h small here = h

  sampled-HoldsPlaces :
      (p : OutputPlugin) (sampled : Bool)
      → HoldsPlaces place p
      → HoldsPlaces place (if sampled then record p { sample = false } else p)
  sampled-HoldsPlaces p true h = record { slot = h.slot }
  sampled-HoldsPlaces p false h = h

  -- Whatever the sandbox answers to a message, the places of the last `async_len - 1` messages that
  -- were counted stay in their slots.
  pub output_message-HoldsPlaces :
      (p : OutputPlugin) (message sampled : Bool) (t : ℕ) (a : Answers)
      → HoldsPlaces place p
      → p.sequence_id + 1 < 2 ^ 64
      → (a.matched ≡ true → p.cur ≡ place (p.sequence_id + 1))
      → HoldsPlaces place (output_message p message sampled t a).0
  unfolding output_message
  output_message-HoldsPlaces p message sampled t a h small here =
      let x = if message then handle p sampled a else (p, sent) in
      let given : HoldsPlaces place x.0 = given-HoldsPlaces p message sampled a h small here in
      sampled-HoldsPlaces (tick x t a).0 sampled
        (HoldsPlaces-same x.0 (tick x t a).0 given (tick-SameRing x.0 x.1 t a))

  -- A message is handled, and then one of the last `async_len - 1` messages that were counted is
  -- acknowledged: in each queue the checkpoint becomes the place of that message, if it was not further
  -- on, and otherwise stays.
  pub acknowledged :
      (p : OutputPlugin) (message sampled : Bool) (t : ℕ) (a : Answers) (s : ℕ)
      → HoldsPlaces place p
      → p.sequence_id + 1 < 2 ^ 64
      → (a.matched ≡ true → p.cur ≡ place (p.sequence_id + 1))
      → 0 < s
      → s ≤ (output_message p message sampled t a).0.sequence_id
      → (output_message p message sampled t a).0.sequence_id + 1
        < s + async_len (output_message p message sampled t a).0
      → MovesTo
          (place s)
          (output_message p message sampled t a).0.cp
          (update_checkpoint_callback s (output_message p message sampled t a).0).cp
  acknowledged p message sampled t a s h small here pos le window =
      let q = (output_message p message sampled t a).0 in
      let holds : HoldsPlaces place q =
        output_message-HoldsPlaces p message sampled t a h small here in
      subst (λ (c : CheckpointPair). MovesTo (place s) q.cp c)
        (sym (callback-cp q s (place s) pos (omega arith) (holds.slot s le window)))
        (later_pair-MovesTo (place s) q.cp)
