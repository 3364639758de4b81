-- ===== src/OutputPlugin/Thread/Termination.antt =====
-- The loop of an output plugin's thread ends once the plugin is stopped.
use hindsight.Base.{
  ◌≡◌, ◌≢◌, ◌⊎◌, inl, inr, refl, ap, Bool, true, false, ◌&&◌, ◌||◌, Option, none, some, List, [],
  ◌∷◌, arith, if-eq, Bool-cases,
}
use hindsight.Base.Run.{ok, exit_failure, absurd_ok, Run-cases}
use hindsight.CheckpointReader.{Table}
use hindsight.QueueReader.{Framing, Queue}
use hindsight.OutputPlugin.{is_fatal}
use hindsight.OutputPlugin.Thread.{
  OutputThread, Turn, Turned, Choice, from_input, from_analysis, nothing, oldest, changed, send,
  after_send, take_input, take_analysis, send_oldest, read_input, read_analysis, turn, turns,
}
use hindsight.OutputPlugin.Thread.Sending.Termination.{is_stopped, send_ends, send_stops}

-- The plugin is stopped before one of the turns.
unfoldable pub is_stopped_in : List Turn → Bool
is_stopped_in [] = false
is_stopped_in (x ∷ rest) = x.stop || is_stopped_in rest

-- In every turn the plugin is stopped while a message is tried again, if it is tried that often.
unfoldable pub all_bounded : List Turn → Bool
all_bounded [] = true
all_bounded (x ∷ rest) = is_stopped x.attempts && all_bounded rest

-- A turn has come to its end, and one that began stopped says so.
abbrev HasEnded : Bool → Option Turned → Type 0
HasEnded stop o = (e : Turned) × ((o ≡ some e) × (stop ≡ true → e.stop ≡ true))

sent_ends :
    (t : OutputThread) (x : Turn) (stop sample : Bool)
    → is_stopped x.attempts ≡ true
    → HasEnded stop (after_send t (send t.plugin stop sample x.current_t x.answers x.attempts))
sent_ends t x stop sample bounded =
    let (s, done) =
      send_ends t.plugin stop sample x.current_t x.answers x.attempts (ground (arith, bounded)) in
    let stops = send_stops t.plugin stop sample x.current_t x.answers x.attempts s done in
    (
      record { thread = record t { plugin = s.0 }; failed = is_fatal s.1; stop = s.2 },
      (ap (after_send t) done, stops),
    )

send_oldest_ends :
    (t : OutputThread) (x : Turn) (stop sample : Bool) (c : Choice)
    → is_stopped x.attempts ≡ true
    → HasEnded stop (send_oldest x stop sample t c)
unfolding send_oldest
send_oldest_ends t x stop sample from_input bounded = sent_ends (take_input t) x stop sample bounded
send_oldest_ends t x stop sample from_analysis bounded =
    sent_ends (take_analysis t) x stop sample bounded
send_oldest_ends t x stop sample nothing bounded = (_, (refl, λ h. h))

module _ {Number : Type 0} (fr : Framing) (table : Table Number) (q_input q_analysis : Queue) where
  turn_ends :
      (x : Turn) (t : OutputThread)
      → is_stopped x.attempts ≡ true
      → (turn fr table q_input q_analysis x t ≡ exit_failure)
        ⊎ ((e : Turned) × ((turn fr table q_input q_analysis x t ≡ ok (some e))
              × (x.stop ≡ true → e.stop ≡ true)))
  unfolding turn changed
  turn_ends x t bounded =
      let p = changed x.stop x.sample t.plugin in
      elim (Run-cases (read_input fr table q_input q_analysis x (record t { plugin = p }))) [
        | inl failed ↦ inl (rw (failed) refl)
        | inr (t1, read1) ↦ elim (Run-cases (read_analysis fr table q_input q_analysis x t1)) [
          | inl failed ↦ inl (rw (read1, failed) refl)
          | inr (t2, read2) ↦
              let (e, (ended, stops)) =
                send_oldest_ends t2 x p.stop p.sample (oldest t2.input.found t2.analysis.found)
                  bounded in
              inr (e, (rw (read1, read2) (ap ok ended), λ h. stops (ground (arith, h))))
        ]
      ]

  -- The loop of the thread ends, or the process ends in it, when the plugin is stopped before one of
  -- the turns, and in every turn before a message has been tried again more often than the turn
  -- allows for: whatever the queues hold and the sandbox answers.
  pub turns_end :
      (xs : List Turn) (t : OutputThread)
      → is_stopped_in xs ≡ true
      → all_bounded xs ≡ true
      → turns fr table q_input q_analysis xs t ≢ ok none
  unfolding turns is_stopped_in all_bounded
  turns_end [] t stopped bounded f = cc
  turns_end (x ∷ rest) t stopped bounded f = elim (turn_ends x t (ground (arith, bounded))) [
    | inl failed ↦ absurd_ok (rw (failed) at f)
    | inr (e, (ended, stops)) ↦ elim (if-eq (e.failed || e.stop) (rw (ended) at f)) [
      | inl (left, f1) ↦ cc
      | inr (on, f1) ↦
          let before : x.stop ≡ false = elim (Bool-cases x.stop) [
            | inl stop ↦ absurd (ground (arith, stops stop, on))
            | inr go ↦ go
          ] in
          turns_end rest e.thread (ground (arith, before, stopped)) (ground (arith, bounded)) f1
    ]
  ]
