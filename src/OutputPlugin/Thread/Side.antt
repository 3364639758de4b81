-- ===== src/OutputPlugin/Thread/Side.antt =====
-- What sending keeps of the two queues of an output plugin's thread, from what it keeps of each.
pub mod Turning
use mathlib.Core.Option.{some-injective}
use mathlib.Core.Path.{subst}
use hindsight.Base.{
  ℕ, ◌≡◌, inl, inr, refl, sym, ◌∙◌, ◌⊎◌, ap, Bool, true, false, ◌&&◌, ◌||◌, Option, none, some,
  ◌==◌, if◌then◌else◌, if-eq, if-both,
}
use hindsight.CString.{Bytes}
use hindsight.Base.Run.{ok, >>=-eq-ok, ok-injective}
use hindsight.Checkpoint.{Checkpoint}
use hindsight.CheckpointReader.{Table}
use hindsight.CheckpointWriter.{reads_input, reads_analysis}
use hindsight.QueueReader.{Framing, Queue, Reader, scanned}
use hindsight.OutputPlugin.{OutputPlugin, output_message}
use hindsight.OutputPlugin.Advance.Steps.{output_message_keeps}
use hindsight.OutputPlugin.Advance.Everywhere.{Everywhere, Everywhere-IsKept}
use hindsight.OutputPlugin.Thread.{
  OutputThread, Turn, Turned, Choice, from_input, from_analysis, nothing, oldest, changed, send,
  after_send, take_input, take_analysis, send_oldest, follow_queue, read_input, read_analysis,
  restart_input, restart_analysis, turn,
}
use hindsight.OutputPlugin.Thread.Sending.{Sent, changed_keeps, send_keeps}

abbrev pub without_found : Reader → Reader
without_found r = record r { found = none }

-- What is known of one queue: `Holds` of its reader, `In` of every checkpoint in it, both at a place
-- that is only in the proof. It stays known when the message that was found is taken.
pub record Side : Type 1 where
  pub Place : Type 0
  pub Holds : Place → Reader → Type 0
  pub In : Place → Reader → Checkpoint → Type 0
  pub taken : Place → Place
  pub taken-Holds : (at : Place) (r : Reader) → Holds at r → Holds (taken at) (without_found r)
  pub taken-In :
      (at : Place) (r : Reader) (cp : Checkpoint)
      → Holds at r
      → In at r cp
      → In (taken at) (without_found r) cp
  -- all the bytes that the reader has before it, those of a message that it has found included
  pub ahead : Place → Reader → Bytes
  pub here-In : (at : Place) (r : Reader) → Holds at r → In (taken at) (without_found r) (scanned r)

-- Where a message is held back afterwards, no byte of the queue has gone: the message is in front of
-- what the reader has before it still.
abbrev pub NoLoss : (s : Side) → s.Place → Reader → s.Place → Reader → Type 0
NoLoss s at r at' r' = (r'.found ≡ none) ⊎ (s.ahead at r ≡ s.ahead at' r')

-- Sending takes a message or leaves it.
abbrev pub Leaves : (s : Side) → s.Place → Reader → s.Place → Reader → Type 0
Leaves s at r at' r' = (r'.found ≡ none) ⊎ ((r'.found ≡ r.found) × (s.ahead at r ≡ s.ahead at' r'))

pub NoLoss-Leaves :
    (s : Side) (a b c : s.Place) (r r' r'' : Reader)
    → NoLoss s a r b r'
    → Leaves s b r' c r''
    → NoLoss s a r c r''
NoLoss-Leaves s a b c r r' r'' h (inl gone) = inl gone
NoLoss-Leaves s a b c r r' r'' (inl gone) (inr (same, kept)) = inl (same ∙ gone)
NoLoss-Leaves s a b c r r' r'' (inr before) (inr (same, kept)) = inr (before ∙ kept)

-- What a step for one queue leaves known.
pub record Advanced (s : Side) (at : s.Place) (r r' : Reader) (place : Option Checkpoint)
    : Type 0 where
  pub at' : s.Place
  pub holds : s.Holds at' r'
  pub onward : (cp : Checkpoint) → s.In at r cp → s.In at' r' cp
  pub anew : (cp : Checkpoint) → place ≡ some cp → s.In at' r' cp
  pub kept : NoLoss s at r at' r'

-- Where a turn ends, its message has been sent.
sent_to :
    (t : OutputThread) (e : Turned) (o : Option Sent)
    → after_send t o ≡ some e
    → (s : Sent) × (o ≡ some s) × (record t { plugin = s.0 } ≡ e.thread)
sent_to t e none h = cc
sent_to t e (some s) h = (s, refl, ap (λ (e' : Turned). e'.thread) (some-injective _ _ h))

-- Sending leaves the readers as they are.
sent_readers :
    (t : OutputThread) (e : Turned) (o : Option Sent)
    → after_send t o ≡ some e
    → (e.thread.input ≡ t.input) × (e.thread.analysis ≡ t.analysis)
sent_readers t e o h =
    let (s, done, is) = sent_to t e o h in
    subst (λ (t' : OutputThread). (t'.input ≡ t.input) × (t'.analysis ≡ t.analysis)) is (refl, refl)

module _ (si sa : Side) where
  -- What is known of the thread: of both readers, and of every checkpoint of the plugin.
  pub record IsSafe (t : OutputThread) (i : si.Place) (a : sa.Place) : Type 0 where
    pub input : si.Holds i t.input
    pub analysis : sa.Holds a t.analysis
    pub places : Everywhere (si.In i t.input) (sa.In a t.analysis) t.plugin

  -- The thread is safe, at places that follow from those of a thread before it.
  abbrev pub StaysSafe : OutputThread → si.Place → sa.Place → OutputThread → Type 0
  StaysSafe t i a t' =
      (i' : si.Place) × (a' : sa.Place) × IsSafe t' i' a'
      × Leaves si i t.input i' t'.input
      × Leaves sa a t.analysis a' t'.analysis

  pub map-Everywhere :
      (P P' Q Q' : Checkpoint → Type 0) (p : OutputPlugin)
      → ((cp : Checkpoint) → P cp → P' cp)
      → ((cp : Checkpoint) → Q cp → Q' cp)
      → Everywhere P Q p
      → Everywhere P' Q' p
  map-Everywhere P P' Q Q' p f g h = record {
    cp = (f p.cp.input h.cp.0, g p.cp.analysis h.cp.1);
    cur = (f p.cur.input h.cur.0, g p.cur.analysis h.cur.1);
    ring = λ n x e. (f x.input (h.ring n x e).0, g x.analysis (h.ring n x e).1);
  }

  -- Where the plugin sends, its checkpoints are taken from those it has.
  sent-StaysSafe :
      (t : OutputThread) (i : si.Place) (a : sa.Place) (x : Turn) (stop sample : Bool) (e : Turned)
      → IsSafe t i a
      → after_send t (send t.plugin stop sample x.current_t x.answers x.attempts) ≡ some e
      → StaysSafe t i a e.thread
  sent-StaysSafe t i a x stop sample e safe h =
      let (s, done, is) =
        sent_to t e (send t.plugin stop sample x.current_t x.answers x.attempts) h in
      let places =
        send_keeps (Everywhere (si.In i t.input) (sa.In a t.analysis))
          (Everywhere-IsKept (si.In i t.input) (sa.In a t.analysis)) t.plugin stop sample
          x.current_t x.answers x.attempts s safe.places done in
      subst (λ (t' : OutputThread). StaysSafe t i a t') is
        (
          i,
          a,
          record { input = safe.input; analysis = safe.analysis; places = places },
          inr (refl, refl),
          inr (refl, refl),
        )

  -- A message is taken off one queue, and the other is as it was.
  taken_input :
      (t : OutputThread) (i : si.Place) (a : sa.Place) (t' : OutputThread)
      → StaysSafe (take_input t) (si.taken i) a t'
      → t'.input ≡ (take_input t).input
      → StaysSafe t i a t'
  unfolding take_input
  taken_input t i a t' (i', a', safe, _, kept) same =
      (i', a', safe, inl (ap (λ (r : Reader). r.found) same), kept)

  taken_analysis :
      (t : OutputThread) (i : si.Place) (a : sa.Place) (t' : OutputThread)
      → StaysSafe (take_analysis t) i (sa.taken a) t'
      → t'.analysis ≡ (take_analysis t).analysis
      → StaysSafe t i a t'
  unfolding take_analysis
  taken_analysis t i a t' (i', a', safe, kept, _) same =
      (i', a', safe, kept, inl (ap (λ (r : Reader). r.found) same))

  pub send_oldest-StaysSafe :
      (t : OutputThread) (i : si.Place) (a : sa.Place) (x : Turn) (stop sample : Bool) (e : Turned)
      (c : Choice)
      → IsSafe t i a
      → send_oldest x stop sample t c ≡ some e
      → StaysSafe t i a e.thread
  unfolding send_oldest take_input take_analysis
  send_oldest-StaysSafe t i a x stop sample e from_input safe h =
      let moved =
        map-Everywhere (si.In i t.input) (si.In (si.taken i) (without_found t.input))
          (sa.In a t.analysis) (sa.In a t.analysis) t.plugin
          (λ cp. si.taken-In i t.input cp safe.input) (λ cp h. h) safe.places in
      taken_input t i a e.thread
        (sent-StaysSafe (take_input t) (si.taken i) a x stop sample e
          (record {
            input = si.taken-Holds i t.input safe.input;
            analysis = safe.analysis;
            places = record {
              cp = moved.cp;
              cur = (si.here-In i t.input safe.input, moved.cur.1);
              ring = moved.ring;
            };
          })
          h)
        (sent_readers (take_input t) e _ h).0
  send_oldest-StaysSafe t i a x stop sample e from_analysis safe h =
      let moved =
        map-Everywhere (si.In i t.input) (si.In i t.input) (sa.In a t.analysis)
          (sa.In (sa.taken a) (without_found t.analysis)) t.plugin (λ cp h. h)
          (λ cp. sa.taken-In a t.analysis cp safe.analysis) safe.places in
      taken_analysis t i a e.thread
        (sent-StaysSafe (take_analysis t) i (sa.taken a) x stop sample e
          (record {
            input = safe.input;
            analysis = sa.taken-Holds a t.analysis safe.analysis;
            places = record {
              cp = moved.cp;
              cur = (moved.cur.0, sa.here-In a t.analysis safe.analysis);
              ring = moved.ring;
            };
          })
          h)
        (sent_readers (take_analysis t) e _ h).1
  send_oldest-StaysSafe t i a x stop sample e nothing safe h =
      let (p, _) = output_message t.plugin false sample x.current_t x.answers in
      let places =
        output_message_keeps (Everywhere (si.In i t.input) (sa.In a t.analysis))
          (Everywhere-IsKept (si.In i t.input) (sa.In a t.analysis)) t.plugin false sample
          x.current_t x.answers safe.places in
      subst (λ (e' : Turned). StaysSafe t i a e'.thread) (some-injective _ _ h)
        (if-both (StaysSafe t i a) (t.input.bytes_read == 0 && t.analysis.bytes_read == 0)
          (λ _. (
            i,
            a,
            record { input = safe.input; analysis = safe.analysis; places = places },
            inr (refl, refl),
            inr (refl, refl),
          ))
          (λ _. (i, a, safe, inr (refl, refl), inr (refl, refl))))
