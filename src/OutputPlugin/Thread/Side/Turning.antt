-- ===== src/OutputPlugin/Thread/Side/Turning.antt =====
-- What a turn of an output plugin's thread keeps of its two queues, from what its steps keep of each.
use mathlib.Core.Path.{subst}
use hindsight.Base.{◌≡◌, inl, inr, refl, sym, Option, none, some, if-eq}
use hindsight.Base.Run.{ok, >>=-eq-ok, ok-injective}
use hindsight.Checkpoint.{Checkpoint}
use hindsight.CheckpointReader.{Table}
use hindsight.CheckpointWriter.{reads_input, reads_analysis}
use hindsight.QueueReader.{Framing, Queue, Reader}
use hindsight.OutputPlugin.Advance.Everywhere.{Everywhere, Everywhere-IsKept}
use hindsight.OutputPlugin.Thread.{
  OutputThread, Turn, Turned, oldest, changed, follow_queue, read_input, read_analysis,
  restart_input, restart_analysis, turn,
}
use hindsight.OutputPlugin.Thread.Sending.{changed_keeps}
use hindsight.OutputPlugin.Thread.Side.{
  Side, Advanced, NoLoss, NoLoss-Leaves, IsSafe, map-Everywhere, send_oldest-StaysSafe,
}

module _ (si sa : Side) where
  restarted_input-IsSafe :
      (t : OutputThread) (i : si.Place) (a : sa.Place) (r : Reader) (place : Option Checkpoint)
      → IsSafe si sa t i a
      → (next : Advanced si i t.input r place)
      → IsSafe si sa (record t { plugin = restart_input place t.plugin; input = r }) next.at' a
  unfolding restart_input
  restarted_input-IsSafe t i a r none safe next = record {
    input = next.holds;
    analysis = safe.analysis;
    places =
        map-Everywhere si sa (si.In i t.input) (si.In next.at' r) (sa.In a t.analysis)
          (sa.In a t.analysis) t.plugin next.onward (λ cp h. h) safe.places;
  }
  restarted_input-IsSafe t i a r (some cp) safe next =
      let new = next.anew cp refl in
      let moved =
        map-Everywhere si sa (si.In i t.input) (si.In next.at' r) (sa.In a t.analysis)
          (sa.In a t.analysis) t.plugin next.onward (λ cp h. h) safe.places in
      record {
        input = next.holds;
        analysis = safe.analysis;
        places = record {
          cp = (new, safe.places.cp.1);
          cur = (new, safe.places.cur.1);
          ring = moved.ring;
        };
      }

  restarted_analysis-IsSafe :
      (t : OutputThread) (i : si.Place) (a : sa.Place) (r : Reader) (place : Option Checkpoint)
      → IsSafe si sa t i a
      → (next : Advanced sa a t.analysis r place)
      → IsSafe si sa
          (record t { plugin = restart_analysis place t.plugin; analysis = r })
          i
          next.at'
  unfolding restart_analysis
  restarted_analysis-IsSafe t i a r none safe next = record {
    input = safe.input;
    analysis = next.holds;
    places =
        map-Everywhere si sa (si.In i t.input) (si.In i t.input) (sa.In a t.analysis)
          (sa.In next.at' r) t.plugin (λ cp h. h) next.onward safe.places;
  }
  restarted_analysis-IsSafe t i a r (some cp) safe next =
      let new = next.anew cp refl in
      let moved =
        map-Everywhere si sa (si.In i t.input) (si.In i t.input) (sa.In a t.analysis)
          (sa.In next.at' r) t.plugin (λ cp h. h) next.onward safe.places in
      record {
        input = safe.input;
        analysis = next.holds;
        places = record {
          cp = (safe.places.cp.0, new);
          cur = (safe.places.cur.0, new);
          ring = moved.ring;
        };
      }

  module _ {Number : Type 0} (fr : Framing) (table : Table Number) (q_input q_analysis : Queue)
      (x : Turn) where
    -- What the step for the input queue makes of its reader; and the one for the other queue.
    abbrev pub InputSteps : si.Place → Reader → Type 0
    InputSteps i r =
        (r' : Reader) (place : Option Checkpoint)
        → follow_queue fr table x.disk q_input x.current_t x.most_input r r.input.fh r.found
          ≡ ok (r', place)
        → Advanced si i r r' place

    abbrev pub AnalysisSteps : sa.Place → Reader → Type 0
    AnalysisSteps a r =
        (r' : Reader) (place : Option Checkpoint)
        → follow_queue fr table x.disk q_analysis x.current_t x.most_analysis r r.input.fh r.found
          ≡ ok (r', place)
        → Advanced sa a r r' place

    read_input-IsSafe :
        (t t' : OutputThread) (i : si.Place) (a : sa.Place)
        → IsSafe si sa t i a
        → InputSteps i t.input
        → read_input fr table q_input q_analysis x t ≡ ok t'
        → (i' : si.Place) × IsSafe si sa t' i' a
          × NoLoss si i t.input i' t'.input
          × (t.analysis ≡ t'.analysis)
    unfolding read_input
    read_input-IsSafe t t' i a safe steps e = elim (if-eq (reads_input t.plugin) e) [
      | inl (reads, e1) ↦
          let ((r, place), stepped, is) =
            >>=-eq-ok
              (follow_queue fr table x.disk q_input x.current_t x.most_input t.input
                t.input.input.fh t.input.found)
              _ e1 in
          let next = steps r place stepped in
          subst
            (λ (u : OutputThread).
              (i' : si.Place) × IsSafe si sa u i' a
              × NoLoss si i t.input i' u.input
              × (t.analysis ≡ u.analysis))
            (ok-injective is)
            (next.at', restarted_input-IsSafe t i a r place safe next, next.kept, refl)
      | inr (unread, e1) ↦
          subst
            (λ (u : OutputThread).
              (i' : si.Place) × IsSafe si sa u i' a
              × NoLoss si i t.input i' u.input
              × (t.analysis ≡ u.analysis))
            (ok-injective e1) (i, safe, inr refl, refl)
    ]

    read_analysis-IsSafe :
        (t t' : OutputThread) (i : si.Place) (a : sa.Place)
        → IsSafe si sa t i a
        → AnalysisSteps a t.analysis
        → read_analysis fr table q_input q_analysis x t ≡ ok t'
        → (a' : sa.Place) × IsSafe si sa t' i a'
          × NoLoss sa a t.analysis a' t'.analysis
          × (t.input ≡ t'.input)
    unfolding read_analysis
    read_analysis-IsSafe t t' i a safe steps e = elim (if-eq (reads_analysis t.plugin) e) [
      | inl (reads, e1) ↦
          let ((r, place), stepped, is) =
            >>=-eq-ok
              (follow_queue fr table x.disk q_analysis x.current_t x.most_analysis t.analysis
                t.analysis.input.fh t.analysis.found)
              _ e1 in
          let next = steps r place stepped in
          subst
            (λ (u : OutputThread).
              (a' : sa.Place) × IsSafe si sa u i a'
              × NoLoss sa a t.analysis a' u.analysis
              × (t.input ≡ u.input))
            (ok-injective is)
            (next.at', restarted_analysis-IsSafe t i a r place safe next, next.kept, refl)
      | inr (unread, e1) ↦
          subst
            (λ (u : OutputThread).
              (a' : sa.Place) × IsSafe si sa u i a'
              × NoLoss sa a t.analysis a' u.analysis
              × (t.input ≡ u.input))
            (ok-injective e1) (a, safe, inr refl, refl)
    ]

    pub turn-StaysSafe :
        (t : OutputThread) (e : Turned) (i : si.Place) (a : sa.Place)
        → IsSafe si sa t i a
        → InputSteps i t.input
        → AnalysisSteps a t.analysis
        → turn fr table q_input q_analysis x t ≡ ok (some e)
        → (i' : si.Place) × (a' : sa.Place) × IsSafe si sa e.thread i' a'
          × NoLoss si i t.input i' e.thread.input
          × NoLoss sa a t.analysis a' e.thread.analysis
    unfolding turn
    turn-StaysSafe t e i a safe steps_i steps_a h =
        let p = changed x.stop x.sample t.plugin in
        let here = record t { plugin = p } in
        let start : IsSafe si sa here i a = record {
          input = safe.input;
          analysis = safe.analysis;
          places =
              changed_keeps (Everywhere (si.In i t.input) (sa.In a t.analysis))
                (Everywhere-IsKept (si.In i t.input) (sa.In a t.analysis)) x.stop x.sample t.plugin
                safe.places;
        } in
        let (t1, read1, rest) = >>=-eq-ok (read_input fr table q_input q_analysis x here) _ h in
        let (t2, read2, end) = >>=-eq-ok (read_analysis fr table q_input q_analysis x t1) _ rest in
        let (i', safe1, in_input, same_analysis) =
          read_input-IsSafe here t1 i a start steps_i read1 in
        let (a', safe2, in_analysis, same_input) =
          read_analysis-IsSafe t1 t2 i' a safe1
            (subst (λ (r : Reader). AnalysisSteps a r) same_analysis steps_a) read2 in
        let (i'', a'', safe3, left_input, left_analysis) =
          send_oldest-StaysSafe si sa t2 i' a' x p.stop p.sample e
            (oldest t2.input.found t2.analysis.found) safe2 (ok-injective end) in
        (
          i'',
          a'',
          safe3,
          NoLoss-Leaves si i i' i'' t.input t2.input e.thread.input
              (subst (λ (r : Reader). NoLoss si i t.input i' r) same_input in_input) left_input,
          NoLoss-Leaves sa a a' a'' t.analysis t2.analysis e.thread.analysis
              (subst (λ (r : Reader). NoLoss sa a r a' t2.analysis) (sym same_analysis) in_analysis)
              left_analysis,
        )
