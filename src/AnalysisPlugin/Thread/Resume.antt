-- ===== src/AnalysisPlugin/Thread/Resume.antt =====
-- The checkpoint of an analysis thread is the place from which its queue can be read again.
use mathlib.Core.Path.{subst}
use hindsight.Base.{
  ℕ, ◌≡◌, inl, inr, refl, sym, ap, ◌∙◌, Option, none, some, ◌++◌, ◌==◌, Bool-cases,
}
use hindsight.Base.Run.{ok, >>=-eq-ok, ok-injective}
use hindsight.CString.{Bytes}
use hindsight.Disk.{Disk}
use hindsight.CheckpointReader.{Table}
use hindsight.Inject.{QueueConfig}
use hindsight.Input.{InputBuffer, Handle}
use hindsight.Input.Place.{unread}
use hindsight.QueueReader.{
  Message, Framing, Queue, Reader, every_round, follow, find_or_read, or_read, unless_found,
  scanned,
}
use hindsight.QueueReader.Stream.{stream, IsWhole}
use hindsight.QueueReader.Opening.{IsPlaced}
use hindsight.QueueReader.Refine.{IsPlaced-buffer}
use hindsight.QueueReader.Whole.{
  from_checkpoint, from_checkpoint-scanned, IsWhole-search, stream_used,
}
use hindsight.AnalysisPlugin.Analyze.{Library, Clock, analyze_message}
use hindsight.AnalysisPlugin.Thread.{
  ThreadState, cp_after, give, advance_checkpoint, handle_found, read_or_wait, round,
}

module _ {Sandbox Stats Running Number : Type 0} (varint : ℕ → Bytes) (cfg : QueueConfig)
    (run_path : Bytes) (lib : Library Sandbox Stats Running) (clock : Clock) (fr : Framing)
    (q : Queue) (table : Table Number) where
  abbrev State : Type 0
  State = ThreadState Sandbox Stats Running

  -- What is delivered leaves the reader's input as it is, and moves the checkpoint by what was found.
  handle_found_lem :
      (msg : Option Message) (current_t : ℕ) (t t' : State)
      → handle_found varint cfg run_path lib clock fr q table msg current_t t ≡ ok t'
      → (t'.reader.input ≡ t.reader.input) × (t'.cp ≡ cp_after msg t.reader t.cp)
  unfolding handle_found give advance_checkpoint scanned
  handle_found_lem (some msg) current_t t t' e =
      let (t1, given, is) =
        >>=-eq-ok (give varint cfg run_path lib clock fr q table (some msg) current_t t) _ e in
      let ((w, at), _, same) =
        >>=-eq-ok
          (analyze_message varint cfg run_path lib clock t.sample (some msg) current_t t.world
            t.plugins)
          _ given in
      let kept : t.reader ≡ t1.reader = ap (λ (x : State). x.reader) (ok-injective same) in
      (
        sym (ap (λ (x : State). x.reader.input) (ok-injective is))
            ∙ sym (ap (λ (r : Reader). r.input) kept),
        sym (ap (λ (x : State). x.cp) (ok-injective is)) ∙ sym (ap scanned kept),
      )
  handle_found_lem none current_t t t' e = elim (Bool-cases (t.reader.bytes_read == 0)) [
    | inl idle ↦
        let ((w, at), _, same) =
          >>=-eq-ok
            (analyze_message varint cfg run_path lib clock t.sample none current_t t.world
              t.plugins)
            _ (rw (idle) at e) in
        subst (λ (x : State). (x.reader.input ≡ t.reader.input) × (x.cp ≡ t.cp)) (ok-injective same)
          (refl, refl)
    | inr busy ↦
        subst (λ (x : State). (x.reader.input ≡ t.reader.input) × (x.cp ≡ t.cp))
          (ok-injective (rw (busy) at e)) (refl, refl)
  ]

  follow_found :
      (r r' : Reader) (fh : Handle) (d : Disk) (most : ℕ) (ib : InputBuffer) (msg : Message)
      → fr.find r.input.ib ≡ (ib, some msg)
      → follow fr d q every_round most r fh ≡ ok r'
      → record r { input = record r.input { ib = ib }; found = some msg } ≡ r'
  unfolding follow find_or_read or_read unless_found
  follow_found r r' fh d most ib msg at e = ok-injective (rw (at) at e)

  -- A thread reads an open file at the place of its checkpoint, and the bytes of its buffer that were
  -- not scanned are those in front of that place. In a round that finds a message and returns, the
  -- new checkpoint is the end of what the search has taken: when the queue is opened there again, its
  -- bytes are those that came behind the message, none lost and none repeated. The buffer and the
  -- file are again as described.
  pub round-checkpoint :
      (d : Disk) (top most current_t : ℕ) (t t' : State) (fh : Handle) (ib : InputBuffer)
      (msg : Message) (used : Bytes)
      → t.world.disk ≡ d
      → IsPlaced q t.reader.input fh
      → IsWhole d t.reader.input fh
      → fr.find t.reader.input.ib ≡ (ib, some msg)
      → unread t.reader.input.ib ≡ used ++ unread ib
      → round varint cfg run_path lib clock fr q table most current_t t ≡ ok t'
      → (stream d q top t.reader.input fh ≡ used ++ from_checkpoint d q top t'.cp)
        × (stream d q top t'.reader.input fh ≡ from_checkpoint d q top t'.cp)
        × IsPlaced q t'.reader.input fh
        × IsWhole d t'.reader.input fh
  unfolding round read_or_wait
  round-checkpoint d top most current_t t t' fh ib msg used disk placed whole at taken e =
      let (t1, read, given) =
        >>=-eq-ok (read_or_wait varint cfg run_path lib clock fr q table most t t.reader.input.fh) _
          e in
      let (r, followed, is) = >>=-eq-ok (follow fr t.world.disk q every_round most t.reader fh) _ (
        subst
          (λ (o : Option Handle).
            read_or_wait varint cfg run_path lib clock fr q table most t o ≡ ok t1)
          placed.handle read) in
      let here = follow_found t.reader r fh t.world.disk most ib msg at followed in
      let stands : t1 ≡ record t { reader = r } = sym (ok-injective is) in
      let (input_kept, cp_moved) = handle_found_lem t1.reader.found current_t t1 t' given in
      let r0 = record t.reader { input = record t.reader.input { ib = ib }; found = some msg } in
      let reader1 : t1.reader ≡ r0 = ap (λ (x : State). x.reader) stands ∙ sym here in
      let input' : t'.reader.input ≡ r0.input = input_kept ∙ ap (λ (x : Reader). x.input) reader1 in
      let cp' : t'.cp ≡ scanned r0 =
        cp_moved ∙ ap (λ (x : Reader). cp_after x.found x t1.cp) reader1 in
      let placed' = IsPlaced-buffer q t.reader.input fh ib placed in
      let whole' = IsWhole-search d t.reader.input fh ib used taken whole in
      let resume = from_checkpoint-scanned d q top r0 fh placed' whole' in
      rw (cp', input', resume)
        (stream_used d q top t.reader.input fh ib used taken, refl, placed', whole')
