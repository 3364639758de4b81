-- ===== src/OutputPlugin/Thread/Resume.antt =====
-- From the checkpoints of an output plugin its queues can be read again without a gap: a turn of its
-- thread keeps each of them behind what the plugin has still before it.
use mathlib.Core.List.{append_assoc}
use mathlib.Core.Path.{subst}
use hindsight.Base.{
  ℕ, ◌+◌, ◌^◌, ◌<◌, ◌≡◌, ◌⊎◌, inl, inr, refl, Option, none, some, [], ◌++◌, length, Option-cases,
}
use hindsight.Base.Run.{ok, >>=-eq-ok, ok-injective}
use hindsight.CString.{Bytes}
use hindsight.Disk.{Disk}
use hindsight.Checkpoint.{Checkpoint}
use hindsight.CheckpointReader.{Table}
use hindsight.Input.{Handle}
use hindsight.QueueReader.{Message, Framing, Queue, Reader, once_a_second, follow}
use hindsight.QueueReader.Stream.{rest_of_file, stream}
use hindsight.QueueReader.NextFile.{IsQueue}
use hindsight.QueueReader.Refine.{IsFraming}
use hindsight.QueueReader.Whole.{from_checkpoint, from_checkpoint-scanned}
use hindsight.QueueReader.Standing.{Stands, EndsWhole, follow-Stands}
use hindsight.OutputPlugin.Thread.{follow_queue}
use hindsight.OutputPlugin.Thread.Side.{Side, Advanced}

-- Where a reader is: its open file, and the bytes of the message that is held back.
pub record At : Type 0 where
  pub fh : Handle
  pub held : Bytes

module _ (d : Disk) (q : Queue) (top : ℕ) where
  -- A queue that is opened at the checkpoint has, perhaps behind other bytes, those of the message that
  -- is held back and all that the reader has before it.
  abbrev pub Rereads : At → Reader → Checkpoint → Type 0
  Rereads at r cp =
      (u : Bytes) × (from_checkpoint d q top cp ≡ u ++ (at.held ++ stream d q top r.input at.fh))

  -- The reader stands in its queue, and holds bytes back only for a message that it has found.
  pub record IsReading (at : At) (r : Reader) : Type 0 where
    pub stands : Stands d q top r.input at.fh
    pub free : r.found ≡ none → at.held ≡ []

  -- What is known of a queue of which a file is open.
  abbrev pub reading : Side
  reading = record {
    Place = At;
    Holds = IsReading;
    In = Rereads;
    taken = λ at. record at { held = [] };
    taken-Holds = λ at r h. record { stands = h.stands; free = λ _. refl };
    taken-In = λ at r cp h (u, e). (u ++ at.held, rw (e, append_assoc) refl);
    ahead = λ at r. at.held ++ stream d q top r.input at.fh;
    here-In =
        λ at r h. ([], from_checkpoint-scanned d q top r at.fh h.stands.placed h.stands.whole);
  }

  -- What a search or a read leaves, by whether a message was found.
  found_or_not :
      (at : At) (r r' : Reader) (fh' : Handle) (used : Bytes)
      → at.held ≡ []
      → Stands d q top r'.input fh'
      → stream d q top r.input at.fh ≡ used ++ stream d q top r'.input fh'
      → (r'.found ≡ none) ⊎ ((msg : Message) × (r'.found ≡ some msg))
      → Advanced reading at r r' none
  found_or_not at r r' fh' used free stands same (inl none_found) = record {
    at' = record { fh = fh'; held = [] };
    holds = record { stands = stands; free = λ _. refl };
    onward = λ cp (u, e). (u ++ used, rw (e, free, same, append_assoc) refl);
    anew = λ cp f. cc;
    kept = inl none_found;
  }
  found_or_not at r r' fh' used free stands same (inr (msg, found)) = record {
    at' = record { fh = fh'; held = used };
    holds = record { stands = stands; free = λ n. cc (n, found) };
    onward = λ cp (u, e). (u, rw (e, free, same) refl);
    anew = λ cp f. cc;
    kept = inr (rw (free, same) refl);
  }

  module _ (queue : IsQueue d q top) (fr : Framing) (framing : IsFraming fr) {Number : Type 0}
      (table : Table Number) (current_t most : ℕ) where
    reading_step :
        (at : At) (r r' : Reader) (place : Option Checkpoint) (found : Option Message)
        → IsReading at r
        → 0 < most
        → at.fh.position + length (rest_of_file d at.fh) < 2 ^ 64
        → EndsWhole fr q d most r at.fh
        → r.found ≡ found
        → follow_queue fr table d q current_t most r (some at.fh) found ≡ ok (r', place)
        → Advanced reading at r r' place
    unfolding follow_queue
    reading_step at r r' place (some msg) h pos small ends is e =
        subst (λ (s : Reader × Option Checkpoint). Advanced reading at r s.0 s.1) (ok-injective e)
          (record { at' = at; holds = h; onward = λ cp k. k; anew = λ cp f. cc; kept = inr refl })
    reading_step at r r' place none h pos small ends is e =
        let (r1, followed, same) =
          >>=-eq-ok (follow fr d q (once_a_second current_t) most r at.fh) _ e in
        let (fh', stands, taken) =
          follow-Stands d q top queue fr framing (once_a_second current_t) most r r1 at.fh h.stands
            pos small ends followed in
        subst (λ (s : Reader × Option Checkpoint). Advanced reading at r s.0 s.1)
          (ok-injective same)
          (found_or_not at r r1 fh' (framing.consumes r.input.ib).0 (h.free is) stands taken
            (Option-cases r1.found))

    pub reading_steps :
        (at : At) (r r' : Reader) (place : Option Checkpoint)
        → IsReading at r
        → 0 < most
        → at.fh.position + length (rest_of_file d at.fh) < 2 ^ 64
        → EndsWhole fr q d most r at.fh
        → follow_queue fr table d q current_t most r r.input.fh r.found ≡ ok (r', place)
        → Advanced reading at r r' place
    reading_steps at r r' place h pos small ends e =
        reading_step at r r' place r.found h pos small ends refl (
          subst
            (λ (o : Option Handle).
              follow_queue fr table d q current_t most r o r.found ≡ ok (r', place))
            h.stands.placed.handle e)
