-- ===== src/QueueReader/Standing.antt =====
-- Where a reader stands in its queue, and that following the queue keeps it standing there.
use mathlib.Core.Path.{subst}
use mathlib.Core.Option.{some-injective}
use hindsight.Base.{
  ℕ, ◌+◌, ◌^◌, ◌≤◌, ◌<◌, ◌≡◌, inl, inr, refl, sym, ◌∙◌, true, Option, none, some, [], ◌++◌, arith,
  length, Bool-cases,
}
use hindsight.Base.Run.{ok, >>=-eq-ok, ok-injective}
use hindsight.Disk.{Disk}
use hindsight.Input.{Handle, Input}
use hindsight.Input.Place.{unread}
use hindsight.QueueReader.{
  Message, Framing, Queue, Reader, find_or_read, is_at_end, Pace, unless_found, follow,
}
use hindsight.QueueReader.Stream.{rest_of_file, stream, IsWhole}
use hindsight.QueueReader.Opening.{IsPlaced}
use hindsight.QueueReader.NextFile.{IsQueue, go_on-Goes}
use hindsight.QueueReader.Refine.{IsFraming, or_read-Reads, follow_lem}
use hindsight.QueueReader.Whole.{find_or_read-IsWhole}

-- A reader's file is that of its place, with a number up to the last one, and its buffer is whole.
pub record Stands (d : Disk) (q : Queue) (top : ℕ) (input : Input) (fh : Handle) : Type 0 where
  pub placed : IsPlaced q input fh
  pub whole : IsWhole d input fh
  pub within : input.cp.id ≤ top

-- The files consist of whole messages: at the end of one, the buffer has nothing left.
unfoldable pub EndsWhole : Framing → Queue → Disk → ℕ → Reader → Handle → Type 0
EndsWhole fr q d most r fh =
    (r1 : Reader)
    → find_or_read fr d most r fh ≡ ok r1
    → r1.found ≡ none
    → is_at_end q r1 ≡ true
    → unread r1.input.ib ≡ []

same_handle :
    (q : Queue) (input : Input) (fh fh' : Handle)
    → IsPlaced q input fh
    → IsPlaced q input fh'
    → fh ≡ fh'
same_handle q input fh fh' a b = some-injective _ _ (sym a.handle ∙ b.handle)

module _ (d : Disk) (q : Queue) (top : ℕ) (queue : IsQueue d q top) (fr : Framing)
    (framing : IsFraming fr) where
  abbrev Kept : Reader → Type 0
  Kept r = (fh : Handle) × IsPlaced q r.input fh × IsWhole d r.input fh

  unless_found-Kept :
      (pace : Pace) (most : ℕ) (r r1 r' : Reader) (fh fh1 : Handle) (found : Option Message)
      → r1.found ≡ found
      → IsPlaced q r1.input fh1
      → IsWhole d r1.input fh1
      → r1.input.cp.id ≤ top
      → (r1.found ≡ none → r1.bytes_read ≡ 0 → rest_of_file d fh1 ≡ [])
      → (r1.found ≡ none → is_at_end q r1 ≡ true → unread r1.input.ib ≡ [])
      → unless_found d q pace r1 found ≡ ok r'
      → Kept r'
  unfolding unless_found
  unless_found-Kept pace most r r1 r' fh fh1 (some msg) is placed whole le drained ends e =
      subst Kept (ok-injective e) (fh1, placed, whole)
  unless_found-Kept pace most r r1 r' fh fh1 none is placed whole le drained ends e =
      elim (Bool-cases (is_at_end q r1)) [
        | inl at_end ↦
            let nothing : r1.bytes_read ≡ 0 = ground (arith, at_end) in
            let (fh', goes) =
              go_on-Goes d q top queue pace r1 r' fh1 placed le (drained is nothing)
                (rw (at_end) at e) in
            (fh', goes.placed, goes.whole (ends is at_end) whole)
        | inr further ↦ subst Kept (ok-injective (rw (further) at e)) (fh1, placed, whole)
      ]

  follow-Kept :
      (pace : Pace) (most : ℕ) (r r' : Reader) (fh : Handle)
      → Stands d q top r.input fh
      → 0 < most
      → fh.position + length (rest_of_file d fh) < 2 ^ 64
      → EndsWhole fr q d most r fh
      → follow fr d q pace most r fh ≡ ok r'
      → Kept r'
  unfolding follow EndsWhole find_or_read
  follow-Kept pace most r r' fh stands pos small ends e =
      let (r1, reads, rest) = >>=-eq-ok (find_or_read fr d most r fh) _ e in
      let (fh1, placed1, whole1) =
        find_or_read-IsWhole fr framing q d most r r1 fh stands.placed stands.whole small reads in
      let reading =
        or_read-Reads d q top queue fr framing r r1 fh most (fr.find r.input.ib) refl stands.placed
          pos small reads in
      let same = same_handle q r1.input reading.fh' fh1 reading.placed placed1 in
      unless_found-Kept pace most r r1 r' fh fh1 r1.found refl placed1 whole1
        (rw (reading.number) stands.within) (λ a b. rw (sym same) (reading.drained a b))
        (ends r1 reads) rest

  -- After following, the reader stands in the queue again, and the bytes before it are those it had
  -- before it, without the ones that the search took.
  pub follow-Stands :
      (pace : Pace) (most : ℕ) (r r' : Reader) (fh : Handle)
      → Stands d q top r.input fh
      → 0 < most
      → fh.position + length (rest_of_file d fh) < 2 ^ 64
      → EndsWhole fr q d most r fh
      → follow fr d q pace most r fh ≡ ok r'
      → (fh' : Handle) × Stands d q top r'.input fh'
        × (stream d q top r.input fh
            ≡ (framing.consumes r.input.ib).0 ++ stream d q top r'.input fh')
  follow-Stands pace most r r' fh stands pos small ends e =
      let (fh1, placed1, whole1) = follow-Kept pace most r r' fh stands pos small ends e in
      let (fh', placed', within', same) =
        follow_lem d q top queue fr framing pace r r' fh most stands.placed stands.within pos small
          e in
      let is = same_handle q r'.input fh1 fh' placed1 placed' in
      (
        fh',
        record {
          placed = placed';
          whole = subst (λ (x : Handle). IsWhole d r'.input x) is whole1;
          within = within';
        },
        same,
      )
