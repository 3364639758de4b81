-- ===== src/QueueReader/Refine.antt =====
-- A reader that follows a queue takes the bytes of its files one after another, as of one stream.
use mathlib.Core.List.{append_assoc}
use mathlib.Core.Path.{subst}
use hindsight.Base.{
  ℕ, zero, suc, ◌+◌, ◌-◌, ◌^◌, ◌≤◌, ◌<◌, ◌≡◌, inl, inr, refl, sym, ap, ◌∙◌, Option, none, some, [],
  ◌∷◌, ◌++◌, arith, ltb, if◌then◌else◌, length, drop, take, Bool-cases, Option-cases,
}
use hindsight.Base.Run.{absurd_ok, ok, exit_failure, >>=-eq-ok, ok-injective}
use hindsight.CString.{Bytes}
use hindsight.Disk.{Disk, bytes_of}
use hindsight.Input.{InputBuffer, Handle, Input, read_file, read_into, needed, filled}
use hindsight.Input.Place.{KeepsUnread, unread, drop-append_within, took-left, length-took}
use hindsight.QueueReader.{
  Message, Framing, Queue, Reader, or_read, find_or_read, is_at_end, Pace, unless_found, follow,
}
use hindsight.QueueReader.Stream.{files, rest_of_file, stream}
use hindsight.QueueReader.Opening.{IsPlaced}
use hindsight.QueueReader.NextFile.{IsQueue, go_on-Goes}

-- What the library documents: a search takes bytes from the front of those that were not scanned, and
-- where it finds no message it needs more bytes; making room for a number of bytes keeps those that
-- were not scanned.
pub record IsFraming (fr : Framing) : Type 0 where
  pub consumes : (ib : InputBuffer) → (used : Bytes) × (unread ib ≡ used ++ unread (fr.find ib).0)
  pub keeps : KeepsUnread fr.expand
  pub room :
      (ib : InputBuffer) (n : ℕ) (ib' : InputBuffer)
      → fr.expand ib n ≡ some ib'
      → length ib'.buf + n ≤ ib'.size
  pub waits :
      (ib : InputBuffer) → (fr.find ib).1 ≡ none → 0 < needed fr.hdr_frame_size (fr.find ib).0

-- What a fill does, in terms of its result.
filled-buffer :
    (content : Bytes) (most : ℕ) (hsi : Input) (ib : InputBuffer) (fh : Handle)
    → ib.scanpos ≤ length ib.buf
    → unread (filled content most hsi ib fh).0.ib
        ++ drop (fh.position + (filled content most hsi ib fh).1) content
      ≡ unread ib ++ drop fh.position content
unfolding filled
filled-buffer content most hsi ib fh within =
    let room = ib.size - length ib.buf in
    let n = if ltb most room then most else room in
    rw
      (
        drop-append_within ib.scanpos ib.buf (take n (drop fh.position content)) within,
        append_assoc,
        took-left n fh.position content,
      )
      refl

-- A stream of which a part is used and another part comes into the buffer.
regroup :
    (all used left more part part' tail : Bytes)
    → all ≡ used ++ left
    → more ++ part' ≡ left ++ part
    → all ++ (part ++ tail) ≡ used ++ (more ++ (part' ++ tail))
regroup all used left more part part' tail taken moved =
    let e : left ++ (part ++ tail) ≡ more ++ (part' ++ tail) =
      sym (append_assoc left part tail)
      ∙ ap (λ (t : Bytes). t ++ tail) (sym moved)
      ∙ append_assoc more part' tail in
    rw (taken, append_assoc) (ap (λ (t : Bytes). used ++ t) e)

took_nothing : (n : ℕ) (xs : Bytes) → 0 < n → length (take n xs) ≡ 0 → xs ≡ []
took_nothing zero xs pos h = absurd (omega arith)
took_nothing (suc n) [] pos h = refl
took_nothing (suc n) (x ∷ xs) pos h = absurd (omega arith)

filled_nothing :
    (content : Bytes) (most : ℕ) (hsi : Input) (ib : InputBuffer) (fh : Handle)
    → 0 < most
    → length ib.buf < ib.size
    → (filled content most hsi ib fh).1 ≡ 0
    → drop fh.position content ≡ []
unfolding filled
filled_nothing content most hsi ib fh pos room h =
    let n = if ltb most (ib.size - length ib.buf) then most else ib.size - length ib.buf in
    let some_room : 0 < n = ground arith in took_nothing n (drop fh.position content) some_room h

module _ (expand : InputBuffer → ℕ → Option InputBuffer) (hdr_frame_size : ℕ) (content : Bytes)
    (most : ℕ) (hsi : Input) (fh : Handle) where
  pub read_file-no_memory :
      expand hsi.ib (needed hdr_frame_size hsi.ib) ≡ none
      → read_file expand hdr_frame_size content most hsi fh ≡ exit_failure
  unfolding read_file read_into
  read_file-no_memory h = rw (h) refl

  pub read_file-filled :
      (ib : InputBuffer)
      → expand hsi.ib (needed hdr_frame_size hsi.ib) ≡ some ib
      → read_file expand hdr_frame_size content most hsi fh ≡ ok (filled content most hsi ib fh)
  unfolding read_file read_into
  read_file-filled ib h = rw (h) refl

pub IsPlaced-buffer :
    (q : Queue) (hsi : Input) (fh : Handle) (ib : InputBuffer)
    → IsPlaced q hsi fh
    → IsPlaced q (record hsi { ib = ib }) fh
IsPlaced-buffer q hsi fh ib placed = record {
  handle = placed.handle;
  name = placed.name;
  file = placed.file;
  place = placed.place;
  path = placed.path;
  range = placed.range;
}

pub filled-IsPlaced :
    (q : Queue) (content : Bytes) (most : ℕ) (hsi : Input) (ib : InputBuffer) (fh : Handle)
    → IsPlaced q hsi fh
    → fh.position + length (drop fh.position content) < 2 ^ 64
    → IsPlaced q
        (filled content most hsi ib fh).0
        (record fh { position = fh.position + (filled content most hsi ib fh).1 })
unfolding filled
filled-IsPlaced q content most hsi ib fh placed small =
    let room = ib.size - length ib.buf in
    let n = if ltb most room then most else room in
    let few = length-took n (drop fh.position content) in
    record {
      handle = refl;
      name = placed.name;
      file = placed.file;
      place = omega (arith, few, placed.place);
      path = placed.path;
      range = placed.range;
    }

module _ (d : Disk) (q : Queue) (top : ℕ) (queue : IsQueue d q top) (fr : Framing)
    (framing : IsFraming fr) where
  -- What a search or a read leaves: the same file, and a place that is at its end when nothing was
  -- read.
  pub record Reads (r r' : Reader) (fh : Handle) : Type 0 where
    pub fh' : Handle
    pub placed : IsPlaced q r'.input fh'
    pub number : r'.input.cp.id ≡ r.input.cp.id
    same :
        stream d q top r.input fh ≡ (framing.consumes r.input.ib).0 ++ stream d q top r'.input fh'
    pub drained : r'.found ≡ none → r'.bytes_read ≡ 0 → rest_of_file d fh' ≡ []

  filled-Reads :
      (r : Reader) (fh : Handle) (most : ℕ) (ib ib2 : InputBuffer)
      → fr.find r.input.ib ≡ (ib, none)
      → IsPlaced q r.input fh
      → 0 < most
      → fh.position + length (rest_of_file d fh) < 2 ^ 64
      → fr.expand ib (needed fr.hdr_frame_size ib) ≡ some ib2
      → let (input, nread) =
          filled (bytes_of (d.content fh.file)) most (record r.input { ib = ib }) ib2 fh in
        Reads r (record r { input = input; bytes_read = nread; found = none }) fh
  unfolding rest_of_file stream filled
  filled-Reads r fh most ib ib2 at placed pos small grown =
      let content = bytes_of (d.content fh.file) in
      let hsi = record r.input { ib = ib } in
      let n = needed fr.hdr_frame_size ib in
      let within = framing.keeps.within ib n ib2 grown in
      let kept = framing.keeps.same ib n ib2 grown in
      let taken = (framing.consumes r.input.ib).1 in
      let tail = files d q (r.input.cp.id + 1) (top - r.input.cp.id) in
      record {
        fh' = record fh { position = fh.position + (filled content most hsi ib2 fh).1 };
        placed =
            filled-IsPlaced q content most hsi ib2 fh (IsPlaced-buffer q r.input fh ib placed)
              small;
        number = unfold filled in refl;
        same =
            regroup (unread r.input.ib) (framing.consumes r.input.ib).0 (unread ib2)
              (unread (filled content most hsi ib2 fh).0.ib) (drop fh.position content)
              (drop (fh.position + (filled content most hsi ib2 fh).1) content) tail
              (rw (kept, taken, at) refl) (filled-buffer content most hsi ib2 fh within);
        drained = λ _ zero_read.
            let stays : fh.position + (filled content most hsi ib2 fh).1 ≡ fh.position =
              omega (arith, zero_read) in
            let needs : 0 < n =
              subst (λ (p : InputBuffer × Option Message). 0 < needed fr.hdr_frame_size p.0) at
                (framing.waits r.input.ib (rw (at) refl)) in
            let room : length ib2.buf < ib2.size =
              omega (arith, needs, framing.room ib n ib2 grown) in
            rw (stays) (filled_nothing content most hsi ib2 fh pos room zero_read);
      }

  pub or_read-Reads :
      (r r' : Reader) (fh : Handle) (most : ℕ) (found : InputBuffer × Option Message)
      → fr.find r.input.ib ≡ found
      → IsPlaced q r.input fh
      → 0 < most
      → fh.position + length (rest_of_file d fh) < 2 ^ 64
      → or_read fr d most r fh found ≡ ok r'
      → Reads r r' fh
  unfolding or_read
  or_read-Reads r r' fh most (ib, some msg) at placed pos small e =
      let is = ok-injective e in
      let taken = (framing.consumes r.input.ib).1 in
      subst (λ (x : Reader). Reads r x fh) is
        (record {
          fh' = fh;
          placed = IsPlaced-buffer q r.input fh ib placed;
          number = refl;
          same = unfold stream in rw (taken, at, append_assoc) refl;
          drained = λ f. cc;
        })
  or_read-Reads r r' fh most (ib, none) at placed pos small e =
      let content = bytes_of (d.content fh.file) in
      let hsi = record r.input { ib = ib } in
      elim (Option-cases (fr.expand ib (needed fr.hdr_frame_size ib))) [
        | inl no_memory ↦
            let stop =
              read_file-no_memory fr.expand fr.hdr_frame_size content most hsi fh no_memory in
            absurd_ok (rw (stop) at e)
        | inr (ib2, grown) ↦
            let goes = read_file-filled fr.expand fr.hdr_frame_size content most hsi fh ib2 grown in
            let is = ok-injective (rw (goes) at e) in
            subst (λ (x : Reader). Reads r x fh) is
              (filled-Reads r fh most ib ib2 at placed pos small grown)
      ]

  -- Where the reader is after a search, a read or another file.
  Follows : Reader → Reader → Handle → Type 0
  Follows r r' fh =
      (fh' : Handle) × IsPlaced q r'.input fh'
      × (r'.input.cp.id ≤ top)
      × (stream d q top r.input fh ≡ (framing.consumes r.input.ib).0 ++ stream d q top r'.input fh')

  Reads-Follows :
      (r r' : Reader) (fh : Handle) → r.input.cp.id ≤ top → Reads r r' fh → Follows r r' fh
  unfolding Follows
  Reads-Follows r r' fh le reading =
      (reading.fh', reading.placed, rw (reading.number) le, reading.same)

  unless_found_lem :
      (pace : Pace) (r r1 r' : Reader) (fh : Handle)
      → r.input.cp.id ≤ top
      → (reading : Reads r r1 fh) (found : Option Message) → r1.found ≡ found
      → unless_found d q pace r1 found ≡ ok r'
      → Follows r r' fh
  unfolding unless_found Follows
  unless_found_lem pace r r1 r' fh le reading (some msg) is e =
      subst (λ (x : Reader). Follows r x fh) (ok-injective e) (Reads-Follows r r1 fh le reading)
  unless_found_lem pace r r1 r' fh le reading none is e = elim (Bool-cases (is_at_end q r1)) [
    | inl at_end ↦
        let nothing : r1.bytes_read ≡ 0 = ground (arith, at_end) in
        let le1 : r1.input.cp.id ≤ top = rw (reading.number) le in
        let (fh', goes) =
          go_on-Goes d q top queue pace r1 r' reading.fh' reading.placed le1
            (reading.drained is nothing) (rw (at_end) at e) in
        (
          fh',
          goes.placed,
          goes.within,
          reading.same ∙ ap (λ (t : Bytes). (framing.consumes r.input.ib).0 ++ t) goes.same,
        )
    | inr further ↦
        subst (λ (x : Reader). Follows r x fh) (ok-injective (rw (further) at e))
          (Reads-Follows r r1 fh le reading)
  ]

  -- A round of a thread that follows a queue refines taking bytes off a stream. The stream is what
  -- the buffer has not scanned, the rest of the open file, and the files behind it up to the last.
  -- The bytes that the search for a message takes are the first ones of the stream, and what it
  -- leaves is the stream of the reader after the round: nothing is lost or repeated, whether a message
  -- is found, bytes are read, or the next file is opened (also one behind files that are missing). The
  -- reader's open file stays that of its checkpoint, with a number up to the last.
  pub follow_lem :
      (pace : Pace) (r r' : Reader) (fh : Handle) (most : ℕ)
      → IsPlaced q r.input fh
      → r.input.cp.id ≤ top
      → 0 < most
      → fh.position + length (rest_of_file d fh) < 2 ^ 64
      → follow fr d q pace most r fh ≡ ok r'
      → (fh' : Handle) × IsPlaced q r'.input fh'
        × (r'.input.cp.id ≤ top)
        × (stream d q top r.input fh
            ≡ (framing.consumes r.input.ib).0 ++ stream d q top r'.input fh')
  unfolding follow find_or_read Follows
  follow_lem pace r r' fh most placed le pos small e =
      let (r1, reads, rest) = >>=-eq-ok (or_read fr d most r fh (fr.find r.input.ib)) _ e in
      let reading = or_read-Reads r r1 fh most (fr.find r.input.ib) refl placed pos small reads in
      unless_found_lem pace r r1 r' fh le reading r1.found refl rest
