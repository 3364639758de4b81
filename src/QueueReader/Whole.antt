-- ===== src/QueueReader/Whole.antt =====
-- The buffer of a reader and the bytes in front of its place, and the checkpoint from which its queue
-- can be read again.
use mathlib.Core.List.{append_assoc}
use mathlib.Core.Path.{subst}
use hindsight.Base.{
  ℕ, ◌+◌, ◌-◌, ◌%◌, ◌^◌, ◌≤◌, ◌<◌, ◌≡◌, inl, inr, refl, ap, ◌∙◌, Option, none, some, ◌++◌, arith,
  ltb, if◌then◌else◌, length, drop, take, length-append, drop-append, sym, Option-cases,
}
use hindsight.Base.Run.{ok, absurd_ok, ok-injective}
use hindsight.Disk.{Disk, bytes_of}
use hindsight.Input.{InputBuffer, Handle, Input, filled, needed}
use hindsight.Input.Place.{unread, drop_add, drop-append_within, took-left, length-took}
use hindsight.CString.{Bytes}
use hindsight.Checkpoint.{Checkpoint}
use hindsight.Inject.{sub64}
use hindsight.QueueReader.{Message, Framing, Queue, Reader, find_or_read, or_read, scanned}
use hindsight.QueueReader.Stream.{file_name, files, rest_of_file, stream, IsWhole}
use hindsight.QueueReader.Opening.{IsPlaced}
use hindsight.QueueReader.Refine.{
  IsFraming, IsPlaced-buffer, filled-IsPlaced, read_file-no_memory, read_file-filled,
}

-- What is read when a queue is opened at a checkpoint.
unfoldable pub from_checkpoint : Disk → Queue → ℕ → Checkpoint → Bytes
from_checkpoint d q top cp =
    drop cp.offset (bytes_of (d.content (file_name q.path q.subdir cp.id)))
    ++ files d q (cp.id + 1) (top - cp.id)

-- Opened at the place of a whole buffer, a queue gives what the reader has before it.
pub from_checkpoint-scanned :
    (d : Disk) (q : Queue) (top : ℕ) (r : Reader) (fh : Handle)
    → IsPlaced q r.input fh
    → IsWhole d r.input fh
    → from_checkpoint d q top (scanned r) ≡ stream d q top r.input fh
unfolding from_checkpoint scanned stream
from_checkpoint-scanned d q top r fh placed whole =
    let at : sub64 r.input.cp.offset (length (unread r.input.ib))
        ≡ r.input.cp.offset - length (unread r.input.ib) =
      omega (arith, whole.few, whole.range) in
    rw (at, sym placed.file, whole.same, append_assoc) refl

-- A search that takes bytes off the front of a whole buffer leaves a whole one.
pub IsWhole-search :
    (d : Disk) (input : Input) (fh : Handle) (ib : InputBuffer) (used : Bytes)
    → unread input.ib ≡ used ++ unread ib
    → IsWhole d input fh
    → IsWhole d (record input { ib = ib }) fh
IsWhole-search d input fh ib used taken whole =
    let parts : length (unread input.ib) ≡ length used + length (unread ib) =
      rw (taken) (length-append used (unread ib)) in
    let content = bytes_of (d.content fh.file) in
    let behind : input.cp.offset - length (unread ib)
        ≡ input.cp.offset - length (unread input.ib) + length used =
      omega (arith, parts, whole.few) in
    record {
      few = omega (arith, parts, whole.few);
      range = whole.range;
      same =
          rw
            (
              behind,
              drop_add (input.cp.offset - length (unread input.ib)) (length used) content,
              whole.same,
              taken,
              append_assoc,
            )
            (drop-append used (unread ib ++ rest_of_file d fh));
    }

pub stream_used :
    (d : Disk) (q : Queue) (top : ℕ) (input : Input) (fh : Handle) (ib : InputBuffer) (used : Bytes)
    → unread input.ib ≡ used ++ unread ib
    → stream d q top input fh ≡ used ++ stream d q top (record input { ib = ib }) fh
unfolding stream
stream_used d q top input fh ib used taken = rw (taken, append_assoc) refl

IsWhole-room :
    (d : Disk) (input : Input) (fh : Handle) (ib ib2 : InputBuffer)
    → unread ib2 ≡ unread ib
    → IsWhole d (record input { ib = ib }) fh
    → IsWhole d (record input { ib = ib2 }) fh
IsWhole-room d input fh ib ib2 kept whole = record {
  few = rw (kept) whole.few;
  range = whole.range;
  same = rw (kept) whole.same;
}

filled-IsWhole :
    (d : Disk) (most : ℕ) (hsi : Input) (ib : InputBuffer) (fh : Handle)
    → ib.scanpos ≤ length ib.buf
    → fh.position ≡ hsi.cp.offset
    → fh.position + length (rest_of_file d fh) < 2 ^ 64
    → IsWhole d (record hsi { ib = ib }) fh
    → IsWhole d (filled (bytes_of (d.content fh.file)) most hsi ib fh).0 (record fh {
      position = fh.position + (filled (bytes_of (d.content fh.file)) most hsi ib fh).1;
    })
unfolding filled rest_of_file
filled-IsWhole d most hsi ib fh within place small whole =
    let content = bytes_of (d.content fh.file) in
    let room = ib.size - length ib.buf in
    let n = if ltb most room then most else room in
    let got = take n (drop fh.position content) in
    let few_got = length-took n (drop fh.position content) in
    let joined = drop-append_within ib.scanpos ib.buf got within in
    let parts : length (unread ib ++ got) ≡ length (unread ib) + length got =
      length-append (unread ib) got in
    let size : (hsi.cp.offset + length got) % 2 ^ 64 ≡ hsi.cp.offset + length got =
      omega (arith, few_got, place, small) in
    let start : hsi.cp.offset + length got - (length (unread ib) + length got)
        ≡ hsi.cp.offset - length (unread ib) =
      omega arith in
    record {
      few = rw (joined, parts, size) (omega (arith, whole.few));
      range = rw (size) (omega (arith, few_got, place, small));
      same =
          rw (joined, parts, size, start, whole.same, append_assoc, took-left n fh.position content)
            refl;
    }

module _ (fr : Framing) (framing : IsFraming fr) (q : Queue) (d : Disk) where
  -- The place after a search and perhaps a read.
  abbrev Stays : Reader → Type 0
  Stays r = (fh' : Handle) × IsPlaced q r.input fh' × IsWhole d r.input fh'

  or_read-IsWhole :
      (most : ℕ) (r r' : Reader) (fh : Handle) (found : InputBuffer × Option Message)
      → fr.find r.input.ib ≡ found
      → IsPlaced q r.input fh
      → IsWhole d r.input fh
      → fh.position + length (rest_of_file d fh) < 2 ^ 64
      → or_read fr d most r fh found ≡ ok r'
      → Stays r'
  unfolding or_read rest_of_file
  or_read-IsWhole most r r' fh (ib, some msg) at placed whole small e =
      let (used, taken) = framing.consumes r.input.ib in
      subst (λ (x : Reader). Stays x) (ok-injective e)
        (
          fh,
          IsPlaced-buffer q r.input fh ib placed,
          IsWhole-search d r.input fh ib used
              (taken ∙ ap (λ (p : InputBuffer × Option Message). used ++ unread p.0) at) whole,
        )
  or_read-IsWhole most r r' fh (ib, none) at placed whole small e =
      let (used, taken) = framing.consumes r.input.ib in
      let content = bytes_of (d.content fh.file) in
      let hsi = record r.input { ib = ib } in
      let n = needed fr.hdr_frame_size ib in
      let searched =
        IsWhole-search d r.input fh ib used
          (taken ∙ ap (λ (p : InputBuffer × Option Message). used ++ unread p.0) at) whole in
      elim (Option-cases (fr.expand ib n)) [
        | inl no_memory ↦ absurd_ok (
            rw (read_file-no_memory fr.expand fr.hdr_frame_size content most hsi fh no_memory) at e)
        | inr (ib2, grown) ↦
            let goes = read_file-filled fr.expand fr.hdr_frame_size content most hsi fh ib2 grown in
            let room =
              IsWhole-room d r.input fh ib ib2 (framing.keeps.same ib n ib2 grown) searched in
            subst (λ (x : Reader). Stays x) (ok-injective (rw (goes) at e))
              (
                record fh { position = fh.position + (filled content most hsi ib2 fh).1 },
                filled-IsPlaced q content most hsi ib2 fh (IsPlaced-buffer q r.input fh ib placed)
                    small,
                filled-IsWhole d most hsi ib2 fh (framing.keeps.within ib n ib2 grown) placed.place
                    small room,
              )
      ]

  -- A search for a message, and the read of the open file that follows where none is found, keep the
  -- bytes in front of the reader's place: those of the buffer that were not scanned are the last ones
  -- of the file up to that place, as long as the place fits in 64 bits.
  pub find_or_read-IsWhole :
      (most : ℕ) (r r' : Reader) (fh : Handle)
      → IsPlaced q r.input fh
      → IsWhole d r.input fh
      → fh.position + length (rest_of_file d fh) < 2 ^ 64
      → find_or_read fr d most r fh ≡ ok r'
      → (fh' : Handle) × IsPlaced q r'.input fh' × IsWhole d r'.input fh'
  unfolding find_or_read
  find_or_read-IsWhole most r r' fh placed whole small e =
      or_read-IsWhole most r r' fh (fr.find r.input.ib) refl placed whole small e
