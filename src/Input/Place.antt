-- ===== src/Input/Place.antt =====
-- The place that is read is the place of the checkpoint, and no byte of a queue file is lost or read
-- twice.
use mathlib.Core.List.{append_assoc}
use mathlib.Core.Path.{subst}
use hindsight.Base.{
  ℕ, zero, suc, ◌+◌, ◌-◌, ◌%◌, ◌^◌, ◌≤◌, ◌<◌, ◌≡◌, refl, sym, ap, ◌∙◌, Bool, false, Option, none,
  some, [], ◌∷◌, ◌++◌, arith, ltb, if◌then◌else◌, length, take, drop, drop_all, if-both,
}
use hindsight.Base.Run.{ok-injective, Run, ok}
use hindsight.CString.{Bytes}
use hindsight.Disk.{Disk}
use hindsight.Util.{fits, max_path}
use hindsight.QueueFile.Naming.{log_name}
use hindsight.Input.{
  open_fitting, is_open_name, read_into, InputBuffer, Handle, Input, opened, open_named, open_file,
  seek, needed, filled, read_file,
}

-- The place in the open file is the offset of the checkpoint.
abbrev pub IsInStep : Input → Type 0
IsInStep hsi = (fh : Handle) → hsi.fh ≡ some fh → fh.position ≡ hsi.cp.offset

-- What was read and not yet scanned.
abbrev pub unread : InputBuffer → Bytes
unread ib = drop ib.scanpos ib.buf

opened-IsInStep :
    (hsi : Input) (fqfn : Bytes) (id : ℕ) → hsi.cp.offset < 2 ^ 63 → IsInStep (opened hsi fqfn id)
unfolding opened seek
opened-IsInStep hsi fqfn id h fh e = grind arith

open_named-IsInStep :
    (content : Option Bytes) (hsi : Input) (fqfn : Bytes) (id : ℕ)
    → IsInStep hsi
    → hsi.cp.offset < 2 ^ 63
    → IsInStep (open_named content hsi fqfn id).0
      × ((open_named content hsi fqfn id).1 ≡ false → (open_named content hsi fqfn id).0 ≡ hsi)
unfolding open_named
open_named-IsInStep none hsi fqfn id step h = (step, λ _. refl)
open_named-IsInStep (some _) hsi fqfn id step h = (opened-IsInStep hsi fqfn id h, λ e. cc)

open_fitting-IsInStep :
    (d : Disk) (hsi : Input) (id : ℕ) (fitting : Option Bytes) (hsi' : Input) (success : Bool)
    → IsInStep hsi
    → hsi.cp.offset < 2 ^ 63
    → open_fitting d hsi id fitting ≡ ok (hsi', success)
    → IsInStep hsi' × (success ≡ false → hsi' ≡ hsi)
unfolding open_fitting
open_fitting-IsInStep d hsi id none hsi' success step h e = cc
open_fitting-IsInStep d hsi id (some fqfn) hsi' success step h e =
    let Good = λ (r : Input × Bool). IsInStep r.0 × (r.1 ≡ false → r.0 ≡ hsi) in
    if-both (λ (r : Run (Input × Bool)). r ≡ ok (hsi', success) → Good (hsi', success))
      (is_open_name hsi.fn fqfn) (λ _ done. subst Good (ok-injective done) (step, λ f. cc))
      (λ _ done.
        subst Good (ok-injective done) (open_named-IsInStep (d.content fqfn) hsi fqfn id step h))
      e

-- When hs_open_file returns, from a state in which the place in the open file is the offset of the
-- checkpoint, it is so again: a new file is read from the checkpoint on if that stands in it, and
-- else from its beginning with the checkpoint there. Where it reports failure, nothing has changed.
-- Offsets are below 2^63.
pub open_file-IsInStep :
    (d : Disk) (hsi : Input) (subdir : Bytes) (id : ℕ) (hsi' : Input) (success : Bool)
    → IsInStep hsi
    → hsi.cp.offset < 2 ^ 63
    → open_file d hsi subdir id ≡ ok (hsi', success)
    → IsInStep hsi' × (success ≡ false → hsi' ≡ hsi)
unfolding open_file
open_file-IsInStep d hsi subdir id hsi' success step h e =
    open_fitting-IsInStep d hsi id
      (fits max_path (hsi.path ++ (b'/' ∷ (subdir ++ (b'/' ∷ log_name id))))) hsi' success step h e

-- What lsb_expand_input_buffer is documented to do: it may move the bytes that were not scanned, and
-- keeps them.
pub record KeepsUnread (expand : InputBuffer → ℕ → Option InputBuffer) : Type 0 where
  pub same :
      (ib : InputBuffer) (n : ℕ) (ib' : InputBuffer)
      → expand ib n ≡ some ib'
      → unread ib' ≡ unread ib
  pub within :
      (ib : InputBuffer) (n : ℕ) (ib' : InputBuffer)
      → expand ib n ≡ some ib'
      → ib'.scanpos ≤ length ib'.buf

pub drop-append_within :
    (n : ℕ) (xs ys : Bytes) → n ≤ length xs → drop n (xs ++ ys) ≡ drop n xs ++ ys
drop-append_within zero xs ys h = refl
drop-append_within (suc n) [] ys h = absurd (omega arith)
drop-append_within (suc n) (x ∷ xs) ys h = drop-append_within n xs ys (omega arith)

pub drop_add : (m n : ℕ) (xs : Bytes) → drop (m + n) xs ≡ drop n (drop m xs)
drop_add zero n xs = let none_first : 0 + n ≡ n = omega arith in rw (none_first) refl
drop_add (suc m) n [] = drop_all (suc m + n) [] (omega arith) ∙ sym (drop_all n [] (omega arith))
drop_add (suc m) n (x ∷ xs) =
    let next : suc m + n ≡ suc (m + n) = omega arith in rw (next) (drop_add m n xs)

took : (n : ℕ) (xs : Bytes) → take n xs ++ drop (length (take n xs)) xs ≡ xs
took zero xs = refl
took (suc n) [] = refl
took (suc n) (x ∷ xs) = ap (◌∷◌ x) (took n xs)

-- what was taken, and what is left behind it
pub took-left :
    (n m : ℕ) (content : Bytes)
    → take n (drop m content) ++ drop (m + length (take n (drop m content))) content
      ≡ drop m content
took-left n m content =
    rw (drop_add m (length (take n (drop m content))) content) (took n (drop m content))

pub length-took : (n : ℕ) (xs : Bytes) → length (take n xs) ≤ length xs
length-took zero xs = omega arith
length-took (suc n) [] = omega arith
length-took (suc n) (x ∷ xs) = omega (arith, length-took n xs)

filled_lem :
    (content : Bytes) (most : ℕ) (hsi : Input) (ib : InputBuffer) (fh : Handle)
    → fh.position ≡ hsi.cp.offset
    → fh.position + length (drop fh.position content) < 2 ^ 64
    → ib.scanpos ≤ length ib.buf
    → record {
      0 as reader : Input;
      1 as nread : ℕ;
      2 : filled content most hsi ib fh ≡ (reader, nread);
      3 : reader.fh ≡ some (record fh { position = fh.position + nread });
      4 : reader.cp.offset ≡ fh.position + nread;
      5 :
          unread reader.ib ++ drop (fh.position + nread) content
          ≡ unread ib ++ drop fh.position content;
    }
unfolding filled
filled_lem content most hsi ib fh at small within =
    let room = ib.size - length ib.buf in
    let n = if ltb most room then most else room in
    let got = take n (drop fh.position content) in
    let few : length got ≤ length (drop fh.position content) =
      length-took n (drop fh.position content) in
    let offset : (hsi.cp.offset + length got) % 2 ^ 64 ≡ fh.position + length got = omega arith in
    (
      (filled content most hsi ib fh).0,
      length got,
      refl,
      refl,
      offset,
      rw
          (
            drop-append_within ib.scanpos ib.buf got within,
            append_assoc,
            took-left n fh.position content,
          )
          refl,
    )

-- When there is memory, hs_read_file returns, whatever number of bytes the system gives. The place in
-- the file goes on by the number it returns and is still the offset of the checkpoint, and the bytes
-- not yet scanned, with those of the file behind the place, are the same as before: none is lost,
-- repeated or changed. Before the call the place is the offset, and files are below 2^64 bytes.
pub read_file_lem :
    (expand : InputBuffer → ℕ → Option InputBuffer) (laws : KeepsUnread expand) (hdr_frame_size : ℕ)
    (content : Bytes) (most : ℕ) (hsi : Input) (fh : Handle) (ib : InputBuffer)
    → fh.position ≡ hsi.cp.offset
    → fh.position + length (drop fh.position content) < 2 ^ 64
    → expand hsi.ib (needed hdr_frame_size hsi.ib) ≡ some ib
    → record {
      0 as reader : Input;
      1 as nread : ℕ;
      2 : read_file expand hdr_frame_size content most hsi fh ≡ ok (reader, nread);
      3 : reader.fh ≡ some (record fh { position = fh.position + nread });
      4 : reader.cp.offset ≡ fh.position + nread;
      5 :
          unread reader.ib ++ drop (fh.position + nread) content
          ≡ unread hsi.ib ++ drop fh.position content;
    }
unfolding read_file read_into
read_file_lem expand laws hdr_frame_size content most hsi fh ib at small e =
    let (reader, nread, is, open_at, offset, same) =
      filled_lem content most hsi ib fh at small
        (laws.within hsi.ib (needed hdr_frame_size hsi.ib) ib e) in
    let kept = laws.same hsi.ib (needed hdr_frame_size hsi.ib) ib e in
    (
      reader,
      nread,
      rw (e, is) refl,
      open_at,
      offset,
      same ∙ ap (λ (t : Bytes). t ++ drop fh.position content) kept,
    )
