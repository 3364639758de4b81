-- ===== src/Inject/Write.antt =====
-- What a message that is injected leaves in the files of its queue.
use mathlib.Core.List.{append_assoc}
use hindsight.Base.{
  Bool-cases, inl, inr, ◌⊎◌, ℕ, ◌+◌, ◌^◌, ◌≤◌, ◌<◌, ◌≡◌, refl, sym, ap, ◌∙◌, Bool, true, [], ◌∷◌,
  ◌++◌, arith, leb, if◌then◌else◌, length, length-append,
}
use hindsight.Base.Run.{Run, ok, ◌>>=◌, >>=-eq-ok}
use hindsight.CString.{Bytes, str_eq, str_eq_iff}
use hindsight.Disk.{Disk, append, bytes_of, exists, content-append, content-append_self}
use hindsight.Output.{Output, file_of, open_output_file}
use hindsight.Output.Open.{
  IsAtEnd, open_output_file-IsAtEnd, open_output_file-content, open_output_file-same,
}
use hindsight.Inject.{
  QueueConfig, Throttle, Answers, add64, int_to_size, header, frame, write_frame, applied, rotate,
  released, write_message,
}

add64-int_to_size : (n t : ℕ) → t < 2 ^ 31 → n + t < 2 ^ 64 → add64 n (int_to_size t) ≡ n + t
add64-int_to_size n t small room = ground arith

-- The state after `write_frame`, which makes no choice when the writes succeed.
module _ (varint : ℕ → Bytes) where
  abbrev tlen : Bytes → ℕ
  tlen pb = 4 + length (varint (length pb)) + length pb

  length-frame : (pb : Bytes) → length (frame varint pb) ≡ tlen pb
  unfolding frame
  length-frame pb = omega (
    arith,
    length-append {0} (varint (length pb)) (0x1f ∷ []),
    length-append {0} (varint (length pb) ++ (0x1f ∷ [])) pb,
  )

  module _ (d d' : Disk) (o o' : Output) (pb : Bytes) (a : Answers) where
    pub write_frame-parts :
        write_frame varint d o pb a ≡ ok (d', o')
        → (d' ≡ append (append d (file_of o) (header varint (length pb))) (file_of o) pb)
          × (o' ≡ record o {
            cp = record o.cp { offset = add64 o.cp.offset (int_to_size (tlen pb)) };
          })
    unfolding write_frame
    write_frame-parts h = ground arith

append_twice :
    (d : Disk) (fn a b p : Bytes)
    → bytes_of ((append (append d fn a) fn b).content p)
      ≡ (if str_eq fn p then bytes_of (d.content p) ++ (a ++ b) else bytes_of (d.content p))
append_twice d fn a b p = elim (Bool-cases (str_eq fn p)) [
  | inl same ↦
      rw (content-append (append d fn a) fn b p, same, content-append_self, append_assoc)
        (ap (λ q. bytes_of (d.content q) ++ (a ++ b)) ((str_eq_iff fn p).0 same))
  | inr other ↦ rw (content-append, other, content-append, other)
]

append_twice-exists : (d : Disk) (fn a b : Bytes) → exists (append (append d fn a) fn b) fn ≡ true
append_twice-exists d fn a b = rw content-append_self

module _ (varint : ℕ → Bytes) (d d' : Disk) (o o' : Output) (pb : Bytes) (a : Answers) where
  -- The frame of the message stands behind what the open file held; no other file changes.
  write_frame-content :
      (p : Bytes)
      → write_frame varint d o pb a ≡ ok (d', o')
      → bytes_of (d'.content p) ≡ (
          if str_eq (file_of o) p
          then bytes_of (d.content p) ++ frame varint pb
          else bytes_of (d.content p))
  unfolding frame
  write_frame-content p h =
      rw ((write_frame-parts varint d d' o o' pb a h).0)
        (append_twice d (file_of o) (header varint (length pb)) pb p)

  write_frame-IsAtEnd :
      IsAtEnd d o
      → tlen varint pb < 2 ^ 31
      → o.cp.offset + tlen varint pb < 2 ^ 64
      → write_frame varint d o pb a ≡ ok (d', o')
      → IsAtEnd d' o' × (o'.cp.offset ≡ o.cp.offset + tlen varint pb)
  write_frame-IsAtEnd w small room h =
      let (e, e') = write_frame-parts varint d d' o o' pb a h in
      let size : o'.cp.offset ≡ o.cp.offset + tlen varint pb =
        ap (λ (x : Output). x.cp.offset) e'
        ∙ add64-int_to_size o.cp.offset (tlen varint pb) small room in
      let same : file_of o' ≡ file_of o = ap file_of e' in
      let old = bytes_of (d.content (file_of o)) in
      let new : bytes_of (d'.content (file_of o')) ≡ old ++ frame varint pb =
        ap (λ p. bytes_of (d'.content p)) same
        ∙ write_frame-content (file_of o) h
        ∙ rw ((str_eq_iff (file_of o) (file_of o)).1 refl) in
      let grown : length (old ++ frame varint pb) ≡ o.cp.offset + tlen varint pb =
        omega (arith, w.at_end, length-frame varint pb, length-append {0} old (frame varint pb)) in
      (
        record {
          there = rw (same, e) (append_twice-exists d (file_of o) (header varint (length pb)) pb);
          at_end = size ∙ sym (ap length new ∙ grown);
        },
        size,
      )

-- The change to the next file: what it does to the numbers, and that no file loses anything.
abbrev pub next_of : Output → Output
next_of o = record o { cp = record o.cp { id = add64 o.cp.id 1 } }

module _ (cfg : QueueConfig) (d d' : Disk) (o o' : Output) (bp bp' : Bool) where
  pub rotate_cases :
      rotate cfg d o bp ≡ ok (d', o', bp')
      → ((o.cp.offset < cfg.output_size) × (d' ≡ d) × (o' ≡ o) × (bp' ≡ bp))
        ⊎ ((cfg.output_size ≤ o.cp.offset)
            × (open_output_file d (next_of o) ≡ ok (d', o'))
            × (bp' ≡ applied cfg d' o' bp))
  unfolding rotate
  rotate_cases h = elim (Bool-cases (leb cfg.output_size o.cp.offset)) [
    | inl full ↦ inr (ground arith)
    | inr room ↦ inl (ground arith)
  ]

  rotate-content :
      (p : Bytes)
      → rotate cfg d o bp ≡ ok (d', o', bp')
      → bytes_of (d'.content p) ≡ bytes_of (d.content p)
  rotate-content p h = elim (rotate_cases h) [
    | inl (_, same, _, _) ↦ ap (λ x. bytes_of (x.content p)) same
    | inr (_, opened, _) ↦ open_output_file-content d d' (next_of o) o' opened p
  ]

  rotate-IsAtEnd : IsAtEnd d o → rotate cfg d o bp ≡ ok (d', o', bp') → IsAtEnd d' o'
  rotate-IsAtEnd w h = elim (rotate_cases h) [
    | inl (_, same, same', _) ↦ rw (same, same') w
    | inr (_, opened, _) ↦ open_output_file-IsAtEnd d d' (next_of o) o' opened
  ]

-- What `write_message` does after each of its first two steps.
abbrev after_rotate :
    QueueConfig → Throttle → Answers → Disk × Output × Bool → Run (Disk × Output × Throttle)
after_rotate cfg th a (d2, o2, bp) =
    ok (d2, o2, released cfg d2 o2 (record th { backpressure = bp }) a)

abbrev after_write :
    QueueConfig → Throttle → Answers → Disk × Output → Run (Disk × Output × Throttle)
after_write cfg th a (d1, o1) = rotate cfg d1 o1 th.backpressure >>= after_rotate cfg th a

module _ (varint : ℕ → Bytes) (cfg : QueueConfig) (d d' : Disk) (o o' : Output) (th th' : Throttle)
    (pb : Bytes) (a : Answers) where
  -- The two parts of a call that returns.
  pub record Parts : Type 0 where
    pub d1 : Disk
    pub o1 : Output
    pub bp : Bool
    pub wrote : write_frame varint d o pb a ≡ ok (d1, o1)
    pub rotated : rotate cfg d1 o1 th.backpressure ≡ ok (d', o', bp)
    pub throttled : th' ≡ released cfg d' o' (record th { backpressure = bp }) a

  pub write_message-Parts : write_message varint cfg d o th pb a ≡ ok (d', o', th') → Parts
  unfolding write_message
  write_message-Parts h =
      let (x, wrote, rest) = >>=-eq-ok (write_frame varint d o pb a) (after_write cfg th a) h in
      let (y, rotated, last) =
        >>=-eq-ok (rotate cfg x.0 x.1 th.backpressure) (after_rotate cfg th a) rest in
      record {
        d1 = x.0;
        o1 = x.1;
        bp = y.2;
        wrote = wrote;
        rotated = ground arith;
        throttled = ground arith;
      }

  -- A message that is injected stands in full, framed, at the end of the file that was open, and
  -- nothing else in any file changes, whether or not the queue goes on to its next file.
  pub write_message-content :
      (p : Bytes)
      → write_message varint cfg d o th pb a ≡ ok (d', o', th')
      → bytes_of (d'.content p) ≡ (
          if str_eq (file_of o) p
          then bytes_of (d.content p) ++ frame varint pb
          else bytes_of (d.content p))
  write_message-content p h =
      let x = write_message-Parts h in
      rotate-content cfg x.d1 d' x.o1 o' th.backpressure x.bp p x.rotated
      ∙ write_frame-content varint d x.d1 o x.o1 pb a p x.wrote

  -- The offset of the checkpoint stays the size of the open file, for a frame that an `int` counts
  -- and a file that a `size_t` counts.
  pub write_message-IsAtEnd :
      IsAtEnd d o
      → length (frame varint pb) < 2 ^ 31
      → o.cp.offset + length (frame varint pb) < 2 ^ 64
      → write_message varint cfg d o th pb a ≡ ok (d', o', th')
      → IsAtEnd d' o'
  write_message-IsAtEnd w small room h =
      let x = write_message-Parts h in
      let e = length-frame varint pb in
      let opened =
        write_frame-IsAtEnd varint d x.d1 o x.o1 pb a w (omega arith) (omega arith) x.wrote in
      rotate-IsAtEnd cfg x.d1 d' x.o1 o' th.backpressure x.bp opened.0 x.rotated

  -- The number of the file stays or goes up by one, and `min_cp_id` is the checkpoint writer's.
  pub rotate-ids :
      (x : Parts)
      → (o'.min_cp_id ≡ o.min_cp_id) × ((o'.cp.id ≡ o.cp.id) ⊎ (o'.cp.id ≡ add64 o.cp.id 1))
  rotate-ids x =
      let (_, e) = write_frame-parts varint d x.d1 o x.o1 pb a x.wrote in
      elim (rotate_cases cfg x.d1 d' x.o1 o' th.backpressure x.bp x.rotated) [
        | inl (_, _, same, _) ↦ ground arith
        | inr (_, opened, _) ↦
            let (_, id, low) = open_output_file-same x.d1 d' (next_of x.o1) o' opened in
            ground arith
      ]
