-- ===== src/Tests/Following.antt =====
-- A reader that follows a queue, over a file that is missing.
use mathlib.Core.Path.{subst}
use mathlib.Core.Option.{some-injective}
use hindsight.CString.Decimal.{decimal}
use hindsight.QueueFile.Naming.{log_name, extract_id-log_name}
use hindsight.QueueFile.{find_next_id, digit_run, extract_id}
use hindsight.Util.{get_fqfn}
use hindsight.Base.{
  ℕ, ◌+◌, ◌≤◌, ◌≡◌, ◌≢◌, inl, inr, refl, true, false, Option, none, some, List, [], ◌∷◌, ◌++◌,
  arith, length, if◌then◌else◌, Bool-cases, ◌==◌, ◌<◌,
}
use hindsight.Base.Run.{ok}
use hindsight.CString.{strtoull, Bytes, codes, str_eq, ullong_max}
use hindsight.Disk.{Disk}
use hindsight.QueueFile.Search.{Listed}
use hindsight.Input.{read_file, open_file, InputBuffer, Handle, needed}
use hindsight.Input.Place.{unread}
use hindsight.QueueReader.{
  unless_opened, skip_missing, open_id, open_behind, next_file, go_on, Message, Framing, Queue,
  Reader, find_or_read, follow, every_round, unless_found,
}
use hindsight.QueueReader.Stream.{stream, file_name, rest_of_file}
use hindsight.QueueReader.Opening.{IsPlaced, file_name-ne}
use hindsight.QueueReader.NextFile.{IsQueue}
use hindsight.QueueReader.Refine.{IsFraming, follow_lem}

-- A library for which every byte is a message.
abbrev find_in : InputBuffer → Bytes → InputBuffer × Option Message
find_in ib [] = (record { buf = []; scanpos = 0; size = 64; msglen = 0 }, none)
find_in ib (x ∷ xs) = (
  record { buf = xs; scanpos = 0; size = ib.size; msglen = 0 },
  some (record { raw = x ∷ []; timestamp = 0 }),
)

abbrev pub byte_framing : Framing
byte_framing = record {
  find = λ ib. find_in ib (unread ib);
  expand = λ ib n.
      some (record {
        buf = unread ib;
        scanpos = 0;
        size = length (unread ib) + n;
        msglen = ib.msglen;
      });
  hdr_frame_size = 3;
}

find_in-consumes :
    (ib : InputBuffer) (xs : Bytes) → (used : Bytes) × (xs ≡ used ++ unread (find_in ib xs).0)
find_in-consumes ib [] = ([], refl)
find_in-consumes ib (x ∷ xs) = (x ∷ [], refl)

find_in-waits :
    (ib : InputBuffer) (xs : Bytes) → (find_in ib xs).1 ≡ none → 1 ≤ needed 3 (find_in ib xs).0
unfolding needed
find_in-waits ib [] e = omega arith
find_in-waits ib (x ∷ xs) e = cc

pub byte_framing-IsFraming : IsFraming byte_framing
byte_framing-IsFraming = record {
  consumes = λ ib. find_in-consumes ib (unread ib);
  keeps = record {
    same =
        λ ib n ib' e. subst (λ (x : InputBuffer). unread x ≡ unread ib) (some-injective _ _ e) refl;
    within = λ ib n ib' e.
        subst (λ (x : InputBuffer). x.scanpos ≤ length x.buf) (some-injective _ _ e) (omega arith);
  };
  room = λ ib n ib' e.
      subst (λ (x : InputBuffer). length x.buf + n ≤ x.size) (some-injective _ _ e) (omega arith);
  waits = λ ib e. find_in-waits ib (unread ib) e;
}

-- The files 1 and 3 are there.
abbrev pub place : ℕ → Bytes
place id = file_name (codes "o") (codes "i") id

abbrev names : List Bytes
names = codes "1.log" ∷ codes "3.log" ∷ []

abbrev content_at : Bytes → Option Bytes
content_at p =
    if str_eq p (place 1)
    then some (7 ∷ 8 ∷ [])
    else if str_eq p (place 3)
    then some (9 ∷ [])
    else none

abbrev pub gap_disk : Disk
gap_disk = record {
  content = content_at;
  entries = λ p. if str_eq p (codes "o/i") then some names else none;
  refuses = λ _. false;
  free_bytes = λ _. none;
}

abbrev pub queue : Queue
queue = record { path = codes "o"; subdir = codes "i"; output_size = 2 }

gap_disk-Listed :
    (id : ℕ) → id ≤ ullong_max → content_at (place id) ≢ none → Listed id names × (id ≤ 3)
unfolding log_name decimal
gap_disk-Listed id range there = elim (Bool-cases (id == 1)) [
  | inl first ↦
      let e : id ≡ 1 = ground (arith, first) in
      rw (e) (inl (extract_id-log_name 1 (omega arith)), omega arith)
  | inr a ↦ elim (Bool-cases (id == 3)) [
    | inl last ↦
        let e : id ≡ 3 = ground (arith, last) in
        rw (e) (inr (inl (extract_id-log_name 3 (omega arith))), omega arith)
    | inr b ↦
        let apart1 =
          file_name-ne (codes "o") (codes "i") id 1 range (omega arith)
            (λ e. absurd (ground (arith, a))) in
        let apart3 =
          file_name-ne (codes "o") (codes "i") id 3 range (omega arith)
            (λ e. absurd (ground (arith, b))) in
        absurd (there (rw (apart1, apart3) refl))
  ]
]

pub gap_disk-IsQueue : IsQueue gap_disk queue 3
gap_disk-IsQueue = record {
  dir = codes "o/i";
  listing = names;
  named = unfold get_fqfn in refl;
  entries = unfold str_eq in refl;
  listed = gap_disk-Listed;
  below = omega arith;
}

-- File 1 was read to its end and file 2 was tried in vain.
abbrev handle : Handle
handle = record { file = place 1; position = 2 }

abbrev reader : Reader
reader = record {
  input = record {
    path = codes "o";
    name = [];
    fh = some handle;
    fn = some (place 1);
    ib = record { buf = []; scanpos = 0; size = 64; msglen = 0 };
    cp = record { id = 1; offset = 2 };
  };
  bytes_read = 0;
  next = false;
  wait_cnt = 60;
  timer = 0;
  found = none;
}

reader-IsPlaced : IsPlaced queue reader.input handle
reader-IsPlaced = record {
  handle = refl;
  name = refl;
  file = refl;
  place = refl;
  path = refl;
  range = omega arith;
}

-- The file behind the one that is missing.
abbrev reader_after : Reader
reader_after = record reader {
  input = record {
    path = codes "o";
    name = [];
    fh = some (record { file = place 3; position = 0 });
    fn = some (place 3);
    ib = record { buf = []; scanpos = 0; size = 64; msglen = 0 };
    cp = record { id = 3; offset = 0 };
  };
  next = true;
  wait_cnt = 0;
}

follow_example : follow byte_framing gap_disk queue every_round 100 reader handle ≡ ok reader_after
unfolding follow find_or_read read_file unless_found str_eq log_name decimal go_on next_file open_id
    open_file unless_opened skip_missing find_next_id open_behind extract_id digit_run strtoull
    get_fqfn
follow_example = refl

handle_small : handle.position + length (rest_of_file gap_disk handle) < 18446744073709551616
unfolding rest_of_file str_eq log_name decimal
handle_small = omega arith

follow_lem_example :
    (fh' : Handle) × IsPlaced queue reader_after.input fh'
    × (reader_after.input.cp.id ≤ 3)
    × (stream gap_disk queue 3 reader.input handle ≡ stream gap_disk queue 3 reader_after.input fh')
unfolding stream byte_framing-IsFraming find_in-consumes
follow_lem_example =
    follow_lem gap_disk queue 3 gap_disk-IsQueue byte_framing byte_framing-IsFraming every_round
      reader reader_after handle 100 reader-IsPlaced (omega arith) (omega arith) handle_small
      follow_example
