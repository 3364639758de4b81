-- ===== src/Output/Open.antt =====
-- What holds once the writing end of a queue has opened its file.
use hindsight.Base.{◌≡◌, refl, ap, ◌∙◌, true, some, List, ◌∷◌, ◌++◌, arith, length}
use hindsight.Base.Run.{ok}
use hindsight.CString.{Bytes, str_eq_iff}
use hindsight.Disk.{Disk, exists, mkdir, open_append, bytes_of}
use hindsight.Util.{fits}
use hindsight.QueueFile.{find_last_id}
use hindsight.QueueFile.Naming.{log_name}
use hindsight.QueueFile.Search.{IsLast, find_last_id-IsLast}
use hindsight.Output.{Output, file_of, open_output_file, init_output}

-- The file of `cp.id` is there, and `cp.offset` is its size.
pub record IsAtEnd (d : Disk) (o : Output) : Type 0 where
  pub there : exists d (file_of o) ≡ true
  pub at_end : o.cp.offset ≡ length (bytes_of (d.content (file_of o)))

open_append-exists :
    (d d' : Disk) (dir name : Bytes)
    → open_append d dir name ≡ some d'
    → exists d' (dir ++ (b'/' ∷ name)) ≡ true
unfolding open_append
open_append-exists d d' dir name h =
    ground (arith, (str_eq_iff (dir ++ (b'/' ∷ name)) (dir ++ (b'/' ∷ name))).1 refl)

-- Opening keeps what the queue's files hold.
pub open_append-content :
    (d d' : Disk) (dir name p : Bytes)
    → open_append d dir name ≡ some d'
    → bytes_of (d'.content p) ≡ bytes_of (d.content p)
unfolding open_append
open_append-content d d' dir name p h = ground (arith, str_eq_iff (dir ++ (b'/' ∷ name)) p)

module _ (d d' : Disk) (o o' : Output) (opened : open_output_file d o ≡ ok (d', o')) where
  pub open_output_file-same :
      (o'.path ≡ o.path) × (o'.cp.id ≡ o.cp.id) × (o'.min_cp_id ≡ o.min_cp_id)
  unfolding open_output_file
  open_output_file-same = ground arith

  open_output_file-parts :
      (open_append d o.path (log_name o.cp.id) ≡ some d')
      × (o'.cp.offset ≡ length (bytes_of (d'.content (file_of o))))
  unfolding open_output_file fits
  open_output_file-parts = ground arith

  pub open_output_file-IsAtEnd : IsAtEnd d' o'
  open_output_file-IsAtEnd =
      let (p, i, _) = open_output_file-same in
      let (appended, size) = open_output_file-parts in
      let same : file_of o' ≡ file_of o = cc (p, i) in
      record {
        there = rw same (open_append-exists d d' o.path (log_name o.cp.id) appended);
        at_end = rw same size;
      }

  pub open_output_file-content : (p : Bytes) → bytes_of (d'.content p) ≡ bytes_of (d.content p)
  open_output_file-content p =
      open_append-content d d' o.path (log_name o.cp.id) p open_output_file-parts.0

mkdir-content : (d : Disk) (dir p : Bytes) → (mkdir d dir).0.content p ≡ d.content p
unfolding mkdir
mkdir-content d dir p = ground arith

-- The file system and the state from which `hs_init_output` opens the file.
abbrev made : Disk → Bytes → Bytes → Disk
made d path dir = (mkdir (mkdir d path).0 dir).0

abbrev start_of : Disk → Bytes → Output
start_of d dir = record {
  path = dir;
  min_cp_id = find_last_id d dir;
  cp = record { id = find_last_id d dir; offset = 0 };
}

-- A queue taken up again: `o` goes on writing the highest file of `es` behind what that holds, no
-- file has changed, and the readers are taken to have reached that file.
pub record Resumes (d d' : Disk) (es : List Bytes) (o : Output) : Type 0 where
  pub last : IsLast es o.cp.id
  pub caught_up : o.min_cp_id ≡ o.cp.id
  pub opened : IsAtEnd d' o
  pub same_files : (p : Bytes) → bytes_of (d'.content p) ≡ bytes_of (d.content p)

module _ (d d' : Disk) (path subdir : Bytes) (o : Output) where
  abbrev dir : Bytes
  dir = path ++ (b'/' ∷ subdir)

  init_output-opens :
      init_output d path subdir ≡ ok (d', o)
      → open_output_file (made d path dir) (start_of d dir) ≡ ok (d', o)
  unfolding init_output
  init_output-opens h = ground arith

  -- When `hs_init_output` returns on a queue directory with the entries `es`, it has taken the
  -- queue up again.
  pub init_output-Resumes :
      (es : List Bytes)
      → d.entries (path ++ (b'/' ∷ subdir)) ≡ some es
      → init_output d path subdir ≡ ok (d', o)
      → Resumes d d' es o
  init_output-Resumes es listed h =
      let h' = init_output-opens h in
      let (_, i, m) = open_output_file-same (made d path dir) d' (start_of d dir) o h' in
      record {
        last = rw i (find_last_id-IsLast d dir es listed);
        caught_up = cc (i, m);
        opened = open_output_file-IsAtEnd (made d path dir) d' (start_of d dir) o h';
        same_files = λ p.
            open_output_file-content (made d path dir) d' (start_of d dir) o h' p
            ∙ ap bytes_of (mkdir-content (mkdir d path).0 dir p ∙ mkdir-content d path p);
      }
