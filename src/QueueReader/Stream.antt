-- ===== src/QueueReader/Stream.antt =====
-- The bytes that a reader still has before it: the abstract view of a queue, in which files do not
-- show.
use mathlib.Core.List.{append_assoc}
use hindsight.Base.{
  ℕ, zero, suc, ◌+◌, ◌-◌, ◌^◌, ◌≤◌, ◌<◌, ◌≡◌, refl, ap, none, [], ◌∷◌, ◌++◌, arith, length, drop,
}
use hindsight.CString.{Bytes}
use hindsight.Disk.{Disk, bytes_of}
use hindsight.QueueFile.Naming.{log_name}
use hindsight.Input.{Handle, Input}
use hindsight.Input.Place.{unread}
use hindsight.QueueReader.{Queue}

abbrev pub file_name : Bytes → Bytes → ℕ → Bytes
file_name path subdir id = path ++ (b'/' ∷ (subdir ++ (b'/' ∷ log_name id)))

-- The bytes of `n` files from the number `id` on.
unfoldable pub files : Disk → Queue → ℕ → ℕ → Bytes
files d q id zero = []
files d q id (suc n) = bytes_of (d.content (file_name q.path q.subdir id)) ++ files d q (id + 1) n

pub files_add :
    (d : Disk) (q : Queue) (id m n : ℕ)
    → files d q id (m + n) ≡ files d q id m ++ files d q (id + m) n
unfolding files
files_add d q id zero n =
    let e : 0 + n ≡ n = omega arith in let f : id + 0 ≡ id = omega arith in rw (e, f) refl
files_add d q id (suc m) n =
    let e : suc m + n ≡ suc (m + n) = omega arith in
    let f : id + suc m ≡ id + 1 + m = omega arith in
    rw (e, f, append_assoc)
      (ap (λ (t : Bytes). bytes_of (d.content (file_name q.path q.subdir id)) ++ t)
        (files_add d q (id + 1) m n))

pub files_missing :
    (d : Disk) (q : Queue) (id n : ℕ)
    → ((k : ℕ) → id ≤ k → k < id + n → d.content (file_name q.path q.subdir k) ≡ none)
    → files d q id n ≡ []
unfolding files
files_missing d q id zero gone = refl
files_missing d q id (suc n) gone =
    rw (gone id (omega arith) (omega arith))
      (files_missing d q (id + 1) n (λ k low high. gone k (omega arith) (omega arith)))

-- What stands behind a place in a file, up to the file `top`.
unfoldable pub rest_of_file : Disk → Handle → Bytes
rest_of_file d fh = drop fh.position (bytes_of (d.content fh.file))

unfoldable pub stream : Disk → Queue → ℕ → Input → Handle → Bytes
unfolding rest_of_file
stream d q top input fh =
    unread input.ib ++ (rest_of_file d fh ++ files d q (input.cp.id + 1) (top - input.cp.id))

-- The bytes that were not scanned are those in front of the place in the open file.
pub record IsWhole (d : Disk) (input : Input) (fh : Handle) : Type 0 where
  pub few : length (unread input.ib) ≤ input.cp.offset
  pub range : input.cp.offset < 2 ^ 64
  pub same :
      drop (input.cp.offset - length (unread input.ib)) (bytes_of (d.content fh.file))
      ≡ unread input.ib ++ rest_of_file d fh

-- Behind a file that is read to its end, over files that are missing, stands another.
pub files_jump :
    (d : Disk) (q : Queue) (id id' top : ℕ)
    → id < id'
    → id' ≤ top
    → ((k : ℕ) → id < k → k < id' → d.content (file_name q.path q.subdir k) ≡ none)
    → files d q (id + 1) (top - id)
      ≡ bytes_of (d.content (file_name q.path q.subdir id')) ++ files d q (id' + 1) (top - id')
files_jump d q id id' top lt le gone =
    let count : top - id ≡ id' - id - 1 + suc (top - id') = omega arith in
    let at : id + 1 + (id' - id - 1) ≡ id' = omega arith in
    rw
      (
        count,
        files_add d q (id + 1) (id' - id - 1) (suc (top - id')),
        files_missing d q (id + 1) (id' - id - 1)
            (λ k low high. gone k (omega arith) (omega arith)),
        at,
      )
      (unfold files in refl)
