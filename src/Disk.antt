-- ===== src/Disk.antt =====
-- What the program sees of the operating system's files. A path is its bytes. `content` is what
-- opening a file for reading gives, `entries` what `opendir` and `readdir` give, and an operation on
-- a path for which `refuses` holds fails for a reason of the system's own.
use hindsight.Base.{
  ℕ, ◌≡◌, refl, Bool, true, false, not, ◌&&◌, Option, none, some, List, [], ◌∷◌, ◌++◌,
  if◌then◌else◌,
}
use hindsight.CString.{Bytes, str_eq, str_eq_iff}

pub record Disk : Type 0 where
  pub content : Bytes → Option Bytes
  pub entries : Bytes → Option (List Bytes)
  pub refuses : Bytes → Bool
  pub free_bytes : Bytes → Option ℕ  -- `f_bsize * f_bavail` of `statfs`

abbrev pub is_some {ℓ} : {A : Type ℓ} → Option A → Bool
is_some none = false
is_some (some _) = true

-- `fopen(fn, "r")` succeeds
abbrev pub exists : Disk → Bytes → Bool
exists d fn = is_some (d.content fn)

abbrev pub put : Disk → Bytes → Option Bytes → Disk
put d fn v = record d { content = λ p. if str_eq fn p then v else d.content p }

-- `unlink`, which tells whether it succeeded
unfoldable pub unlink : Disk → Bytes → Disk × Bool
unlink d fn = if exists d fn && not (d.refuses fn) then (put d fn none, true) else (d, false)

-- `rename`, which tells whether it succeeded
unfoldable pub rename : Disk → Bytes → Bytes → Disk × Bool
rename d a b =
    if exists d a && not (d.refuses a) && not (d.refuses b)
    then (put (put d a none) b (d.content a), true)
    else (d, false)

-- `mkdir`, which tells whether the directory stands there afterwards
unfoldable pub mkdir : Disk → Bytes → Disk × Bool
mkdir d dir = elim (d.entries dir) [
  | some _ ↦ (d, true)
  | none ↦
      if d.refuses dir
      then (d, false)
      else (record d { entries = λ p. if str_eq dir p then some [] else d.entries p }, true)
]

abbrev add_entry : Disk → Bytes → Bytes → List Bytes → Disk
add_entry d dir name es = record d {
  entries = λ p. if str_eq dir p then some (name ∷ es) else d.entries p;
}

-- `fopen(dir/name, "a+")`: a file that is not there is created, in a directory that is there.
unfoldable pub open_append : Disk → Bytes → Bytes → Option Disk
open_append d dir name =
    let fn = dir ++ (b'/' ∷ name) in
    if d.refuses fn then none else elim (d.entries dir) [
      | none ↦ none
      | some es ↦ some (if exists d fn then d else put (add_entry d dir name es) fn (some []))
    ]

abbrev pub bytes_of : Option Bytes → Bytes
bytes_of none = []
bytes_of (some b) = b

-- `fwrite` at the end of a file that is open for appending
unfoldable pub append : Disk → Bytes → Bytes → Disk
append d fn b = put d fn (some (bytes_of (d.content fn) ++ b))

pub content-append :
    (d : Disk) (fn b p : Bytes)
    → (append d fn b).content p
      ≡ (if str_eq fn p then some (bytes_of (d.content fn) ++ b) else d.content p)
unfolding append
content-append d fn b p = refl

pub content-append_self :
    (d : Disk) (fn b : Bytes) → (append d fn b).content fn ≡ some (bytes_of (d.content fn) ++ b)
unfolding append
content-append_self d fn b = rw ((str_eq_iff fn fn).1 refl)
