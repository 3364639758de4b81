-- ===== src/QueueFile.antt =====
-- The numbered files of a message queue: `extract_id`, `find_first_id` and `hs_find_next_id` of
-- src/hs_checkpoint_reader.c, `extract_id` and `find_last_id` of src/hs_output.c.
pub mod Naming
pub mod Search
use hindsight.Base.{
  ℕ, zero, suc, ◌+◌, ◌≡◌, Bool, true, false, ◌&&◌, Option, none, some, List, [], ◌∷◌, ◌++◌, arith,
  ltb, ◌==◌, if◌then◌else◌, length, drop,
}
use hindsight.Base.Run.{Run, ok, exit_failure, ◌>>=◌}
use hindsight.CString.{Bytes, codes, is_digit, ullong_max, strn_eq, strtoull}
use hindsight.Disk.{Disk}
use hindsight.Util.{get_fqfn, max_path}

-- `for (; i < l && isdigit(fn[i]); ++i);`
unfoldable pub digit_run : Bytes → ℕ
digit_run [] = 0
digit_run (c ∷ s) = if is_digit c then digit_run s + 1 else 0

abbrev pub log_ext : Bytes
log_ext = codes ".log"

-- `extract_id`, which both source files declare with the same body
unfoldable pub extract_id : Bytes → Option ℕ
unfolding strn_eq
extract_id fn =
    let l = length fn in
    let i = digit_run fn in
    if ltb 0 i && (i + 4 == l) && strn_eq 4 (drop i fn) log_ext then some (strtoull fn) else none

-- The loops over `readdir`, from the value of `file_id` on; the bodies of their rounds stand first.
first_step : ℕ → Option ℕ → ℕ
first_step file_id none = file_id
first_step file_id (some current_id) = if ltb current_id file_id then current_id else file_id

first_loop : ℕ → List Bytes → ℕ
first_loop file_id [] = file_id
first_loop file_id (entry ∷ rest) = first_loop (first_step file_id (extract_id entry)) rest

next_step : ℕ → ℕ → Option ℕ → ℕ
next_step start_id file_id none = file_id
next_step start_id file_id (some current_id) =
    if ltb start_id current_id && ltb current_id file_id then current_id else file_id

next_loop : ℕ → ℕ → List Bytes → ℕ
next_loop start_id file_id [] = file_id
next_loop start_id file_id (entry ∷ rest) =
    next_loop start_id (next_step start_id file_id (extract_id entry)) rest

last_step : ℕ → Option ℕ → ℕ
last_step file_id none = file_id
last_step file_id (some current_id) = if ltb file_id current_id then current_id else file_id

last_loop : ℕ → List Bytes → ℕ
last_loop file_id [] = file_id
last_loop file_id (entry ∷ rest) = last_loop (last_step file_id (extract_id entry)) rest

abbrev pub found_or_zero : ℕ → ℕ
found_or_zero file_id = if file_id == ullong_max then 0 else file_id

-- `find_first_id`
unfoldable pub find_first_id : Disk → Bytes → Run ℕ
unfolding first_loop first_step
find_first_id d path = elim (d.entries path) [
  | none ↦ exit_failure
  | some es ↦ ok (found_or_zero (first_loop ullong_max es))
]

-- `hs_find_next_id`
unfoldable pub find_next_id : Disk → Bytes → Bytes → ℕ → Run ℕ
unfolding next_loop next_step get_fqfn
find_next_id d path subdir start_id = elim (get_fqfn path subdir max_path) [
  | none ↦ exit_failure
  | some fqfn ↦ elim (d.entries fqfn) [
    | none ↦ exit_failure
    | some es ↦ ok (found_or_zero (next_loop start_id ullong_max es))
  ]
]

-- `find_last_id` of src/hs_output.c
unfoldable pub find_last_id : Disk → Bytes → ℕ
unfolding last_loop last_step
find_last_id d path = elim (d.entries path) [ none ↦ 0 | some es ↦ last_loop 0 es ]
