-- ===== src/Util.antt =====
-- src/hs_util.c: file names, Lua strings, and what is kept of a sandbox that was terminated.
pub mod Name
pub mod LuaString
use hindsight.Base.{
  ℕ, zero, suc, ◌+◌, ◌-◌, ◌*◌, ◌/◌, ◌%◌, ◌^◌, ◌≡◌, Bool, true, false, not, ◌&&◌, ◌||◌, Option, none,
  some, List, [], ◌∷◌, ◌++◌, arith, leb, ltb, ◌==◌, if◌then◌else◌, length, drop,
}
use hindsight.CString.{Bytes, codes, str_eq, strchr, strstr}
use hindsight.Disk.{Disk, put, exists, is_some, unlink}

abbrev pub max_path : ℕ
max_path = 260

abbrev pub input_dir : Bytes
input_dir = codes "input"

abbrev pub analysis_dir : Bytes
analysis_dir = codes "analysis"

abbrev pub output_dir : Bytes
output_dir = codes "output"

abbrev pub lua_ext : Bytes
lua_ext = codes ".lua"

abbrev pub cfg_ext : Bytes
cfg_ext = codes ".cfg"

abbrev pub off_ext : Bytes
off_ext = codes ".off"

abbrev pub err_ext : Bytes
err_ext = codes ".err"

abbrev pub rtc_ext : Bytes
rtc_ext = codes ".rtc"

-- `snprintf` into a buffer of `cap` bytes, with the test that follows it: `none` when the text and
-- its closing 0 do not fit.
unfoldable pub fits : ℕ → Bytes → Option Bytes
fits cap text = if ltb (cap - 1) (length text) then none else some text

-- `hs_get_fqfn`; `none` is its result 1
unfoldable pub get_fqfn : Bytes → Bytes → ℕ → Option Bytes
unfolding fits
get_fqfn path name fqfn_len = fits fqfn_len (path ++ (b'/' ∷ name))

unfoldable pub file_exists : Disk → Bytes → Bool
file_exists d fn = exists d fn

existing : Disk → Option Bytes → Option Bytes
existing d none = none
existing d (some fn) = if file_exists d fn then some fn else none

-- `hs_find_lua`: the file in the sandbox's own directory, or else in the installation's.
unfoldable pub find_lua : Disk → Bytes → Bytes → Bytes → Bytes → ℕ → Option Bytes
unfolding fits existing file_exists
find_lua d dir filename install_path ptype fqfn_len =
    let installed = fits fqfn_len (install_path ++ (b'/' ∷ (ptype ++ (b'/' ∷ filename)))) in
    elim (get_fqfn dir filename fqfn_len) [
      | none ↦ none
      | some fn ↦ if file_exists d fn then some fn else existing d installed
    ]

-- `hs_has_ext`: a name that is only an extension is invalid
unfoldable pub has_ext : Bytes → Bytes → Bool
unfolding str_eq
has_ext fn ext =
    if leb (length fn) (length ext) then false else str_eq (drop (length fn - length ext) fn) ext

-- `hs_disk_free_ob`: how many more queue files fit on the disk
unfoldable pub disk_free_ob : Disk → Bytes → ℕ → ℕ
disk_free_ob d path ob_size =
    if ob_size == 0
    then 0
    else elim (d.free_bytes path) [ none ↦ 0 | some n ↦ n / ob_size % 2 ^ 32 ]

-- the text before the first `c`, and what follows that `c`
abbrev split_at : Bytes → ℕ → Option (Bytes × Bytes)
split_at [] c = none
split_at (x ∷ s) c =
    if x == c
    then some ([], s)
    else elim (split_at s c) [ none ↦ none | some (a, b) ↦ some (x ∷ a, b) ]

-- `get_termination_fn`: `<path>/<type>/<name>.err` for a plugin `<type>.<name>`. The two pointers
-- are never null where it is called.
unfoldable pub get_termination_fn : Bytes → Bytes → Option Bytes
unfolding fits
get_termination_fn path name = elim (split_at name b'.') [
  | none ↦ none
  | some (type, rest) ↦ fits max_path (path ++ (b'/' ∷ (type ++ (b'/' ∷ (rest ++ err_ext)))))
]

-- `hs_remove_file`
unfoldable pub remove_file : Disk → Bytes → Bytes → Disk × Bool
unfolding get_fqfn unlink
remove_file d path file = elim (get_fqfn path file max_path) [
  | none ↦ (d, false)
  | some fn ↦ unlink d fn
]

-- The body of the loop of `hs_prune_err`, over what `readdir` returned.
prune_entries : Disk → Bytes → List Bytes → Disk
prune_entries d dir [] = d
prune_entries d dir (e ∷ es) =
    prune_entries (if has_ext e err_ext then (remove_file d dir e).0 else d) dir es

-- `hs_prune_err`
unfoldable pub prune_err : Disk → Bytes → Disk
unfolding prune_entries has_ext remove_file
prune_err d dir = elim (d.entries dir) [ none ↦ d | some es ↦ prune_entries d dir es ]

-- `hs_is_bad_state`: a sandbox whose last error was in restoring its data is started again without
-- them. The message is that of the termination file, which has been written by then.
unfoldable pub is_bad_state : Disk → Bytes → Bytes → Bytes → Disk × Bool
unfolding get_termination_fn unlink strstr
is_bad_state d path name state = elim (get_termination_fn path name) [
  | none ↦ (d, false)
  | some fn ↦ elim (d.content fn) [
    | none ↦ (d, false)
    | some em ↦
        if is_some (strstr em (codes "restore_global_data"))
        then ((unlink (unlink d fn).0 state).0, true)
        else (d, false)
  ]
]

-- `common_termination_err` with either of the functions that end the line: the file is written anew.
unfoldable pub save_termination_err : Disk → Bytes → Bytes → Bytes → Bytes → Disk
unfolding get_termination_fn
save_termination_err d path name stamp err = elim (get_termination_fn path name) [
  | none ↦ d
  | some fn ↦ if d.refuses fn then d else put d fn (some (stamp ++ (err ++ (b'\n' ∷ []))))
]
