-- ===== src/CheckpointReader.antt =====
-- src/hs_checkpoint_reader.c: the table of checkpoints, which the program keeps as the globals of a
-- Lua state. The order of the list is that of `lua_next`.
pub mod Table
pub mod RoundTrip
pub mod Cleanup
use hindsight.Base.{
  ℕ, zero, suc, ◌+◌, ◌≡◌, Bool, true, false, not, ◌&&◌, Option, none, some, List, [], ◌∷◌, ◌++◌,
  arith, leb, ltb, ◌==◌, if◌then◌else◌,
}
use hindsight.Base.Run.{Run, ok, exit_failure, ◌>>=◌}
use hindsight.CString.{Bytes, codes, str_eq, strtoull, strchr, strstr, is_digit, is_space}
use hindsight.Disk.{Disk}
use hindsight.Util.{max_path, fits, get_fqfn, file_exists, cfg_ext}
use hindsight.Util.LuaString.{escaped}
use hindsight.Checkpoint.{Checkpoint}
use hindsight.QueueFile.{find_first_id}

-- A global of the Lua state. Numbers are those of Lua; `other` stands for all but text and numbers.
pub data LuaValue (Number : Type 0) : Type 0 where
  str : Bytes → LuaValue Number
  num : Number → LuaValue Number
  other : LuaValue Number

abbrev pub Table : Type 0 → Type 0
Table Number = List (Bytes × LuaValue Number)

-- The key of a reader's checkpoint, or of the queue itself.
abbrev pub key_of : Bytes → Option Bytes → Bytes
key_of subdir none = subdir
key_of subdir (some key) = subdir ++ (b'-' ∷ b'>' ∷ key)

-- The two numbers of a text, by what `strchr` finds of the colon.
unfoldable pub two_numbers : Bytes → Option Bytes → Option Checkpoint
two_numbers tmp (some (_ ∷ pos)) = some (record { id = strtoull tmp; offset = strtoull pos })
two_numbers tmp _ = none

unfoldable pub parse_checkpoint : Bytes → Option Checkpoint
unfolding two_numbers
parse_checkpoint tmp = two_numbers tmp (strchr tmp b':')

-- what is found of a queue without a path
unfoldable pub found_or : Option Checkpoint → Checkpoint → Checkpoint
found_or none cp = cp
found_or (some found) cp = found

unfoldable pub first_of_queue : Disk → Bytes → Bytes → Checkpoint → Run Checkpoint
first_of_queue d path subdir cp = elim (get_fqfn path subdir max_path) [
  | none ↦ exit_failure
  | some fqfn ↦ do id ← find_first_id d fqfn; ok (record cp { id = id })
]

-- The text of a C string ends at the first 0.
abbrev pub c_string : Bytes → Bytes
c_string [] = []
c_string (c ∷ s) = if c == 0 then [] else c ∷ c_string s

module _ {Number : Type 0} where
  -- `lua_getglobal`; `none` is nil
  unfoldable pub get : Bytes → Table Number → Option (LuaValue Number)
  get key [] = none
  get key ((k, v) ∷ rest) = if str_eq k key then some v else get key rest

  -- `lua_setglobal` of nil
  unfoldable pub clear : Bytes → Table Number → Table Number
  clear key [] = []
  clear key ((k, v) ∷ rest) =
      let cleared = clear key rest in if str_eq k key then cleared else (k, v) ∷ cleared

  -- `lua_setglobal` of any other value
  unfoldable pub assign : Bytes → LuaValue Number → Table Number → Table Number
  unfolding clear
  assign key v t = (key, v) ∷ clear key t

  -- `hs_update_input_checkpoint`, where `lua_pushfstring` prints a number with `print`
  unfoldable pub update_input_checkpoint :
      (ℕ → Bytes) → Table Number → Bytes → Option Bytes → Checkpoint → Table Number
  unfolding assign
  update_input_checkpoint print t subdir key cp =
      assign (key_of subdir key) (str (print cp.id ++ (b':' ∷ print cp.offset))) t

  unfoldable pub stored_checkpoint : Option (LuaValue Number) → Option Checkpoint
  unfolding parse_checkpoint
  stored_checkpoint (some (str tmp)) = parse_checkpoint tmp
  stored_checkpoint _ = none

  -- Without a checkpoint: the first file of the queue; or, with no path, the queue's own checkpoint,
  -- by the call of the function with no key.
  unfoldable pub missing :
      Disk → Table Number → Bytes → Option Bytes → Option Bytes → Checkpoint → Run Checkpoint
  unfolding first_of_queue found_or
  missing d t subdir key (some path) cp = first_of_queue d path subdir cp
  missing d t subdir none none cp = ok cp
  missing d t subdir (some key) none cp = ok (found_or (stored_checkpoint (get subdir t)) cp)

  unfoldable pub found_or_missing :
      Disk
      → Table Number
      → Bytes
      → Option Bytes
      → Option Bytes
      → Checkpoint
      → Option Checkpoint
      → Run Checkpoint
  unfolding missing
  found_or_missing d t subdir key path cp (some found) = ok found
  found_or_missing d t subdir key path cp none = missing d t subdir key path cp

  -- `hs_lookup_input_checkpoint`; the result is what `cp` points to afterwards
  unfoldable pub lookup_input_checkpoint :
      Disk → Table Number → Bytes → Option Bytes → Option Bytes → Checkpoint → Run Checkpoint
  unfolding found_or_missing stored_checkpoint
  lookup_input_checkpoint d t subdir key path cp =
      found_or_missing d t subdir key path cp (stored_checkpoint (get (key_of subdir key) t))

  -- `hs_remove_checkpoint`
  unfoldable pub remove_checkpoint : Table Number → Bytes → Table Number
  remove_checkpoint t key = clear key t

  -- One line of `hs_output_checkpoints`; `print` is `%.17g`.
  checkpoint_line : (Number → Bytes) → Bytes → LuaValue Number → Bytes
  checkpoint_line print key (str s) =
      codes "_G['" ++ (c_string key ++ (codes "'] = '" ++ (escaped (c_string s) ++ codes "'\n")))
  checkpoint_line print key (num n) =
      codes "_G['" ++ (c_string key ++ (codes "'] = " ++ (print n ++ codes "\n")))
  checkpoint_line print key other = []

  -- `hs_output_checkpoints`, where no write fails
  unfoldable pub output_checkpoints : (Number → Bytes) → Table Number → Bytes
  unfolding checkpoint_line escaped
  output_checkpoints print [] = []
  output_checkpoints print ((key, v) ∷ rest) =
      checkpoint_line print key v ++ output_checkpoints print rest
