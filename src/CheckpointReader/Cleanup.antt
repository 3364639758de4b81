-- ===== src/CheckpointReader/Cleanup.antt =====
-- src/hs_checkpoint_reader.c, hs_cleanup_checkpoints: the checkpoints of plugins and threads that
-- are gone are removed, and no others.
pub mod Gone
use hindsight.Base.{
  ℕ, ◌%◌, ◌≡◌, refl, ◌∙◌, ap, Bool, true, false, not, ◌&&◌, ◌||◌, Option, none, some, List, [], ◌∷◌,
  ◌++◌, arith, leb, ◌==◌, if◌then◌else◌, drop, length, All,
}
use hindsight.Base.Run.{Run, ok, exit_failure, ◌>>=◌}
use hindsight.CString.{
  Bytes, codes, str_eq, str_eq_iff, strtoull, strstr, is_digit, is_space, is_prefix,
}
use hindsight.Disk.{Disk}
use hindsight.Util.{max_path, fits, file_exists, cfg_ext}
use hindsight.CheckpointReader.{Table, get, remove_checkpoint}
use hindsight.CheckpointReader.Table.{get-clear}

-- A conversion of `%hhu` needs a digit behind white space and one sign.
unfoldable pub is_number : Bytes → Bool
is_number [] = false
is_number (c ∷ []) = is_digit c
is_number (c ∷ d ∷ s) =
    let rest = is_number (d ∷ s) in
    if is_space c then rest else if c == b'-' || c == b'+' then is_digit d else is_digit c

-- `sscanf(subkey, "analysis%hhu", &analysis_thread)`, when it converts: the number, in a byte
unfoldable pub analysis_thread : Bytes → Option ℕ
unfolding is_prefix is_number strtoull
analysis_thread subkey =
    let digits = drop (length (codes "analysis")) subkey in
    if is_prefix (codes "analysis") subkey && is_number digits
    then some (strtoull digits % 256)
    else none

-- what `%s` converts, from its first byte on
unfoldable pub word : Bytes → Bytes
word [] = []
word (c ∷ s) = if is_space c then [] else c ∷ word s

unfoldable pub skip_space : Bytes → Bytes
skip_space [] = []
skip_space (c ∷ s) = if is_space c then skip_space s else c ∷ s

-- The text up to a dot, and the word behind it; both have bytes.
unfoldable pub two_parts : Bytes → Bytes → Option (Bytes × Bytes)
two_parts [] name = none
two_parts (c ∷ t) [] = none
two_parts (c ∷ t) (n ∷ name) = some (c ∷ t, n ∷ name)

unfoldable pub split_dot : Bytes → Bytes → Option (Bytes × Bytes)
unfolding two_parts word skip_space
split_dot front [] = none
split_dot front (c ∷ s) =
    if c == b'.' then two_parts front (word (skip_space s)) else split_dot (front ++ (c ∷ [])) s

-- `sscanf(subkey, "%[^.].%s", type, name)`, when it converts both
unfoldable pub type_and_name : Bytes → Option (Bytes × Bytes)
unfolding split_dot
type_and_name subkey = split_dot [] subkey

unfoldable pub after_arrow : Bytes → Option Bytes → Bytes
after_arrow key none = key
after_arrow key (some found) = drop 2 found

-- What stands behind the arrow of a key, or the whole key.
unfoldable pub sub_key : Bytes → Bytes
unfolding strstr after_arrow
sub_key key = after_arrow key (strstr key (codes "->"))

unfoldable pub missing_at : Disk → Option Bytes → Run Bool
missing_at d none = exit_failure
missing_at d (some path) = ok (not (file_exists d path))

unfoldable pub plugin_gone : Disk → Bytes → Option (Bytes × Bytes) → Run Bool
unfolding missing_at
plugin_gone d run_path none = ok false
plugin_gone d run_path (some (type, name)) =
    missing_at d (fits max_path (run_path ++ (b'/' ∷ (type ++ (b'/' ∷ (name ++ cfg_ext))))))

unfoldable pub by_subkey : Disk → Bytes → ℕ → Bytes → Option ℕ → Run Bool
unfolding plugin_gone type_and_name
by_subkey d run_path analysis_threads subkey (some thread) = ok (leb analysis_threads thread)
by_subkey d run_path analysis_threads subkey none = plugin_gone d run_path (type_and_name subkey)

-- Whether the loop of `hs_cleanup_checkpoints` removes a key.
unfoldable pub is_stale : Disk → Bytes → ℕ → Bytes → Run Bool
unfolding sub_key analysis_thread by_subkey
is_stale d run_path analysis_threads key =
    by_subkey d run_path analysis_threads (sub_key key) (analysis_thread (sub_key key))

mentions : Bytes → List Bytes → Bool
mentions key [] = false
mentions key (k ∷ ks) = str_eq k key || mentions key ks

same_stale : (stale : Bytes → Bool) (k key : Bytes) → str_eq k key ≡ true → stale k ≡ stale key
same_stale stale k key h = ap stale ((str_eq_iff k key).0 h)

module _ {Number : Type 0} where
  abbrev pub keys : Table Number → List Bytes
  keys [] = []
  keys ((k, _) ∷ rest) = k ∷ keys rest

  drop_if : Bool → Table Number → Bytes → Table Number
  drop_if b t key = if b then remove_checkpoint t key else t

  -- The loop, over the keys that `lua_next` gives.
  unfoldable pub cleanup_keys : Disk → Bytes → ℕ → List Bytes → Table Number → Run (Table Number)
  unfolding remove_checkpoint drop_if is_stale
  cleanup_keys d run_path analysis_threads [] t = ok t
  cleanup_keys d run_path analysis_threads (key ∷ rest) t = do
    gone ← is_stale d run_path analysis_threads key
    cleanup_keys d run_path analysis_threads rest (drop_if gone t key)

  -- `hs_cleanup_checkpoints`
  unfoldable pub cleanup_checkpoints : Disk → Bytes → ℕ → Table Number → Run (Table Number)
  unfolding cleanup_keys
  cleanup_checkpoints d run_path analysis_threads t =
      cleanup_keys d run_path analysis_threads (keys t) t

  get-drop_if :
      (b : Bool) (t : Table Number) (k key : Bytes)
      → get key (drop_if b t k) ≡ (if b && str_eq k key then none else get key t)
  unfolding drop_if remove_checkpoint
  get-drop_if true t k key = get-clear key k t
  get-drop_if false t k key = refl

  -- one key that was visited, before those of the rest
  both_removed :
      (stale : Bytes → Bool) (t : Table Number) (k key : Bytes) (ks : List Bytes)
      → (if stale key && mentions key ks then none else get key (drop_if (stale k) t k))
        ≡ (if stale key && (str_eq k key || mentions key ks) then none else get key t)
  both_removed stale t k key ks =
      grind (arith, get-drop_if (stale k) t k key, same_stale stale k key)

  cleanup_keys_lem :
      (d : Disk) (run_path : Bytes) (threads : ℕ) (stale : Bytes → Bool) (ks : List Bytes)
      (t : Table Number)
      → All (λ key. is_stale d run_path threads key ≡ ok (stale key)) ks
      → (t' : Table Number) × (cleanup_keys d run_path threads ks t ≡ ok t')
        × ((key : Bytes) → get key t' ≡ (if stale key && mentions key ks then none else get key t))
  unfolding cleanup_keys mentions
  cleanup_keys_lem d run_path threads stale [] t all = (t, refl, λ key. ground arith)
  cleanup_keys_lem d run_path threads stale (k ∷ ks) t (first, all) =
      let (t', e, got) = cleanup_keys_lem d run_path threads stale ks (drop_if (stale k) t k) all in
      (t', rw (first) e, λ key. got key ∙ both_removed stale t k key ks)

  get-mentions : (key : Bytes) (t : Table Number) → mentions key (keys t) ≡ false → get key t ≡ none
  unfolding get mentions
  get-mentions key [] h = refl
  get-mentions key ((k, v) ∷ t) h = grind (arith, get-mentions key t)

  -- When the paths of all keys fit, the clean-up returns, and exactly the stale checkpoints are gone:
  -- those of a thread that is not there any more, and those of a plugin without a configuration in
  -- the run directory. Every other checkpoint has the value it had.
  pub cleanup_checkpoints_lem :
      (d : Disk) (run_path : Bytes) (threads : ℕ) (stale : Bytes → Bool) (t : Table Number)
      → All (λ key. is_stale d run_path threads key ≡ ok (stale key)) (keys t)
      → (t' : Table Number) × (cleanup_checkpoints d run_path threads t ≡ ok t')
        × ((key : Bytes) → get key t' ≡ (if stale key then none else get key t))
  unfolding cleanup_checkpoints
  cleanup_checkpoints_lem d run_path threads stale t all =
      let (t', e, got) = cleanup_keys_lem d run_path threads stale (keys t) t all in
      (t', e, λ key. got key ∙ grind (arith, get-mentions key t))
