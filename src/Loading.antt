-- ===== src/Loading.antt =====
-- What src/hs_input_plugins.c, src/hs_analysis_plugins.c and src/hs_output_plugins.c each do with new Lua
-- code in the load directory: plugins that use it are started again by their configurations.
use hindsight.Base.{Bool, true, false, Option, none, some, List, [], ◌∷◌, ◌++◌, if◌then◌else◌}
use hindsight.Base.Run.{Run, ok, exit_failure, ◌>>=◌}
use hindsight.CString.{Bytes, str_eq}
use hindsight.Disk.{Disk, rename}
use hindsight.Util.{max_path, get_fqfn, file_exists, cfg_ext}

-- A plugin: its name behind the type, and `lsb_heka_get_lua_file` of its sandbox.
pub record LuaUser : Type 0 where
  pub name : Bytes
  pub lua_file : Bytes

-- A path that is too long ends the process.
abbrev pub with_path {ℓ} : {A : Type ℓ} → Option Bytes → (Bytes → Run A) → Run A
with_path none next = exit_failure
with_path (some fn) next = next fn

-- The configuration that runs goes back to the load directory, unless a new one is there.
unfoldable pub hand_back : Disk → Bytes → Bytes → Bytes → Run Disk
unfolding get_fqfn file_exists rename
hand_back d lpath rpath name = with_path (get_fqfn lpath (name ++ cfg_ext) max_path) (λ cfg_lpath.
    with_path (get_fqfn rpath (name ++ cfg_ext) max_path)
      (λ cfg_rpath. ok (if file_exists d cfg_lpath then d else (rename d cfg_rpath cfg_lpath).0)))

-- The loop over a list of plugins.
unfoldable pub restart_users : Disk → Bytes → Bytes → Bytes → List (Option LuaUser) → Run Disk
unfolding hand_back str_eq
restart_users d lpath rpath lua_rpath [] = ok d
restart_users d lpath rpath lua_rpath (none ∷ rest) = restart_users d lpath rpath lua_rpath rest
restart_users d lpath rpath lua_rpath (some u ∷ rest) = do
  d' ← if str_eq lua_rpath u.lua_file then hand_back d lpath rpath u.name else ok d
  restart_users d' lpath rpath lua_rpath rest

abbrev if_moved : Disk × Bool → (Disk → Run Disk) → Run Disk
if_moved (d, true) next = next d
if_moved (d, false) next = ok d

-- The code goes to the run directory; `next` is what follows, by its path there.
unfoldable pub move_lua : Disk → Bytes → Bytes → Bytes → (Bytes → Disk → Run Disk) → Run Disk
unfolding get_fqfn rename
move_lua d lpath rpath name next = with_path (get_fqfn lpath name max_path) (λ lua_lpath.
    with_path (get_fqfn rpath name max_path)
      (λ lua_rpath. if_moved (rename d lua_lpath lua_rpath) (next lua_rpath)))
