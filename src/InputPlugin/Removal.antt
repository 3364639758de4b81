-- ===== src/InputPlugin/Removal.antt =====
-- src/hs_input_plugins.c: input plugins are told to stop and waited for. What a thread does at its own end
-- is in InputPlugin/Thread.
pub mod Counted
use hindsight.Base.{
  ℕ, suc, ◌+◌, ◌-◌, ◌==◌, Bool, true, false, ◌&&◌, ◌||◌, Option, none, some, List, [], ◌∷◌, ◌++◌,
  if◌then◌else◌, length, drop,
}
use hindsight.CString.{Bytes, strstr}
use hindsight.Disk.{is_some}
use hindsight.InputPlugin.{InputPlugin}
use hindsight.InputPlugin.PluginList.{InputPlugins}

-- Whether a thread ends within ten seconds, or within two after its sandbox is stopped, or within two
-- after it is cancelled.
pub record Joining : Type 0 where
  pub clean : Bool
  pub forced : Bool
  pub cancelled : Bool

-- The result of `join_thread`; where it is true, the plugin is destroyed and counted off.
unfoldable pub join_thread : Joining → Bool
join_thread j = if j.clean then true else if j.forced then true else j.cancelled

-- The test of `remove_from_input_plugins`, of the name of the plugin behind `input.`.
unfoldable pub is_named_input : Bytes → Bytes → Bool
unfolding strstr
is_named_input name plugin_name =
    let pos = drop 6 plugin_name in is_some (strstr name pos) && (length pos + 4 == length name)

module _ {Number Stats : Type 0} where
  -- `sem_post` on `shutdown`
  unfoldable pub signal : InputPlugin Number Stats → InputPlugin Number Stats
  signal p = record p { shutdown = p.shutdown + 1 }

  -- `remove_plugin`: what stands in the list afterwards, and the result.
  unfoldable pub signal_and_join :
      Joining → Bytes → InputPlugin Number Stats → Option (Bytes × InputPlugin Number Stats) × Bool
  unfolding join_thread signal
  signal_and_join j name p = if join_thread j then (none, true) else (some (name, signal p), false)

  -- The loop: the list, whether a plugin was taken out, and the result.
  unfoldable pub remove_first :
      Bytes
      → Joining
      → List (Option (Bytes × InputPlugin Number Stats))
      → List (Option (Bytes × InputPlugin Number Stats)) × Bool × Bool
  unfolding signal_and_join is_named_input
  remove_first filename j [] = ([], false, true)
  remove_first filename j (none ∷ rest) =
      let (rest', gone, removed) = remove_first filename j rest in (none ∷ rest', gone, removed)
  remove_first filename j (some (name, p) ∷ rest) =
      let (rest', gone, removed) = remove_first filename j rest in
      let (slot, joined) = signal_and_join j name p in
      if is_named_input filename name
      then (slot ∷ rest, joined, joined)
      else (some (name, p) ∷ rest', gone, removed)

  -- `remove_from_input_plugins`
  unfoldable pub remove_from_input_plugins :
      Bytes → Joining → InputPlugins Number Stats → InputPlugins Number Stats × Bool
  unfolding remove_first
  remove_from_input_plugins filename j plugins =
      let (list, gone, removed) = remove_first filename j plugins.list in
      (
        record { list = list; list_cnt = if gone then plugins.list_cnt - 1 else plugins.list_cnt },
        removed,
      )

  signal_slot :
      Option (Bytes × InputPlugin Number Stats) → Option (Bytes × InputPlugin Number Stats)
  unfolding signal
  signal_slot none = none
  signal_slot (some (name, p)) = some (name, signal p)

  signal_all :
      List (Option (Bytes × InputPlugin Number Stats))
      → List (Option (Bytes × InputPlugin Number Stats))
  unfolding signal_slot
  signal_all [] = []
  signal_all (x ∷ rest) = signal_slot x ∷ signal_all rest

  -- `hs_stop_input_plugins`
  unfoldable pub stop_input_plugins : InputPlugins Number Stats → InputPlugins Number Stats
  unfolding signal_all
  stop_input_plugins plugins = record plugins { list = signal_all plugins.list }

  -- The loop of `hs_wait_input_plugins`, where the threads end as `joining` tells by their names: the
  -- list, and how many have ended. A place becomes empty in any case.
  unfoldable pub wait_all :
      (Bytes → Joining)
      → List (Option (Bytes × InputPlugin Number Stats))
      → List (Option (Bytes × InputPlugin Number Stats)) × ℕ
  unfolding join_thread
  wait_all joining [] = ([], 0)
  wait_all joining (none ∷ rest) = let (rest', n) = wait_all joining rest in (none ∷ rest', n)
  wait_all joining (some (name, p) ∷ rest) =
      let (rest', n) = wait_all joining rest in
      (none ∷ rest', if join_thread (joining name) then n + 1 else n)

  -- `hs_wait_input_plugins`
  unfoldable pub wait_input_plugins :
      (Bytes → Joining) → InputPlugins Number Stats → InputPlugins Number Stats
  unfolding wait_all
  wait_input_plugins joining plugins =
      let (list, n) = wait_all joining plugins.list in
      record { list = list; list_cnt = plugins.list_cnt - n }
