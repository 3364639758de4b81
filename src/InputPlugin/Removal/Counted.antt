-- ===== src/InputPlugin/Removal/Counted.antt =====
-- The count of the list of input plugins.
use hindsight.Base.{
  ℕ, ◌+◌, ◌-◌, ◌≡◌, refl, Bool, true, false, Option, none, some, List, [], ◌∷◌, arith,
  if◌then◌else◌, if-both,
}
use hindsight.CString.{Bytes}
use hindsight.OutputPlugin.PluginList.Count.{occupied}
use hindsight.InputPlugin.{InputPlugin}
use hindsight.InputPlugin.PluginList.{InputPlugins}
use hindsight.InputPlugin.Removal.{
  Joining, join_thread, signal, signal_and_join, is_named_input, remove_first,
  remove_from_input_plugins,
}

abbrev as_count : Bool → ℕ
as_count true = 1
as_count false = 0

abbrev Slots : Type 0 → Type 0 → Type 0
Slots Number Stats = List (Option (Bytes × InputPlugin Number Stats))

counted_off :
    (gone : Bool) (cnt before after : ℕ)
    → after + as_count gone ≡ before
    → cnt ≡ before
    → (if gone then cnt - 1 else cnt) ≡ after
counted_off true cnt before after h k = omega (arith, h, k)
counted_off false cnt before after h k = omega (arith, h, k)

module _ {Number Stats : Type 0} where
  joined_slot :
      (j : Joining) (name : Bytes) (p : InputPlugin Number Stats) (rest : Slots Number Stats)
      → occupied ((signal_and_join j name p).0 ∷ rest) + as_count (signal_and_join j name p).1
        ≡ occupied rest + 1
  unfolding signal_and_join occupied
  joined_slot j name p rest =
      if-both
        (λ (x : Option (Bytes × InputPlugin Number Stats) × Bool).
          occupied (x.0 ∷ rest) + as_count x.1 ≡ occupied rest + 1)
        (join_thread j) {x = (none, true)} {y = (some (name, signal p), false)} (λ _. refl)
        (λ _. omega arith)

  -- What is gone from the list, and that the result is false only where a plugin stays.
  remove_first-occupied :
      (filename : Bytes) (j : Joining) (list : Slots Number Stats)
      → let (list', gone, removed) = remove_first filename j list in
        occupied list' + as_count gone ≡ occupied list
  unfolding remove_first occupied
  remove_first-occupied filename j [] = refl
  remove_first-occupied filename j (none ∷ rest) = remove_first-occupied filename j rest
  remove_first-occupied filename j (some (name, p) ∷ rest) =
      let (slot, joined) = signal_and_join j name p in
      let (rest', gone, removed) = remove_first filename j rest in
      if-both
        (λ (x : Slots Number Stats × Bool × Bool). occupied x.0 + as_count x.1 ≡ occupied rest + 1)
        (is_named_input filename name) {x = (slot ∷ rest, joined, joined)}
        {y = (some (name, p) ∷ rest', gone, removed)} (λ _. joined_slot j name p rest)
        (λ _. omega (arith, remove_first-occupied filename j rest))

  -- The count of the list is that of the plugins in it. After a plugin was to be removed it is so again,
  -- also where its thread does not end: the plugin stays in its place then, and is counted.
  pub remove_from_input_plugins-occupied :
      (filename : Bytes) (j : Joining) (plugins : InputPlugins Number Stats)
      → plugins.list_cnt ≡ occupied plugins.list
      → let (plugins', removed) = remove_from_input_plugins filename j plugins in
        plugins'.list_cnt ≡ occupied plugins'.list
  unfolding remove_from_input_plugins
  remove_from_input_plugins-occupied filename j plugins h =
      counted_off (remove_first filename j plugins.list).1 plugins.list_cnt (occupied plugins.list)
        (occupied (remove_first filename j plugins.list).0)
        (remove_first-occupied filename j plugins.list) h
