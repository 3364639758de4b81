-- ===== src/OutputPlugin/PluginList.antt =====
-- src/hs_output_plugins.c: the list of output plugins, with its empty places.
pub mod Count
use hindsight.Base.{
  ℕ, zero, suc, ◌+◌, ◌-◌, ◌≡◌, Bool, true, false, ◌&&◌, Option, none, some, List, [], ◌∷◌, ◌++◌,
  arith, ◌==◌, if◌then◌else◌, length, drop, set,
}
use hindsight.CString.{Bytes, codes, strstr}
use hindsight.Disk.{is_some}

-- `list`, whose length is `list_cap`, and `list_cnt` of `hs_output_plugins`
pub record OutputPlugins {ℓ} (Plugin : Type ℓ) : Type ℓ where
  pub list : List (Option Plugin)
  pub list_cnt : ℕ

module _ {ℓ} {Plugin : Type ℓ} where
  -- The first empty place, or the length of the list where there is none.
  unfoldable pub first_empty : List (Option Plugin) → ℕ
  first_empty [] = 0
  first_empty (none ∷ rest) = 0
  first_empty (some _ ∷ rest) = suc (first_empty rest)

  -- A plugin is put into the first empty place, or into a new one at the end.
  unfoldable pub put_plugin : Plugin → List (Option Plugin) → List (Option Plugin)
  put_plugin p [] = some p ∷ []
  put_plugin p (none ∷ rest) = some p ∷ rest
  put_plugin p (some q ∷ rest) = some q ∷ put_plugin p rest

  -- `add_plugin`, as `add_to_output_plugins` calls it
  unfoldable pub add_plugin : Plugin → OutputPlugins Plugin → OutputPlugins Plugin
  unfolding put_plugin
  add_plugin p plugins = record {
    list = put_plugin p plugins.list;
    list_cnt = plugins.list_cnt + 1;
  }

  -- The loop of `remove_from_output_plugins`, where `named` tells which plugins have the name.
  unfoldable pub take_out : (Plugin → Bool) → List (Option Plugin) → List (Option Plugin) × Bool
  take_out named [] = ([], false)
  take_out named (none ∷ rest) =
      let (rest', removed) = take_out named rest in (none ∷ rest', removed)
  take_out named (some p ∷ rest) =
      let (rest', removed) = take_out named rest in
      if named p then (none ∷ rest, true) else (some p ∷ rest', removed)

  unfoldable pub remove_where : (Plugin → Bool) → OutputPlugins Plugin → OutputPlugins Plugin × Bool
  unfolding take_out
  remove_where named plugins =
      let (list, removed) = take_out named plugins.list in
      (
        record {
          list = list;
          list_cnt = if removed then plugins.list_cnt - 1 else plugins.list_cnt;
        },
        removed,
      )

-- The test of `remove_from_output_plugins`: the name of the plugin behind `output.`, and a file name
-- with an extension of four bytes.
unfoldable pub is_named : Bytes → Bytes → Bool
unfolding strstr
is_named name plugin_name =
    let pos = drop 7 plugin_name in is_some (strstr name pos) && (length pos + 4 == length name)

-- `remove_from_output_plugins`, of plugins by their names
unfoldable pub remove_from_output_plugins : Bytes → OutputPlugins Bytes → OutputPlugins Bytes × Bool
unfolding remove_where is_named
remove_from_output_plugins name plugins = remove_where (is_named name) plugins
