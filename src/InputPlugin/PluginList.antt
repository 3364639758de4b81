-- ===== src/InputPlugin/PluginList.antt =====
-- src/hs_input_plugins.c: an input plugin that is added to the list, with its checkpoint.
use hindsight.Base.{ℕ, ◌+◌, Bool, Option, List}
use hindsight.CString.{Bytes}
use hindsight.CheckpointReader.{Table}
use hindsight.IpCheckpoint.{lookup_checkpoint}
use hindsight.InputPlugin.{InputPlugin}
use hindsight.OutputPlugin.PluginList.{put_plugin}

-- `list`, whose length is `list_cap`, and `list_cnt` of `hs_input_plugins`; a plugin stands with its
-- name
pub record InputPlugins (Number Stats : Type 0) : Type 0 where
  pub list : List (Option (Bytes × InputPlugin Number Stats))
  pub list_cnt : ℕ

module _ {Number Stats : Type 0} where
  -- `add_to_input_plugins`, up to the start of the thread; `malloc` tells whether there is memory for
  -- the checkpoint
  unfoldable pub add_to_input_plugins :
      Bool
      → Table Number
      → Bytes
      → InputPlugin Number Stats
      → InputPlugins Number Stats
      → InputPlugins Number Stats
  unfolding put_plugin lookup_checkpoint
  add_to_input_plugins malloc t name p plugins = record {
    list = put_plugin (name, record p { cp = lookup_checkpoint malloc t name p.cp }) plugins.list;
    list_cnt = plugins.list_cnt + 1;
  }
