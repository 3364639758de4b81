-- ===== src/Tests/PluginLists.antt =====
-- The list of output plugins.
use hindsight.Base.{◌≡◌, refl, true, none, some, [], ◌∷◌}
use hindsight.CString.{Bytes, codes, strstr, is_prefix}
use hindsight.OutputPlugin.PluginList.{
  OutputPlugins, is_named, remove_where, remove_from_output_plugins, take_out,
}
use hindsight.AnalysisPlugin.Threads.{AnalysisThread}

abbrev plugins : OutputPlugins Bytes
plugins = record {
  list = some (codes "output.a") ∷ none ∷ some (codes "output.b") ∷ [];
  list_cnt = 2;
}

removed_by_name :
    remove_from_output_plugins (codes "b.off") plugins
    ≡ (record { list = some (codes "output.a") ∷ none ∷ none ∷ []; list_cnt = 1 }, true)
unfolding remove_from_output_plugins remove_where take_out is_named strstr is_prefix
removed_by_name = refl

abbrev idle : AnalysisThread Bytes
idle = record { list = []; list_cnt = 0; utilization = 252; max_mps = 9 }
