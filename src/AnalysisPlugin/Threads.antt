-- ===== src/AnalysisPlugin/Threads.antt =====
-- src/hs_analysis_plugins.c: an analysis plugin that is added to the list of its thread.
use hindsight.Base.{
  ℕ, ◌+◌, ◌-◌, ◌%◌, ◌≤◌, ◌<◌, ◌≡◌, ◌≢◌, Option, none, some, List, arith, ltb, if◌then◌else◌, length,
  get_elem?, set, get_elem?-set_self, get_elem?-set_ne,
}
use hindsight.OutputPlugin.PluginList.{put_plugin}

-- The part of `hs_analysis_thread` that a new plugin changes; the length of the list is `list_cap`.
pub record AnalysisThread (Plugin : Type 0) : Type 0 where
  pub list : List (Option Plugin)
  pub list_cnt : ℕ
  pub utilization : ℕ  -- uint8_t
  pub max_mps : ℕ

module _ {Plugin : Type 0} where
  -- `add_plugin`, with the change of the list by `add_to_analysis_plugins`
  unfoldable pub with_new_plugin : Plugin → AnalysisThread Plugin → AnalysisThread Plugin
  unfolding put_plugin
  with_new_plugin p at = record {
    list = put_plugin p at.list;
    list_cnt = at.list_cnt + 1;
    utilization = if ltb 5 (255 - at.utilization) then at.utilization + 5 else 255;
    max_mps = 0;
  }

  on_thread :
      List (AnalysisThread Plugin)
      → ℕ
      → Plugin
      → Option (AnalysisThread Plugin)
      → List (AnalysisThread Plugin)
  on_thread threads i p none = threads
  on_thread threads i p (some at) = set threads i (with_new_plugin p at)

  -- `add_to_analysis_plugins`, where `thread` is that of the plugin's configuration and the number of
  -- threads is the length of the list
  unfoldable pub add_to_analysis_plugins :
      ℕ → List (AnalysisThread Plugin) → Plugin → List (AnalysisThread Plugin)
  unfolding on_thread with_new_plugin
  add_to_analysis_plugins thread threads p =
      let i = thread % length threads in on_thread threads i p (get_elem? threads i)

  -- A plugin is added to the one thread that its number, modulo the number of threads, names, and every
  -- other thread stays as it is. The estimated utilization of the thread remains a byte.
  pub add_to_analysis_plugins_lem :
      (thread : ℕ) (threads : List (AnalysisThread Plugin)) (p : Plugin)
      (at : AnalysisThread Plugin)
      → get_elem? threads (thread % length threads) ≡ some at
      → thread % length threads < length threads
      → at.utilization ≤ 255
      → (get_elem? (add_to_analysis_plugins thread threads p) (thread % length threads)
          ≡ some (with_new_plugin p at))
        × ((with_new_plugin p at).utilization ≤ 255)
        × ((j : ℕ)
            → thread % length threads ≢ j
            → get_elem? (add_to_analysis_plugins thread threads p) j ≡ get_elem? threads j)
  unfolding add_to_analysis_plugins on_thread with_new_plugin
  add_to_analysis_plugins_lem thread threads p at here below byte =
      let i = thread % length threads in
      (
        rw (here) (get_elem?-set_self threads i (with_new_plugin p at) below),
        ground (arith, byte),
        λ j apart. rw (here) (get_elem?-set_ne threads i j (with_new_plugin p at) apart),
      )
