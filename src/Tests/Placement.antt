-- ===== src/Tests/Placement.antt =====
-- The thread of a plugin that comes from the load directory.
use hindsight.Base.{
  ℕ, ◌≤◌, ◌<◌, ◌≡◌, ◌≢◌, ◌⊎◌, refl, true, false, none, some, List, [], ◌∷◌, arith, if◌then◌else◌,
  get_elem?,
}
use hindsight.Base.Run.{ok}
use hindsight.CString.{Bytes, codes, str_eq}
use hindsight.Disk.{Disk}
use hindsight.Util.{has_ext, remove_file, get_fqfn, file_exists}
use hindsight.Config.Options.{
  LuaNumber, below_zero, from_zero, number, named, Entries, Checked, valid, uint_max,
}
use hindsight.Config.LoadDirectory.{with_ext}
use hindsight.AnalysisPlugin.Threads.{AnalysisThread}
use hindsight.AnalysisPlugin.Placement.{
  least_used_thread_id, get_tid, get_previous_tid, ext_exists, get_thread_id,
}
use hindsight.AnalysisPlugin.Placement.LeastUsed.{least_used_thread_id_lem}
use hindsight.AnalysisPlugin.Placement.Restart.{get_thread_id-running}

abbrev thread_with : ℕ → ℕ → AnalysisThread ℕ
thread_with util cnt = record { list = []; list_cnt = cnt; utilization = util; max_mps = 0 }

abbrev others : List (AnalysisThread ℕ)
others = thread_with 5 4 ∷ thread_with 5 2 ∷ []

abbrev limit : ℕ
limit = 90

least_used_thread_id_lem_example :
    ((least_used_thread_id limit (thread_with 9 1 ∷ others) ≡ uint_max)
      × (limit ≢ 0)
      × ((k : ℕ) (at : AnalysisThread ℕ)
          → get_elem? (thread_with 9 1 ∷ others) k ≡ some at
          → limit ≤ at.utilization))
    ⊎ ((at : AnalysisThread ℕ) × (get_elem?
            (thread_with 9 1 ∷ others)
            (least_used_thread_id limit (thread_with 9 1 ∷ others))
          ≡ some at)
        × ((limit ≡ 0) ⊎ (at.utilization < limit))
        × ((k : ℕ) (other : AnalysisThread ℕ)
            → get_elem? (thread_with 9 1 ∷ others) k ≡ some other
            → (at.utilization < other.utilization)
              ⊎ ((at.utilization ≡ other.utilization) × (at.list_cnt ≤ other.list_cnt))))
least_used_thread_id_lem_example =
    least_used_thread_id_lem limit (thread_with 9 1) others (omega arith) (omega arith)

-- The plugin was started on thread 3, and its new configuration names thread 2.
abbrev disk : Disk
disk = record {
  content = λ p.
      if str_eq p (codes "load/analysis/a.cfg")
      then some (codes "2")
      else if str_eq p (codes "out/analysis.a.rtc")
      then some (codes "3")
      else none;
  entries = λ _. none;
  refuses = λ _. false;
  free_bytes = λ _. none;
}

abbrev thread_entry : Bytes → Checked (Entries (Unit {0}))
thread_entry [] = valid []
thread_entry (c ∷ _) = valid ((named (codes "thread"), number (from_zero c true)) ∷ [])

abbrev unsigned : LuaNumber → ℕ
unsigned below_zero = 0
unsigned (from_zero n _) = n

get_thread_id-running_example :
    (((get_tid thread_entry unsigned disk (codes "load/analysis") (codes "a.cfg") ≡ uint_max)
        ⊎ (get_tid thread_entry unsigned disk (codes "load/analysis") (codes "a.cfg")
            ≡ get_previous_tid thread_entry unsigned disk (codes "out") (codes "a.cfg")))
      × (get_thread_id thread_entry unsigned disk
            (codes "load/analysis")
            (codes "run/analysis")
            (codes "out")
            (codes "a.cfg")
          ≡ ok (
            disk,
            some (get_previous_tid thread_entry unsigned disk (codes "out") (codes "a.cfg")),
          )))
    ⊎ ((get_tid thread_entry unsigned disk (codes "load/analysis") (codes "a.cfg") ≢ uint_max)
        × (get_tid thread_entry unsigned disk (codes "load/analysis") (codes "a.cfg")
            ≢ get_previous_tid thread_entry unsigned disk (codes "out") (codes "a.cfg"))
        × (get_thread_id thread_entry unsigned disk
              (codes "load/analysis")
              (codes "run/analysis")
              (codes "out")
              (codes "a.cfg")
            ≡ ok ((remove_file disk (codes "load/analysis") (codes "a.cfg")).0, none)))
unfolding has_ext str_eq ext_exists with_ext file_exists get_fqfn
get_thread_id-running_example =
    get_thread_id-running thread_entry unsigned disk (codes "load/analysis") (codes "run/analysis")
      (codes "out") (codes "a.cfg") refl refl refl
