-- ===== src/AnalysisPlugin/Analyze/Count.antt =====
-- The count of a thread's plugins, after the loops that end some of them.
use mathlib.Core.Path.{subst}
use hindsight.Base.{
  ℕ, suc, ◌+◌, ◌≤◌, ◌≡◌, refl, sym, ap, ◌∙◌, Bool, true, false, Option, none, some, List, [], ◌∷◌,
  arith, if◌then◌else◌, length,
}
use hindsight.Base.Run.{Run, ok, >>=-eq-ok, ok-injective}
use hindsight.CString.{Bytes}
use hindsight.Inject.{QueueConfig}
use hindsight.QueueReader.{Message}
use hindsight.OutputPlugin.PluginList.Count.{occupied}
use hindsight.AnalysisPlugin.Threads.{AnalysisThread}
use hindsight.AnalysisPlugin.Analyze.{
  Library, World, Clock, AnalysisPlugin, analyze_plugin, analyze_message, reported,
}
use hindsight.AnalysisPlugin.Analyze.EachPlugin.{
  without, one_by_one, by_plugin, analyze_message-by_plugin,
}

-- The count of the list is that of the plugins in it.
abbrev pub IsCounted : {P : Type 0} → AnalysisThread P → Type 0
IsCounted at = at.list_cnt ≡ occupied at.list

module _ {Sandbox Stats Running : Type 0} (varint : ℕ → Bytes) (cfg : QueueConfig)
    (run_path : Bytes) (lib : Library Sandbox Stats Running) (clock : Clock) where
  abbrev P : Type 0
  P = AnalysisPlugin Sandbox Stats Running

  abbrev Balanced : List (Option P) → World × List (Option P) × ℕ → Type 0
  Balanced list (w, list', ended) =
      (occupied list' + ended ≡ occupied list) × (length list' ≡ length list)

  module _ (handle : ℕ → World → P → Run (World × P × Bool)) where
    Balanced-behind :
        (p p' : P) (rest rest' : List (Option P)) (w : World) (ended : ℕ) (ends : Bool)
        → Balanced rest (w, rest', ended)
        → Balanced
            (some p ∷ rest)
            (w, (if ends then none else some p') ∷ rest', if ends then suc ended else ended)
    unfolding occupied
    Balanced-behind p p' rest rest' w ended true (count, size) =
        (omega (arith, count), omega (arith, size))
    Balanced-behind p p' rest rest' w ended false (count, size) =
        (omega (arith, count), omega (arith, size))

    one_by_one-Balanced :
        (i : ℕ) (w : World) (list : List (Option P)) (r : World × List (Option P) × ℕ)
        → one_by_one varint cfg run_path lib clock handle i w list ≡ ok r
        → Balanced list r
    unfolding one_by_one occupied
    one_by_one-Balanced i w [] r e =
        subst (λ (x : World × List (Option P) × ℕ). Balanced [] x) (ok-injective e) (refl, refl)
    one_by_one-Balanced i w (none ∷ rest) r e =
        let (r1, went, is) =
          >>=-eq-ok (one_by_one varint cfg run_path lib clock handle (i + 1) w rest) _ e in
        let (count, size) = one_by_one-Balanced (i + 1) w rest r1 went in
        subst (λ (x : World × List (Option P) × ℕ). Balanced (none ∷ rest) x) (ok-injective is)
          (count, omega (arith, size))
    one_by_one-Balanced i w (some p ∷ rest) r e =
        let ((w1, p1, ends), _, more) = >>=-eq-ok (handle i w p) _ e in
        let ((w2, rest', ended), went, is) =
          >>=-eq-ok
            (one_by_one varint cfg run_path lib clock handle (i + 1)
              (if ends then reported varint cfg run_path lib clock i w1 p1 else w1) rest)
            _ more in
        subst (λ (x : World × List (Option P) × ℕ). Balanced (some p ∷ rest) x) (ok-injective is)
          (Balanced-behind p p1 rest rest' w2 ended ends
            (one_by_one-Balanced (i + 1) _ rest (w2, rest', ended) went))

    by_plugin-IsCounted :
        (w w' : World) (at at' : AnalysisThread P)
        → IsCounted at
        → by_plugin varint cfg run_path lib clock handle w at ≡ ok (w', at')
        → IsCounted at' × (length at'.list ≡ length at.list) × (at'.utilization ≤ at.utilization)
    unfolding by_plugin
    by_plugin-IsCounted w w' at at' counted e =
        let ((w1, list', ended), went, is) =
          >>=-eq-ok (one_by_one varint cfg run_path lib clock handle 0 w at.list) _ e in
        let (count, size) = one_by_one-Balanced 0 w at.list (w1, list', ended) went in
        let same : without at list' ended ≡ at' =
          ap (λ (x : World × AnalysisThread P). x.1) (ok-injective is) in
        subst
          (λ (x : AnalysisThread P).
            IsCounted x × (length x.list ≡ length at.list) × (x.utilization ≤ at.utilization))
          same (omega (arith, count, counted), size, omega arith)

  -- A message, also an idle one, that goes to the plugins of a thread whose count is right leaves the
  -- count right, however many sandboxes it ends; the list keeps its length, and the utilization
  -- does not go up.
  pub analyze_message-IsCounted :
      (sample : Bool) (msg : Option Message) (current_t : ℕ) (w w' : World)
      (at at' : AnalysisThread P)
      → IsCounted at
      → analyze_message varint cfg run_path lib clock sample msg current_t w at ≡ ok (w', at')
      → IsCounted at' × (length at'.list ≡ length at.list) × (at'.utilization ≤ at.utilization)
  analyze_message-IsCounted sample msg current_t w w' at at' counted e =
      by_plugin-IsCounted (analyze_plugin varint cfg run_path lib clock sample msg current_t) w w'
        at at' counted
        (sym (analyze_message-by_plugin varint cfg run_path lib clock sample msg current_t w at).0
          ∙ e)
