-- ===== src/AnalysisPlugin/Analyze/EachPlugin.antt =====
-- The loops over the plugins of a thread, which take sandboxes out of the list that they go through,
-- against a description without the list.
use mathlib.Core.List.{append_assoc}
use hindsight.Base.{
  ℕ, suc, ◌+◌, ◌-◌, ◌*◌, ◌≡◌, refl, sym, ap, ◌∙◌, Bool, true, false, Option, none, some, List, [],
  ◌∷◌, ◌++◌, arith, length-append, ltb, ◌==◌, if◌then◌else◌, length, get_elem?, set,
}
use hindsight.Base.Run.{Run, ok, exit_failure, ◌>>=◌}
use hindsight.CString.{Bytes}
use hindsight.Inject.{QueueConfig}
use hindsight.QueueReader.{Message}
use hindsight.AnalysisPlugin.Threads.{AnalysisThread}
use hindsight.AnalysisPlugin.Analyze.{
  Library, World, Clock, AnalysisPlugin, analyze_plugin, last_timer_event, reported, remove_plugin,
  terminate_sandbox, conclude, visit, for_plugins, analyze_message, shutdown_timer_event,
}

get_elem?-append :
    {A : Type 0} (pre : List A) (x : A) (rest : List A)
    → get_elem? (pre ++ (x ∷ rest)) (length pre) ≡ some x
get_elem?-append [] x rest = refl
get_elem?-append (y ∷ pre) x rest = get_elem?-append pre x rest

set-append :
    {A : Type 0} (pre : List A) (x y : A) (rest : List A)
    → set (pre ++ (x ∷ rest)) (length pre) y ≡ pre ++ (y ∷ rest)
set-append [] x y rest = refl
set-append (z ∷ pre) x y rest = ap (λ (l : List _). z ∷ l) (set-append pre x y rest)

either : (b : Bool) (n : ℕ) → (if b then n else n) ≡ n
either true n = refl
either false n = refl

longer :
    {A : Type 0} (pre : List A) (x : A) (i : ℕ) → i ≡ length pre → i + 1 ≡ length (pre ++ (x ∷ []))
longer pre x i e = omega (arith, e, length-append pre (x ∷ []))

-- The thread after a number of its sandboxes ended.
abbrev pub without : {P : Type 0} → AnalysisThread P → List (Option P) → ℕ → AnalysisThread P
without at list ended = record {
  list = list;
  list_cnt = at.list_cnt - ended;
  utilization = at.utilization - 5 * ended;
  max_mps = if ended == 0 then at.max_mps else 0;
}

module _ {Sandbox Stats Running : Type 0} (varint : ℕ → Bytes) (cfg : QueueConfig)
    (run_path : Bytes) (lib : Library Sandbox Stats Running) (clock : Clock)
    (handle : ℕ
      → World
      → AnalysisPlugin Sandbox Stats Running
      → Run (World × AnalysisPlugin Sandbox Stats Running × Bool)) where
  abbrev P : Type 0
  P = AnalysisPlugin Sandbox Stats Running

  -- The plugins are handled one after another, in the order of their places. A sandbox that ends is
  -- reported, and leaves its place empty. The number of those is counted.
  unfoldable pub one_by_one : ℕ → World → List (Option P) → Run (World × List (Option P) × ℕ)
  one_by_one i w [] = ok (w, [], 0)
  one_by_one i w (none ∷ rest) = do
    (w', rest', ended) ← one_by_one (i + 1) w rest
    ok (w', none ∷ rest', ended)
  one_by_one i w (some p ∷ rest) = do
    (w1, p1, ends) ← handle i w p
    (w', rest', ended) ←
        one_by_one (i + 1) (if ends then reported varint cfg run_path lib clock i w1 p1 else w1)
          rest
    ok (w', (if ends then none else some p1) ∷ rest', if ends then suc ended else ended)

  conclude_lem :
      (w : World) (at : AnalysisThread P) (pre rest : List (Option P)) (o : Option P) (p : P)
      (ends : Bool)
      → conclude varint cfg run_path lib clock w
          (record at { list = pre ++ (o ∷ rest) })
          (length pre)
          p
          ends
        ≡ (
          if ends then reported varint cfg run_path lib clock (length pre) w p else w,
          without at (pre ++ ((if ends then none else some p) ∷ rest)) (if ends then 1 else 0),
        )
  unfolding conclude terminate_sandbox remove_plugin
  conclude_lem w at pre rest o p true =
      let last : (if ltb 5 at.utilization then at.utilization - 5 else 0) ≡ at.utilization - 5 =
        ground arith in
      rw (set-append pre o (some p) rest, set-append pre (some p) none rest, last) refl
  conclude_lem w at pre rest o p false =
      let count : at.list_cnt - 0 ≡ at.list_cnt = omega arith in
      let share : at.utilization - 0 ≡ at.utilization = omega arith in
      rw (set-append pre o (some p) rest, count, share) refl

  without-without :
      (at : AnalysisThread P) (first pre rest : List (Option P)) (o : Option P) (ends : Bool)
      (ended : ℕ)
      → without (without at first (if ends then 1 else 0)) ((pre ++ (o ∷ [])) ++ rest) ended
        ≡ without at (pre ++ (o ∷ rest)) (if ends then suc ended else ended)
  without-without at first pre rest o true ended =
      let count : at.list_cnt - 1 - ended ≡ at.list_cnt - suc ended = omega arith in
      let share : at.utilization - 5 - 5 * ended ≡ at.utilization - 5 * suc ended = omega arith in
      let later : (suc ended == 0) ≡ false = ground arith in
      rw (append_assoc, count, share, later, either (ended == 0) 0) refl
  without-without at first pre rest o false ended =
      let count : at.list_cnt - 0 ≡ at.list_cnt = omega arith in
      let share : at.utilization - 0 ≡ at.utilization = omega arith in
      rw (append_assoc, count, share) refl

  abbrev ending :
      AnalysisThread P
      → List (Option P)
      → World × List (Option P) × ℕ
      → Run (World × AnalysisThread P)
  ending at pre (w, rest, ended) = ok (w, without at (pre ++ rest) ended)

  abbrev behind : Option P → Bool → World × List (Option P) × ℕ → Run (World × List (Option P) × ℕ)
  behind o ends (w, rest, ended) = ok (w, o ∷ rest, if ends then suc ended else ended)

  -- The rest of the loop, in both views of it.
  agree :
      (at : AnalysisThread P) (first pre : List (Option P)) (o : Option P) (ends : Bool)
      (r : Run (World × List (Option P) × ℕ))
      → (r >>= ending (without at first (if ends then 1 else 0)) (pre ++ (o ∷ [])))
        ≡ (r >>= behind o ends >>= ending at pre)
  agree at first pre o ends exit_failure = refl
  agree at first pre o ends (ok (w', rest', ended)) =
      rw (without-without at first pre rest' o ends ended) refl

  agree_empty :
      (at : AnalysisThread P) (pre : List (Option P)) (r : Run (World × List (Option P) × ℕ))
      → (r >>= ending at (pre ++ (none ∷ []))) ≡ (r >>= behind none false >>= ending at pre)
  agree_empty at pre exit_failure = refl
  agree_empty at pre (ok (w', rest', ended)) = rw (append_assoc) refl

  abbrev one_handled : ℕ → List (Option P) → World × P × Bool → Run (World × List (Option P) × ℕ)
  one_handled i rest (w1, p1, ends) =
      one_by_one (i + 1) (if ends then reported varint cfg run_path lib clock i w1 p1 else w1) rest
      >>= behind (if ends then none else some p1) ends

  -- A plugin whose call has been made, where the rest of the list goes as described.
  handled_lem :
      (i : ℕ) (at : AnalysisThread P) (pre rest : List (Option P)) (p : P)
      (r : Run (World × P × Bool))
      → i ≡ length pre
      → ((w' : World) (at' : AnalysisThread P) (o : Option P)
          → for_plugins varint cfg run_path lib clock handle
              (i + 1)
              (length rest)
              w'
              (record at' { list = (pre ++ (o ∷ [])) ++ rest })
            ≡ (one_by_one (i + 1) w' rest >>= ending at' (pre ++ (o ∷ []))))
      → (r
          >>= (λ ((w', p', ends) : World × P × Bool). ok (
              conclude varint cfg run_path lib clock w'
                (record at { list = pre ++ (some p ∷ rest) })
                i
                p'
                ends))
          >>= (λ ((w', at') : World × AnalysisThread P).
              for_plugins varint cfg run_path lib clock handle (i + 1) (length rest) w' at'))
        ≡ (r >>= one_handled i rest >>= ending at pre)
  handled_lem i at pre rest p exit_failure e loop = refl
  handled_lem i at pre rest p (ok (w', p', ends)) e loop =
      rw (e, conclude_lem w' at pre rest (some p) p' ends)
        (let o : Option P = if ends then none else some p' in
          let w'' = if ends then reported varint cfg run_path lib clock i w' p' else w' in
          let first = pre ++ (o ∷ rest) in
          let at' = without at first (if ends then 1 else 0) in
          rw (sym (append_assoc pre (o ∷ []) rest), sym e)
            (loop w'' at' o ∙ agree at first pre o ends (one_by_one (i + 1) w'' rest)))

  for_plugins_lem :
      (i : ℕ) (w : World) (at : AnalysisThread P) (pre rest : List (Option P))
      → i ≡ length pre
      → for_plugins varint cfg run_path lib clock handle i
          (length rest)
          w
          (record at { list = pre ++ rest })
        ≡ (one_by_one i w rest >>= ending at pre)
  unfolding for_plugins visit one_by_one
  for_plugins_lem i w at pre [] e =
      let count : at.list_cnt - 0 ≡ at.list_cnt = omega arith in
      let share : at.utilization - 0 ≡ at.utilization = omega arith in rw (count, share) refl
  for_plugins_lem i w at pre (none ∷ rest) e =
      let ih = for_plugins_lem (i + 1) w at (pre ++ (none ∷ [])) rest (longer pre none i e) in
      let found : get_elem? (pre ++ (none ∷ rest)) i ≡ some none =
        rw (e) (get_elem?-append pre none rest) in
      rw (found, sym (append_assoc pre (none ∷ []) rest))
        (ih ∙ agree_empty at pre (one_by_one (i + 1) w rest))
  for_plugins_lem i w at pre (some p ∷ rest) e =
      let found : get_elem? (pre ++ (some p ∷ rest)) i ≡ some (some p) =
        rw (e) (get_elem?-append pre (some p) rest) in
      rw (found) (
        handled_lem i at pre rest p (handle i w p) e
          (λ w' at' o. for_plugins_lem (i + 1) w' at' (pre ++ (o ∷ [])) rest (longer pre o i e)))

  -- The thread, with its plugins handled one by one.
  unfoldable pub by_plugin : World → AnalysisThread P → Run (World × AnalysisThread P)
  unfolding one_by_one
  by_plugin w at = one_by_one 0 w at.list >>= ending at []

module _ {Sandbox Stats Running : Type 0} (varint : ℕ → Bytes) (cfg : QueueConfig)
    (run_path : Bytes) (lib : Library Sandbox Stats Running) (clock : Clock) where
  -- The two loops over the list of a thread do what is described without the list: each plugin gets
  -- the message, or the last timer event, in the order of the places, and a sandbox that ends is
  -- reported at once. Afterwards exactly the places of those are empty; as many are taken off the
  -- count, five for each off the utilization, down to 0, and the measure of the thread's speed is
  -- given up if any ended.
  pub analyze_message-by_plugin :
      (sample : Bool) (msg : Option Message) (current_t : ℕ) (w : World)
      (at : AnalysisThread (AnalysisPlugin Sandbox Stats Running))
      → (analyze_message varint cfg run_path lib clock sample msg current_t w at
          ≡ by_plugin varint cfg run_path lib clock
              (analyze_plugin varint cfg run_path lib clock sample msg current_t)
              w
              at)
        × (shutdown_timer_event varint cfg run_path lib clock current_t w at
            ≡ by_plugin varint cfg run_path lib clock
                (last_timer_event varint cfg run_path lib clock current_t)
                w
                at)
  unfolding analyze_message shutdown_timer_event by_plugin
  analyze_message-by_plugin sample msg current_t w at = (
    for_plugins_lem varint cfg run_path lib clock
        (analyze_plugin varint cfg run_path lib clock sample msg current_t) 0 w at [] at.list refl,
    for_plugins_lem varint cfg run_path lib clock
        (last_timer_event varint cfg run_path lib clock current_t) 0 w at [] at.list refl,
  )
