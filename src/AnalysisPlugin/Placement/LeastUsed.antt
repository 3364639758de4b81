-- ===== src/AnalysisPlugin/Placement/LeastUsed.antt =====
-- The thread that a plugin gets which is loaded without one is the least used.
use mathlib.Core.Option.{some-injective}
use mathlib.Core.Path.{subst}
use hindsight.Base.{
  ℕ, zero, suc, ◌+◌, ◌≤◌, ◌<◌, ◌≡◌, ◌≢◌, ◌⊎◌, inl, inr, refl, sym, ap, ◌∙◌, true, false, not, ◌&&◌,
  ◌||◌, some, List, [], ◌∷◌, arith, ltb, leb, ◌==◌, if◌then◌else◌, get_elem?, Bool-cases,
}
use hindsight.Config.Options.{uint_max}
use hindsight.AnalysisPlugin.Threads.{AnalysisThread}
use hindsight.AnalysisPlugin.Placement.{
  LeastThread, int_max, lesser_used, scan_threads, least_used_thread_id,
}

-- In the order of the utilization, and then of the number of plugins.
abbrev AtMost : LeastThread → ℕ → ℕ → Type 0
AtMost best util cnt = (best.min_util < util) ⊎ ((best.min_util ≡ util) × (best.min_cnt ≤ cnt))

AtMost-trans :
    (a b : LeastThread) (util cnt : ℕ)
    → AtMost a b.min_util b.min_cnt
    → AtMost b util cnt
    → AtMost a util cnt
AtMost-trans a b util cnt (inl lt) (inl lt') = inl (omega arith)
AtMost-trans a b util cnt (inl lt) (inr (same, le)) = inl (omega arith)
AtMost-trans a b util cnt (inr (same, le)) (inl lt') = inl (omega arith)
AtMost-trans a b util cnt (inr (same, le)) (inr (same', le')) = inr (omega arith, omega arith)

util_le : (best : LeastThread) (util cnt : ℕ) → AtMost best util cnt → best.min_util ≤ util
util_le best util cnt (inl lt) = omega arith
util_le best util cnt (inr (same, le)) = omega arith

is_less-AtMost :
    (u c mu mc : ℕ) → (ltb u mu || (u == mu && ltb c mc)) ≡ true → (u < mu) ⊎ ((u ≡ mu) × (c ≤ mc))
is_less-AtMost u c mu mc less = elim (Bool-cases (ltb u mu)) [
  | inl below ↦ inl (ground (arith, below))
  | inr level ↦
      let same : (u == mu && ltb c mc) ≡ true = rw (level) at less in
      inr (ground (arith, same), ground (arith, same))
]

is_not_less-AtMost :
    (u c mu mc : ℕ) → (ltb u mu || (u == mu && ltb c mc)) ≡ false → (mu < u) ⊎ ((mu ≡ u) × (mc ≤ c))
is_not_less-AtMost u c mu mc more = elim (Bool-cases (u == mu)) [
  | inl same ↦ inr (ground (arith, same), ground (arith, same, more))
  | inr other ↦ inl (ground (arith, other, more))
]

module _ {Plugin : Type 0} where
  -- What the variables stand for is that thread, at a place of a list that begins with number `i`.
  abbrev IsThread : ℕ → List (AnalysisThread Plugin) → LeastThread → Type 0
  IsThread i threads best =
      (k : ℕ) × (at : AnalysisThread Plugin) × (get_elem? threads k ≡ some at)
      × (best.tid ≡ i + k)
      × (best.min_util ≡ at.utilization)
      × (best.min_cnt ≡ at.list_cnt)

  lesser_used-AtMost :
      (i : ℕ) (at : AnalysisThread Plugin) (best : LeastThread)
      → AtMost (lesser_used i at best) at.utilization at.list_cnt
        × AtMost (lesser_used i at best) best.min_util best.min_cnt
        × ((lesser_used i at best ≡ best)
            ⊎ (lesser_used i at best
                ≡ record { tid = i; min_util = at.utilization; min_cnt = at.list_cnt }))
  unfolding lesser_used
  lesser_used-AtMost i at best =
      elim (Bool-cases (
        ltb at.utilization best.min_util
        || (at.utilization == best.min_util && ltb at.list_cnt best.min_cnt))) [
          | inl less ↦ rw (less) (
            inr (refl, omega arith),
            is_less-AtMost at.utilization at.list_cnt best.min_util best.min_cnt less,
            inr refl,
          )
          | inr more ↦ rw (more) (
            is_not_less-AtMost at.utilization at.list_cnt best.min_util best.min_cnt more,
            inr (refl, omega arith),
            inl refl,
          )
        ]

  at_place :
      (i : ℕ) (at : AnalysisThread Plugin) (rest : List (AnalysisThread Plugin)) (b : LeastThread)
      (k : ℕ) (other : AnalysisThread Plugin)
      → let r = scan_threads (i + 1) rest b in
        AtMost r b.min_util b.min_cnt
        → AtMost b at.utilization at.list_cnt
        → ((k : ℕ) (x : AnalysisThread Plugin)
            → get_elem? rest k ≡ some x
            → AtMost r x.utilization x.list_cnt)
        → get_elem? (at ∷ rest) k ≡ some other
        → AtMost r other.utilization other.list_cnt
  at_place i at rest b zero other le at_le all e =
      let r = scan_threads (i + 1) rest b in
      subst (λ (x : AnalysisThread Plugin). AtMost r x.utilization x.list_cnt)
        (some-injective _ _ e) (AtMost-trans r b at.utilization at.list_cnt le at_le)
  at_place i at rest b (suc k) other le at_le all e = all k other e

  found :
      (i : ℕ) (at : AnalysisThread Plugin) (rest : List (AnalysisThread Plugin))
      (best : LeastThread)
      → let b = lesser_used i at best in
        (b ≡ best) ⊎ (b ≡ record { tid = i; min_util = at.utilization; min_cnt = at.list_cnt })
        → (scan_threads (i + 1) rest b ≡ b) ⊎ IsThread (i + 1) rest (scan_threads (i + 1) rest b)
        → (scan_threads (i + 1) rest b ≡ best)
          ⊎ IsThread i (at ∷ rest) (scan_threads (i + 1) rest b)
  found i at rest best (inl kept) (inl last) = inl (last ∙ kept)
  found i at rest best (inr now) (inl last) =
      let is = last ∙ now in
      inr (
        0,
        at,
        refl,
        ap (λ (x : LeastThread). x.tid) is ∙ omega arith,
        ap (λ (x : LeastThread). x.min_util) is,
        ap (λ (x : LeastThread). x.min_cnt) is,
      )
  found i at rest best which (inr (k, other, e, tid, util, cnt)) =
      inr (suc k, other, e, tid ∙ omega arith, util, cnt)

  scan_threads-AtMost :
      (i : ℕ) (threads : List (AnalysisThread Plugin)) (best : LeastThread)
      → AtMost (scan_threads i threads best) best.min_util best.min_cnt
        × ((k : ℕ) (at : AnalysisThread Plugin)
            → get_elem? threads k ≡ some at
            → AtMost (scan_threads i threads best) at.utilization at.list_cnt)
        × ((scan_threads i threads best ≡ best) ⊎ IsThread i threads (scan_threads i threads best))
  unfolding scan_threads
  scan_threads-AtMost i [] best = (inr (refl, omega arith), λ k at e. cc, inl refl)
  scan_threads-AtMost i (at ∷ rest) best =
      let b = lesser_used i at best in
      let (at_le, best_le, which) = lesser_used-AtMost i at best in
      let (le, all, who) = scan_threads-AtMost (i + 1) rest b in
      let r = scan_threads (i + 1) rest b in
      (
        AtMost-trans r b best.min_util best.min_cnt le best_le,
        λ k other e. at_place i at rest b k other le at_le all e,
        found i at rest best which who,
      )

  -- The last test, of a thread that no other is below.
  named_lem :
      (limit : ℕ) (threads : List (AnalysisThread Plugin)) (best : LeastThread)
      → IsThread 0 threads best
      → ((k : ℕ) (at : AnalysisThread Plugin)
          → get_elem? threads k ≡ some at
          → AtMost best at.utilization at.list_cnt)
      → let tid = if not (limit == 0) && leb limit best.min_util then uint_max else best.tid in
        ((tid ≡ uint_max)
          × (limit ≢ 0)
          × ((k : ℕ) (at : AnalysisThread Plugin)
              → get_elem? threads k ≡ some at
              → limit ≤ at.utilization))
        ⊎ ((at : AnalysisThread Plugin) × (get_elem? threads tid ≡ some at)
            × ((limit ≡ 0) ⊎ (at.utilization < limit))
            × ((k : ℕ) (other : AnalysisThread Plugin)
                → get_elem? threads k ≡ some other
                → (at.utilization < other.utilization)
                  ⊎ ((at.utilization ≡ other.utilization) × (at.list_cnt ≤ other.list_cnt))))
  named_lem limit threads best (k, at, e, tid, util, cnt) all =
      elim (Bool-cases (not (limit == 0) && leb limit best.min_util)) [
        | inl full ↦
            let reached : limit ≤ best.min_util = ground (arith, full) in
            rw (full) (
              inl (
                refl,
                λ none_set. ground (arith, full, none_set),
                λ j other there. omega (
                  arith,
                  reached,
                  util_le best other.utilization other.list_cnt (all j other there),
                ),
              ))
        | inr room ↦
            let place : best.tid ≡ k = tid ∙ omega arith in
            rw (room, place)
              (inr (
                at,
                e,
                rw (sym util) (elim (Bool-cases (limit == 0)) [
                  | inl unset ↦ inl (ground (arith, unset))
                  | inr set ↦ inr (ground (arith, set, room))
                ]),
                λ j other there. rw (sym util, sym cnt) (all j other there),
              ))
      ]

  -- Of a list of threads, of which each has fewer than 2 ^ 31 - 1 plugins, least_used_thread_id names
  -- one that no other is below, in utilization or, where that is equal, in the number of its plugins;
  -- its utilization is below the limit, if one is set. Or it names none, by UINT_MAX, and then a limit
  -- is set that every thread reaches.
  pub least_used_thread_id_lem :
      (limit : ℕ) (first : AnalysisThread Plugin) (rest : List (AnalysisThread Plugin))
      → first.utilization ≤ 255
      → first.list_cnt < int_max
      → let threads = first ∷ rest in
        ((least_used_thread_id limit threads ≡ uint_max)
          × (limit ≢ 0)
          × ((k : ℕ) (at : AnalysisThread Plugin)
              → get_elem? threads k ≡ some at
              → limit ≤ at.utilization))
        ⊎ ((at : AnalysisThread Plugin) × (get_elem? threads (least_used_thread_id limit threads)
              ≡ some at)
            × ((limit ≡ 0) ⊎ (at.utilization < limit))
            × ((k : ℕ) (other : AnalysisThread Plugin)
                → get_elem? threads k ≡ some other
                → (at.utilization < other.utilization)
                  ⊎ ((at.utilization ≡ other.utilization) × (at.list_cnt ≤ other.list_cnt))))
  unfolding least_used_thread_id
  least_used_thread_id_lem limit first rest byte few =
      let threads = first ∷ rest in
      let start : LeastThread = record { tid = 0; min_util = 255; min_cnt = int_max } in
      let best = scan_threads 0 threads start in
      let (le, all, who) = scan_threads-AtMost 0 threads start in
      elim who [
        | inl unchanged ↦
            let first_is : AtMost start first.utilization first.list_cnt =
              subst (λ (x : LeastThread). AtMost x first.utilization first.list_cnt) unchanged
                (all 0 first refl) in
            absurd (ground (arith, first_is, byte, few))
        | inr thread ↦ named_lem limit threads best thread all
      ]
