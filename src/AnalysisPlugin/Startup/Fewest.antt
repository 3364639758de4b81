-- ===== src/AnalysisPlugin/Startup/Fewest.antt =====
-- The thread with the fewest plugins.
use mathlib.Core.Option.{some-injective}
use hindsight.Base.{
  ℕ, zero, suc, ◌+◌, ◌≤◌, ◌<◌, ◌≡◌, inl, inr, refl, sym, some, List, [], ◌∷◌, arith, ltb, ap, ◌⊎◌,
  if-both, ◌==◌, get_elem?,
}
use hindsight.AnalysisPlugin.Placement.{int_max}
use hindsight.AnalysisPlugin.Startup.{fewest}

-- What the loop has found: a thread among those from `i` on with no more plugins than any of them, or
-- it keeps the one that it began with, which has no more either.
record Found (i thread min_cnt : ℕ) (counts : List ℕ) (k : ℕ) : Type 0 where
  n : ℕ
  where_from :
      ((k ≡ thread) × (n ≡ min_cnt)) ⊎ ((j : ℕ) × (k ≡ i + j) × (get_elem? counts j ≡ some n))
  least : (j m : ℕ) → get_elem? counts j ≡ some m → n ≤ m
  bound : n ≤ min_cnt

least_cons :
    (n : ℕ) (rest : List ℕ) (least : ℕ)
    → least ≤ n
    → ((j m : ℕ) → get_elem? rest j ≡ some m → least ≤ m)
    → (j m : ℕ) → get_elem? (n ∷ rest) j ≡ some m
    → least ≤ m
least_cons n rest least le h zero m e = let same = some-injective _ _ e in omega (arith, le, same)
least_cons n rest least le h (suc j) m e = h j m e

abbrev From : ℕ → ℕ → ℕ → List ℕ → ℕ → ℕ → Type 0
From i thread min_cnt counts k least =
    ((k ≡ thread) × (least ≡ min_cnt)) ⊎ ((j : ℕ) × (k ≡ i + j) × (get_elem? counts j ≡ some least))

-- One place further on; the first place where the loop has begun with it.
shift :
    (i n : ℕ) (rest : List ℕ) (k least thread min_cnt : ℕ)
    → From (i + 1) i n rest k least
    → From i thread min_cnt (n ∷ rest) k least
shift i n rest k least thread min_cnt (inl (at, same)) =
    inr (0, omega (arith, at), ap some (sym same))
shift i n rest k least thread min_cnt (inr (j, at, there)) = inr (suc j, omega (arith, at), there)

further :
    (i n : ℕ) (rest : List ℕ) (k least thread min_cnt : ℕ)
    → From (i + 1) thread min_cnt rest k least
    → From i thread min_cnt (n ∷ rest) k least
further i n rest k least thread min_cnt (inl (at, same)) = inl (at, same)
further i n rest k least thread min_cnt (inr (j, at, there)) = inr (suc j, omega (arith, at), there)

fewest-Found :
    (counts : List ℕ) (i thread min_cnt : ℕ)
    → Found i thread min_cnt counts (fewest i counts thread min_cnt)
unfolding fewest
fewest-Found [] i thread min_cnt = record {
  n = min_cnt;
  where_from = inl (refl, refl);
  least = λ j m e. cc;
  bound = omega arith;
}
fewest-Found (n ∷ rest) i thread min_cnt =
    if-both (Found i thread min_cnt (n ∷ rest)) (n == 0)
      (λ empty.
        let none_there : n ≡ 0 = ground (arith, empty) in
        record {
          n = n;
          where_from = inr (0, omega arith, refl);
          least = λ j m e. omega (arith, none_there);
          bound = omega (arith, none_there);
        })
      (λ _.
        if-both (Found i thread min_cnt (n ∷ rest)) (ltb n min_cnt)
          (λ lower.
            let lt : n < min_cnt = ground (arith, lower) in
            let found = fewest-Found rest (i + 1) i n in
            record {
              n = found.n;
              where_from =
                  shift i n rest (fewest (i + 1) rest i n) found.n thread min_cnt found.where_from;
              least = least_cons n rest found.n found.bound found.least;
              bound = omega (arith, lt, found.bound);
            })
          (λ same.
            let le : min_cnt ≤ n = ground (arith, same) in
            let found = fewest-Found rest (i + 1) thread min_cnt in
            record {
              n = found.n;
              where_from =
                  further i n rest (fewest (i + 1) rest thread min_cnt) found.n thread min_cnt
                    found.where_from;
              least = least_cons n rest found.n (omega (arith, le, found.bound)) found.least;
              bound = found.bound;
            }))

-- A plugin that names no thread, and had none, is started on a thread that has no more plugins, of
-- those that are counted so far, than any other, as long as there is a thread and the counts are below
-- the greatest int.
pub fewest_lem :
    (counts : List ℕ) (first start : ℕ)
    → get_elem? counts 0 ≡ some first
    → first < int_max
    → (n : ℕ) × (get_elem? counts (fewest 0 counts start int_max) ≡ some n)
      × ((j m : ℕ) → get_elem? counts j ≡ some m → n ≤ m)
fewest_lem counts first start there below =
    let found = fewest-Found counts 0 start int_max in
    elim found.where_from [
      | inl (_, none_lower) ↦
          let le = found.least 0 first there in absurd (omega (arith, none_lower, below, le))
      | inr (j, at, here) ↦
          let same : fewest 0 counts start int_max ≡ j = omega (arith, at) in
          (found.n, rw (same) here, found.least)
    ]
