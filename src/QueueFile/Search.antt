-- ===== src/QueueFile/Search.antt =====
-- What the three searches of a queue's directory find.
use hindsight.Base.{ℕ, ◌≤◌, ◌<◌, ◌≡◌, ◌≢◌, ◌⊎◌, inl, inr, refl, some, List, [], ◌∷◌, arith}
use hindsight.Base.Run.{ok}
use hindsight.CString.{Bytes, ullong_max}
use hindsight.Disk.{Disk}
use hindsight.Util.{get_fqfn, max_path}
use hindsight.QueueFile.{
  extract_id, found_or_zero, first_step, first_loop, next_step, next_loop, last_step, last_loop,
  find_first_id, find_next_id, find_last_id,
}

-- The queue file `id` stands in the directory.
abbrev pub Listed : ℕ → List Bytes → Type 0
Listed id [] = ⊥
Listed id (e ∷ es) = (extract_id e ≡ some id) ⊎ Listed id es

-- The last file: at least as high as all, and one of them, or 0.
pub record IsLast (entries : List Bytes) (r : ℕ) : Type 0 where
  pub highest : (id : ℕ) → Listed id entries → id ≤ r
  pub listed : (r ≡ 0) ⊎ Listed r entries

-- The next file behind `start`; 0 stands for none.
pub record IsNext (entries : List Bytes) (start r : ℕ) : Type 0 where
  pub listed : r ≢ 0 → Listed r entries × (start < r)
  pub nearest : (id : ℕ) → Listed id entries → start < id → id < ullong_max → (r ≢ 0) × (r ≤ id)

-- The first file; 0 stands for none too.
pub record IsFirst (entries : List Bytes) (r : ℕ) : Type 0 where
  pub lowest : (id : ℕ) → Listed id entries → id < ullong_max → Listed r entries × (r ≤ id)
  pub empty : ((id : ℕ) → Listed id entries → ⊥) → r ≡ 0

last_loop-le : (m : ℕ) (es : List Bytes) → m ≤ last_loop m es
unfolding last_loop last_step
last_loop-le m [] = omega arith
last_loop-le m (e ∷ es) = ground (arith, last_loop-le (last_step m (extract_id e)) es)

last_loop_highest : (m : ℕ) (es : List Bytes) (id : ℕ) → Listed id es → id ≤ last_loop m es
unfolding last_loop last_step
last_loop_highest m [] id h = absurd h
last_loop_highest m (e ∷ es) id (inl h) =
    ground (arith, last_loop-le (last_step m (extract_id e)) es)
last_loop_highest m (e ∷ es) id (inr h) = last_loop_highest (last_step m (extract_id e)) es id h

last_loop-Listed : (m : ℕ) (es : List Bytes) → (last_loop m es ≡ m) ⊎ Listed (last_loop m es) es
unfolding last_loop last_step
last_loop-Listed m [] = inl refl
last_loop-Listed m (e ∷ es) = ground (arith, last_loop-Listed (last_step m (extract_id e)) es)

-- `find_last_id` returns the highest number, or 0 where there is no queue file.
pub find_last_id-IsLast :
    (d : Disk) (path : Bytes) (es : List Bytes)
    → d.entries path ≡ some es
    → IsLast es (find_last_id d path)
unfolding find_last_id
find_last_id-IsLast d path es h =
    rw (h, find_last_id)
      (record { highest = last_loop_highest 0 es; listed = last_loop-Listed 0 es })

next_loop-le : (start m : ℕ) (es : List Bytes) → next_loop start m es ≤ m
unfolding next_loop next_step
next_loop-le start m [] = omega arith
next_loop-le start m (e ∷ es) =
    ground (arith, next_loop-le start (next_step start m (extract_id e)) es)

next_loop_nearest :
    (start m : ℕ) (es : List Bytes) (id : ℕ) → Listed id es → start < id → next_loop start m es ≤ id
unfolding next_loop next_step
next_loop_nearest start m [] id h lt = absurd h
next_loop_nearest start m (e ∷ es) id (inl h) lt =
    ground (arith, next_loop-le start (next_step start m (extract_id e)) es)
next_loop_nearest start m (e ∷ es) id (inr h) lt =
    next_loop_nearest start (next_step start m (extract_id e)) es id h lt

next_loop-Listed :
    (start m : ℕ) (es : List Bytes)
    → (next_loop start m es ≡ m)
      ⊎ (Listed (next_loop start m es) es × (start < next_loop start m es))
unfolding next_loop next_step
next_loop-Listed start m [] = inl refl
next_loop-Listed start m (e ∷ es) =
    ground (arith, next_loop-Listed start (next_step start m (extract_id e)) es)

found_or_zero-IsNext :
    (start : ℕ) (es : List Bytes) → IsNext es start (found_or_zero (next_loop start ullong_max es))
found_or_zero-IsNext start es = record {
  listed = λ ne. ground (arith, next_loop-Listed start ullong_max es);
  nearest = λ id h lt max.
      ground (
        arith,
        next_loop-Listed start ullong_max es,
        next_loop_nearest start ullong_max es id h lt,
      );
}

-- `hs_find_next_id` returns, from a directory that it can name and open, the lowest number above
-- the given one, or 0 where there is none.
pub find_next_id-IsNext :
    (d : Disk) (path subdir : Bytes) (start : ℕ) (fqfn : Bytes) (es : List Bytes)
    → get_fqfn path subdir max_path ≡ some fqfn
    → d.entries fqfn ≡ some es
    → (r : ℕ) × (find_next_id d path subdir start ≡ ok r) × IsNext es start r
find_next_id-IsNext d path subdir start fqfn es named opened = (
  found_or_zero (next_loop start ullong_max es),
  unfold find_next_id in ground arith,
  found_or_zero-IsNext start es,
)

first_loop-le : (m : ℕ) (es : List Bytes) → first_loop m es ≤ m
unfolding first_loop first_step
first_loop-le m [] = omega arith
first_loop-le m (e ∷ es) = ground (arith, first_loop-le (first_step m (extract_id e)) es)

first_loop_lowest : (m : ℕ) (es : List Bytes) (id : ℕ) → Listed id es → first_loop m es ≤ id
unfolding first_loop first_step
first_loop_lowest m [] id h = absurd h
first_loop_lowest m (e ∷ es) id (inl h) =
    ground (arith, first_loop-le (first_step m (extract_id e)) es)
first_loop_lowest m (e ∷ es) id (inr h) = first_loop_lowest (first_step m (extract_id e)) es id h

first_loop-Listed : (m : ℕ) (es : List Bytes) → (first_loop m es ≡ m) ⊎ Listed (first_loop m es) es
unfolding first_loop first_step
first_loop-Listed m [] = inl refl
first_loop-Listed m (e ∷ es) = ground (arith, first_loop-Listed (first_step m (extract_id e)) es)

found_or_zero-IsFirst : (es : List Bytes) → IsFirst es (found_or_zero (first_loop ullong_max es))
found_or_zero-IsFirst es = record {
  lowest = λ id h max.
      ground (arith, first_loop-Listed ullong_max es, first_loop_lowest ullong_max es id h);
  empty = λ no. ground (arith, first_loop-Listed ullong_max es, no (first_loop ullong_max es));
}

-- `find_first_id` returns, from a directory that it can open, the lowest number, or 0 where there
-- is no queue file.
pub find_first_id-IsFirst :
    (d : Disk) (path : Bytes) (es : List Bytes)
    → d.entries path ≡ some es
    → (r : ℕ) × (find_first_id d path ≡ ok r) × IsFirst es r
find_first_id-IsFirst d path es opened = (
  found_or_zero (first_loop ullong_max es),
  unfold find_first_id in ground arith,
  found_or_zero-IsFirst es,
)
