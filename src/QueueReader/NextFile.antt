-- ===== src/QueueReader/NextFile.antt =====
-- Going on to the next file, or to one behind files that are missing, loses and repeats nothing.
use mathlib.Core.Path.{subst}
use hindsight.Base.{
  ℕ, ◌+◌, ◌≤◌, ◌<◌, ◌≡◌, ◌≢◌, ◌⊎◌, inl, inr, refl, sym, ap, ◌∙◌, true, false, ◌||◌, none, some,
  List, [], ◌++◌, arith, ltb, ◌==◌, drop, Bool-cases, Option-cases,
}
use hindsight.Base.Run.{ok, >>=-eq-ok, ok-injective}
use hindsight.CString.{Bytes, ullong_max}
use hindsight.Disk.{Disk, bytes_of}
use hindsight.Util.{get_fqfn, max_path}
use hindsight.Inject.{add64}
use hindsight.QueueFile.Search.{Listed, IsNext, find_next_id-IsNext}
use hindsight.Input.{Handle, Input, open_file}
use hindsight.Input.Place.{unread}
use hindsight.QueueReader.{
  Queue, Reader, open_id, open_behind, skip_missing, unless_opened, unless_opened_anew, next_file,
  next_file_timed, Pace, every_round, once_a_second, go_on,
}
use hindsight.QueueReader.Stream.{file_name, rest_of_file, stream, files_jump, IsWhole}
use hindsight.QueueReader.Opening.{IsPlaced, IsOpened, Listed-le, open_file-Outcome}

begun-IsWhole :
    (d : Disk) (input : Input) (fh : Handle)
    → unread input.ib ≡ []
    → input.cp.offset ≡ 0
    → fh.position ≡ 0
    → IsWhole d input fh
unfolding rest_of_file
begun-IsWhole d input fh empty begins place = record {
  few = rw (empty) (omega arith);
  range = rw (begins) (omega arith);
  same = rw (empty, begins, place) refl;
}

-- The directory of a queue with the files up to `top`.
pub record IsQueue (d : Disk) (q : Queue) (top : ℕ) : Type 0 where
  pub dir : Bytes
  pub listing : List Bytes
  pub named : get_fqfn q.path q.subdir max_path ≡ some dir
  pub entries : d.entries dir ≡ some listing
  pub listed :
      (id : ℕ)
      → id ≤ ullong_max
      → d.content (file_name q.path q.subdir id) ≢ none
      → Listed id listing × (id ≤ top)
  pub below : top < ullong_max

module _ (d : Disk) (q : Queue) (top : ℕ) (queue : IsQueue d q top) where
  -- One place goes on to another without losing or repeating a byte.
  pub record Continues (old new : Input) (fh fh' : Handle) : Type 0 where
    pub placed : IsPlaced q new fh'
    pub within : new.cp.id ≤ top
    pub same : stream d q top old fh ≡ stream d q top new fh'
    pub whole : unread old.ib ≡ [] → IsWhole d old fh → IsWhole d new fh'

  pub Continues-refl :
      (r : Input) (fh : Handle) → IsPlaced q r fh → r.cp.id ≤ top → Continues r r fh fh
  Continues-refl r fh placed le = record {
    placed = placed;
    within = le;
    same = refl;
    whole = λ _ whole. whole;
  }

  opened-Continues :
      (old new : Input) (fh fh' : Handle) (id : ℕ)
      → old.cp.id < id
      → rest_of_file d fh ≡ []
      → ((k : ℕ) → old.cp.id < k → k < id → d.content (file_name q.path q.subdir k) ≡ none)
      → IsOpened d q id old new fh'
      → Continues old new fh fh'
  unfolding stream rest_of_file
  opened-Continues old new fh fh' id lt read gone o =
      let le : id ≤ top = (queue.listed id (rw (o.number) at o.placed.range) o.there).1 in
      let whole : drop fh'.position (bytes_of (d.content fh'.file))
          ≡ bytes_of (d.content (file_name q.path q.subdir id)) =
        rw (o.begins, o.placed.file, o.number) refl in
      record {
        placed = o.placed;
        within = rw (o.number) le;
        same =
            rw (read, o.buffer, whole, o.number)
              (ap (λ (t : Bytes). unread old.ib ++ t) (files_jump d q old.cp.id id top lt le gone));
        whole = λ empty _.
            begun-IsWhole d new fh' (rw (o.buffer) empty) (sym o.placed.place ∙ o.begins) o.begins;
      }

  abbrev pub Goes : Input → Input → Handle → Type 0
  Goes old new fh = (fh' : Handle) × Continues old new fh fh'

  open_id-Goes :
      (r r' : Reader) (fh : Handle) (id : ℕ)
      → IsPlaced q r.input fh
      → r.input.cp.id ≤ top
      → r.input.cp.id < id
      → id ≤ ullong_max
      → rest_of_file d fh ≡ []
      → ((k : ℕ) → r.input.cp.id < k → k < id → d.content (file_name q.path q.subdir k) ≡ none)
      → open_id d q r id ≡ ok r'
      → ((r'.next ≡ false) × (r'.input ≡ r.input)) ⊎ ((r'.next ≡ true) × Goes r.input r'.input fh)
  unfolding open_id
  open_id-Goes r r' fh id placed le lt range read gone e =
      let ((new, b), opened, same) = >>=-eq-ok (open_file d r.input q.subdir id) _ e in
      let is : record r { input = new; next = b } ≡ r' = ok-injective same in
      elim (open_file-Outcome d q r.input new fh id b placed (omega arith) range opened) [
        | inl (fail, kept, _) ↦ inl (
          sym (ap (λ (x : Reader). x.next) is) ∙ fail,
          sym (ap (λ (x : Reader). x.input) is) ∙ kept,
        )
        | inr (success, (fh', o)) ↦ inr (
          sym (ap (λ (x : Reader). x.next) is) ∙ success,
          subst (λ (x : Reader). Goes r.input x.input fh) is
              (fh', opened-Continues r.input new fh fh' id lt read gone o),
        )
      ]

  reach :
      (r r' : Reader) (fh : Handle)
      → IsPlaced q r.input fh
      → r.input.cp.id ≤ top
      → ((r'.next ≡ false) × (r'.input ≡ r.input)) ⊎ ((r'.next ≡ true) × Goes r.input r'.input fh)
      → Goes r.input r'.input fh
  reach r r' fh placed le (inl (_, kept)) = rw (kept) (fh, Continues-refl r.input fh placed le)
  reach r r' fh placed le (inr (_, goes)) = goes

  -- Between a file and the next one that the directory lists there is none.
  nothing_between :
      (start id : ℕ)
      → IsNext queue.listing start id
      → id ≤ ullong_max
      → (k : ℕ) → start < k
      → k < id
      → d.content (file_name q.path q.subdir k) ≡ none
  nothing_between start id next range k low high =
      elim (Option-cases (d.content (file_name q.path q.subdir k))) [
        | inl gone ↦ gone
        | inr (c, there) ↦
            let (listed, _) = queue.listed k (omega arith) (rw (there) (λ f. cc)) in
            let (_, le) = next.nearest k listed low (omega arith) in absurd (omega arith)
      ]

  open_behind-Goes :
      (r r' : Reader) (fh : Handle) (id : ℕ)
      → IsPlaced q r.input fh
      → r.input.cp.id ≤ top
      → rest_of_file d fh ≡ []
      → IsNext queue.listing r.input.cp.id id
      → open_behind d q r id ≡ ok r'
      → Goes r.input r'.input fh
  unfolding open_behind
  open_behind-Goes r r' fh id placed le read next e =
      let step : add64 r.input.cp.id 1 ≡ r.input.cp.id + 1 = omega (arith, queue.below) in
      elim (Bool-cases (ltb (add64 r.input.cp.id 1) id)) [
        | inl further ↦
            let lt : r.input.cp.id < id = ground (arith, step) in
            let range = Listed-le id queue.listing (next.listed (omega arith)).0 in
            reach r r' fh placed le (
              open_id-Goes r r' fh id placed le lt range read
                (nothing_between r.input.cp.id id next range) (rw (further) at e))
        | inr near ↦
            subst (λ (x : Reader). Goes r.input x.input fh) (ok-injective (rw (near) at e))
              (fh, Continues-refl r.input fh placed le)
      ]

  skip_missing-Goes :
      (r r' : Reader) (fh : Handle)
      → IsPlaced q r.input fh
      → r.input.cp.id ≤ top
      → rest_of_file d fh ≡ []
      → skip_missing d q r ≡ ok r'
      → Goes r.input r'.input fh
  unfolding skip_missing
  skip_missing-Goes r r' fh placed le read e =
      elim (Bool-cases (ltb 60 r.wait_cnt || ltb r.input.cp.offset q.output_size)) [
        | inl search_dir ↦
            let (id, found, next) =
              find_next_id-IsNext d q.path q.subdir r.input.cp.id queue.dir queue.listing
                queue.named queue.entries in
            let (r1, went, same) =
              >>=-eq-ok (open_behind d q r id) _ (rw (search_dir, found) at e) in
            subst (λ (x : Reader). Goes r.input x.input fh) (ok-injective same)
              (open_behind-Goes r r1 fh id placed le read next went)
        | inr wait ↦
            subst (λ (x : Reader). Goes r.input x.input fh) (ok-injective (rw (wait) at e))
              (fh, Continues-refl r.input fh placed le)
      ]

  next_after :
      (r r' : Reader) (fh : Handle)
      → IsPlaced q r.input fh
      → r.input.cp.id ≤ top
      → rest_of_file d fh ≡ []
      → open_id d q r (add64 r.input.cp.id 1) ≡ ok r'
      → ((r'.next ≡ false) × (r'.input ≡ r.input)) ⊎ ((r'.next ≡ true) × Goes r.input r'.input fh)
  next_after r r' fh placed le read e =
      let step : add64 r.input.cp.id 1 ≡ r.input.cp.id + 1 = omega (arith, queue.below) in
      open_id-Goes r r' fh (add64 r.input.cp.id 1) placed le (omega (arith, step))
        (omega (arith, step, queue.below)) read (λ k low high. absurd (omega (arith, step))) e

  -- The result of a try, seen from the place before it.
  abbrev Tried : Input → Reader → Handle → Type 0
  Tried old r fh = ((r.next ≡ false) × (r.input ≡ old)) ⊎ ((r.next ≡ true) × Goes old r.input fh)

  after_failure :
      (old : Input) (r r' : Reader) (fh : Handle)
      → IsPlaced q old fh
      → old.cp.id ≤ top
      → rest_of_file d fh ≡ []
      → r.input ≡ old
      → skip_missing d q r ≡ ok r'
      → Goes old r'.input fh
  after_failure old r r' fh placed le read kept e =
      subst (λ (x : Input). Goes x r'.input fh) kept
        (skip_missing-Goes r r' fh (subst (λ (x : Input). IsPlaced q x fh) (sym kept) placed)
          (subst (λ (x : Input). x.cp.id ≤ top) (sym kept) le) read e)

  unless_opened-Goes :
      (old : Input) (r r' : Reader) (fh : Handle)
      → IsPlaced q old fh
      → old.cp.id ≤ top
      → rest_of_file d fh ≡ []
      → Tried old r fh
      → (unless_opened d q r ≡ ok r') ⊎ (unless_opened_anew d q r ≡ ok r')
      → Goes old r'.input fh
  unfolding unless_opened unless_opened_anew
  unless_opened-Goes old r r' fh placed le read (inl (shut, kept)) (inl e) =
      after_failure old _ r' fh placed le read kept (rw (shut) at e)
  unless_opened-Goes old r r' fh placed le read (inl (shut, kept)) (inr e) =
      after_failure old _ r' fh placed le read kept (rw (shut) at e)
  unless_opened-Goes old r r' fh placed le read (inr (done, goes)) (inl e) =
      subst (λ (x : Reader). Goes old x.input fh) (ok-injective (rw (done) at e)) goes
  unless_opened-Goes old r r' fh placed le read (inr (done, goes)) (inr e) =
      subst (λ (x : Reader). Goes old x.input fh) (ok-injective (rw (done) at e)) goes

  pub go_on-Goes :
      (pace : Pace) (r r' : Reader) (fh : Handle)
      → IsPlaced q r.input fh
      → r.input.cp.id ≤ top
      → rest_of_file d fh ≡ []
      → go_on d q pace r ≡ ok r'
      → Goes r.input r'.input fh
  unfolding go_on next_file next_file_timed
  go_on-Goes every_round r r' fh placed le read e =
      let (r1, went, rest) = >>=-eq-ok (open_id d q r (add64 r.input.cp.id 1)) _ e in
      unless_opened-Goes r.input r1 r' fh placed le read (next_after r r1 fh placed le read went)
        (inl rest)
  go_on-Goes (once_a_second current_t) r r' fh placed le read e =
      elim (Bool-cases (r.timer == current_t)) [
        | inl early ↦
            subst (λ (x : Reader). Goes r.input x.input fh) (ok-injective (rw (early) at e))
              (fh, Continues-refl r.input fh placed le)
        | inr due ↦
            let now = record r { timer = current_t } in
            let (r1, went, rest) =
              >>=-eq-ok (open_id d q now (add64 r.input.cp.id 1)) _ (rw (due) at e) in
            unless_opened-Goes r.input r1 r' fh placed le read
              (next_after now r1 fh placed le read went) (inr rest)
      ]
