-- ===== src/CheckpointReader/RoundTrip.antt =====
-- src/hs_checkpoint_reader.c: a checkpoint that hs_update_input_checkpoint stored is the one that
-- hs_lookup_input_checkpoint finds.
use mathlib.Core.List.{append-nil}
use hindsight.Base.{
  ℕ, ◌≡◌, refl, sym, ◌∙◌, ap, Option, none, some, false, arith, ◌<◌, ◌≤◌, ◌^◌, ◌==◌, [], ◌∷◌, ◌++◌,
  All, if◌then◌else◌,
}
use hindsight.Base.Run.{ok}
use hindsight.CString.{Bytes, strtoull, str_eq, ullong_max}
use hindsight.CString.Decimal.{decimal, Digits, decimal-Digits, strtoull-decimal}
use hindsight.CString.Search.{strchr-append}
use hindsight.Disk.{Disk}
use hindsight.Checkpoint.{Checkpoint}
use hindsight.CheckpointReader.{
  Table, get, str, key_of, two_numbers, parse_checkpoint, found_or_missing, stored_checkpoint,
  missing, found_or, update_input_checkpoint, lookup_input_checkpoint,
}
use hindsight.CheckpointReader.Table.{get-assign, str_eq_refl}

Digits-no_colon : (s : Bytes) → Digits s → All (λ c. (c == b':') ≡ false) s
Digits-no_colon [] h = tt
Digits-no_colon (c ∷ s) h = (ground (arith, h.0), Digits-no_colon s h.1)

strtoull-whole : (n : ℕ) → n ≤ ullong_max → strtoull (decimal n) ≡ n
strtoull-whole n h = sym (ap strtoull (append-nil (decimal n))) ∙ strtoull-decimal n [] h tt

str_eq-longer : (a s : Bytes) (c : ℕ) → str_eq a (a ++ (c ∷ s)) ≡ false
unfolding str_eq
str_eq-longer [] s c = refl
str_eq-longer (x ∷ a) s c = ground (arith, str_eq-longer a s c)

parse_checkpoint_lem :
    (cp : Checkpoint)
    → cp.id < 10 ^ 14
    → cp.offset < 10 ^ 14
    → parse_checkpoint (decimal cp.id ++ (b':' ∷ decimal cp.offset)) ≡ some cp
unfolding parse_checkpoint two_numbers
parse_checkpoint_lem cp i o =
    rw
      (
        strchr-append (decimal cp.id) b':' (decimal cp.offset)
            (Digits-no_colon (decimal cp.id) (decimal-Digits cp.id)),
        strtoull-decimal cp.id (b':' ∷ decimal cp.offset) (omega arith) refl,
        strtoull-whole cp.offset (omega arith),
      )
      refl

module _ {Number : Type 0} where
  pub get-update_input_checkpoint :
      (k : Bytes) (t : Table Number) (print : ℕ → Bytes) (subdir : Bytes) (key : Option Bytes)
      (cp : Checkpoint)
      → get k (update_input_checkpoint print t subdir key cp) ≡ (
          if str_eq (key_of subdir key) k
          then some (str (print cp.id ++ (b':' ∷ print cp.offset)))
          else get k t)
  unfolding update_input_checkpoint
  get-update_input_checkpoint k t print subdir key cp =
      get-assign k (key_of subdir key) (str (print cp.id ++ (b':' ∷ print cp.offset))) t

  pub stored-update :
      (t : Table Number) (print : ℕ → Bytes) (subdir : Bytes) (key : Option Bytes) (cp : Checkpoint)
      → ((n : ℕ) → n < 10 ^ 14 → print n ≡ decimal n)
      → cp.id < 10 ^ 14
      → cp.offset < 10 ^ 14
      → stored_checkpoint (get (key_of subdir key) (update_input_checkpoint print t subdir key cp))
        ≡ some cp
  unfolding stored_checkpoint
  stored-update t print subdir key cp prints i o =
      rw
        (
          get-update_input_checkpoint (key_of subdir key) t print subdir key cp,
          str_eq_refl (key_of subdir key),
          prints cp.id i,
          prints cp.offset o,
        )
        (parse_checkpoint_lem cp i o)

  -- When a reader's checkpoint is stored and both numbers are below 10^14, where Lua prints them in
  -- full, a look-up of the same reader finds exactly what was stored, whatever the
  -- disk, the path and the checkpoint it starts from.
  pub lookup-update :
      (d : Disk) (t : Table Number) (print : ℕ → Bytes) (subdir : Bytes) (key path : Option Bytes)
      (cp start : Checkpoint)
      → ((n : ℕ) → n < 10 ^ 14 → print n ≡ decimal n)
      → cp.id < 10 ^ 14
      → cp.offset < 10 ^ 14
      → lookup_input_checkpoint d
          (update_input_checkpoint print t subdir key cp)
          subdir
          key
          path
          start
        ≡ ok cp
  unfolding lookup_input_checkpoint found_or_missing
  lookup-update d t print subdir key path cp start prints i o =
      rw (stored-update t print subdir key cp prints i o) refl

  -- A reader that has no checkpoint and is started without a path, on a running program, begins at
  -- the queue's own checkpoint, as last stored, when its numbers are below 10^14.
  pub lookup_input_checkpoint-dynamic :
      (d : Disk) (t : Table Number) (print : ℕ → Bytes) (subdir key : Bytes) (cp start : Checkpoint)
      → get (key_of subdir (some key)) t ≡ none
      → ((n : ℕ) → n < 10 ^ 14 → print n ≡ decimal n)
      → cp.id < 10 ^ 14
      → cp.offset < 10 ^ 14
      → lookup_input_checkpoint d
          (update_input_checkpoint print t subdir none cp)
          subdir
          (some key)
          none
          start
        ≡ ok cp
  unfolding lookup_input_checkpoint found_or_missing missing found_or
  lookup_input_checkpoint-dynamic d t print subdir key cp start new prints i o =
      let none_yet : stored_checkpoint
            (get (key_of subdir (some key)) (update_input_checkpoint print t subdir none cp))
          ≡ none =
        rw
          (
            get-update_input_checkpoint (key_of subdir (some key)) t print subdir none cp,
            str_eq-longer subdir (b'>' ∷ key) b'-',
            new,
          )
          (unfold stored_checkpoint in refl) in
      rw (none_yet, stored-update t print subdir none cp prints i o) refl
