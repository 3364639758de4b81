-- ===== src/Inject/Backpressure.antt =====
-- When backpressure begins, when it ends, and when it cannot end.
use hindsight.Base.{
  ℕ, ◌+◌, ◌≤◌, ◌<◌, ◌≡◌, ◌≢◌, ◌⊎◌, inl, inr, Bool-cases, Bool, true, false, List, [], ◌∷◌, arith,
  length,
}
use hindsight.Base.Run.{Run, ok, ◌>>=◌, >>=-eq-ok}
use hindsight.CString.{Bytes, ullong_max}
use hindsight.Disk.{Disk}
use hindsight.Util.{disk_free_ob}
use hindsight.Output.{Output, open_output_file}
use hindsight.Output.Open.{open_output_file-same}
use hindsight.Inject.{
  QueueConfig, Throttle, Answers, add64, sub64, applied, released, write_message,
}
use hindsight.Inject.Write.{
  next_of, rotate_cases, rotate-ids, Parts, write_message-Parts, write_frame-parts,
}

-- The writer is more files ahead of the slowest reader than the configuration allows.
abbrev pub IsLagging : QueueConfig → Output → Type 0
IsLagging cfg o = (cfg.backpressure ≢ 0) × (cfg.backpressure < sub64 o.cp.id o.min_cp_id)

-- No more than the configured number of files fits on the disk.
abbrev pub IsFull : QueueConfig → Disk → Output → Type 0
IsFull cfg d o =
    (cfg.backpressure_df ≢ 0) × (disk_free_ob d o.path cfg.output_size ≤ cfg.backpressure_df)

applied_needs :
    (cfg : QueueConfig) (d : Disk) (o : Output) (bp : Bool)
    → bp ≡ false
    → applied cfg d o bp ≡ true
    → IsLagging cfg o ⊎ IsFull cfg d o
unfolding applied
applied_needs cfg d o bp e h = ground arith

applied_keeps : (cfg : QueueConfig) (d : Disk) (o : Output) → applied cfg d o true ≡ true
unfolding applied
applied_keeps cfg d o = ground arith

released_on :
    (cfg : QueueConfig) (d : Disk) (o : Output) (th : Throttle) (a : Answers)
    → (released cfg d o th a).backpressure ≡ true
    → th.backpressure ≡ true
unfolding released
released_on cfg d o th a h = ground arith

released_needs :
    (cfg : QueueConfig) (d : Disk) (o : Output) (th : Throttle) (a : Answers)
    → th.backpressure ≡ true
    → (released cfg d o th a).backpressure ≡ false
    → (th.last_bp_check < a.checked_at)
      × (o.cp.id ≡ o.min_cp_id)
      × ((cfg.backpressure_df ≡ 0) ⊎ (cfg.backpressure_df < disk_free_ob d o.path cfg.output_size))
unfolding released
released_needs cfg d o th a e h = ground arith

module _ (varint : ℕ → Bytes) (cfg : QueueConfig) (d d' : Disk) (o o' : Output) (th th' : Throttle)
    (pb : Bytes) (a : Answers)
    (done : write_message varint cfg d o th pb a ≡ ok (d', o', th')) where
  parts : Parts varint cfg d d' o o' th th' pb a
  parts = write_message-Parts varint cfg d d' o o' th th' pb a done

  id-next :
      (x : Parts varint cfg d d' o o' th th' pb a)
      → open_output_file x.d1 (next_of x.o1) ≡ ok (d', o')
      → o'.cp.id ≡ add64 o.cp.id 1
  id-next x opened =
      let (_, e) = write_frame-parts varint d x.d1 o x.o1 pb a x.wrote in
      let (_, id, _) = open_output_file-same x.d1 d' (next_of x.o1) o' opened in ground arith

  -- Backpressure begins only where the queue goes on to its next file, and then the slowest reader
  -- lags by more files than allowed or the disk has too little space left.
  pub backpressure_begins :
      th.backpressure ≡ false
      → th'.backpressure ≡ true
      → (o'.cp.id ≡ add64 o.cp.id 1) × (IsLagging cfg o' ⊎ IsFull cfg d' o')
  backpressure_begins off on =
      let x = parts in
      let set : x.bp ≡ true =
        released_on cfg d' o' (record th { backpressure = x.bp }) a (cc (x.throttled, on)) in
      elim (rotate_cases cfg x.d1 d' x.o1 o' th.backpressure x.bp x.rotated) [
        | inl (_, _, _, same) ↦ cc (same, set, off)
        | inr (_, opened, now) ↦
            (id-next x opened, applied_needs cfg d' o' th.backpressure off (cc (now, set)))
      ]

  -- Backpressure ends only at a check in a later second, where the slowest reader reads the file
  -- that is written, and the disk has more space than the configuration asks for.
  pub backpressure_ends :
      th.backpressure ≡ true
      → th'.backpressure ≡ false
      → (th.last_bp_check < a.checked_at)
        × (o'.cp.id ≡ o'.min_cp_id)
        × ((cfg.backpressure_df ≡ 0)
            ⊎ (cfg.backpressure_df < disk_free_ob d' o'.path cfg.output_size))
  backpressure_ends on off =
      let x = parts in
      let held : x.bp ≡ true =
        elim (rotate_cases cfg x.d1 d' x.o1 o' th.backpressure x.bp x.rotated) [
          | inl (_, _, _, same) ↦ cc (same, on)
          | inr (_, _, now) ↦ cc (now, on, applied_keeps cfg d' o')
        ] in
      released_needs cfg d' o' (record th { backpressure = x.bp }) a held (cc (x.throttled, off))

-- Calls of `inject_message` one after the other, while nothing else changes the queue.
unfoldable pub write_messages :
    (ℕ → Bytes)
    → QueueConfig
    → Disk
    → Output
    → Throttle
    → List (Bytes × Answers)
    → Run (Disk × Output × Throttle)
write_messages varint cfg d o th [] = ok (d, o, th)
write_messages varint cfg d o th ((pb, a) ∷ rest) = do
  (d1, o1, th1) ← write_message varint cfg d o th pb a
  write_messages varint cfg d1 o1 th1 rest

stays_on :
    (varint : ℕ → Bytes) (cfg : QueueConfig) (d d' : Disk) (o o' : Output) (th th' : Throttle)
    (pb : Bytes) (a : Answers)
    → write_message varint cfg d o th pb a ≡ ok (d', o', th')
    → th.backpressure ≡ true
    → o.min_cp_id ≡ ullong_max
    → o.cp.id + 1 < ullong_max
    → (th'.backpressure ≡ true) × (o'.min_cp_id ≡ ullong_max) × (o'.cp.id ≤ o.cp.id + 1)
stays_on varint cfg d d' o o' th th' pb a done on none_read low =
    let x = write_message-Parts varint cfg d d' o o' th th' pb a done in
    let (min, ids) = rotate-ids varint cfg d d' o o' th th' pb a x in
    let bound : o'.cp.id ≤ o.cp.id + 1 = ground arith in
    (
      elim (Bool-cases th'.backpressure) [
        | inl yes_on ↦ yes_on
        | inr off ↦
            let (_, same, _) = backpressure_ends varint cfg d d' o o' th th' pb a done on off in
            absurd (omega arith)
      ],
      cc (min, none_read),
      bound,
    )

-- `min_cp_id` is the greatest number while no plugin reads the queue. Backpressure that stands then
-- is never released, however many messages follow, up to the greatest file number.
pub backpressure_stuck :
    (varint : ℕ → Bytes) (cfg : QueueConfig) (d d' : Disk) (o o' : Output) (th th' : Throttle)
    (ms : List (Bytes × Answers))
    → write_messages varint cfg d o th ms ≡ ok (d', o', th')
    → th.backpressure ≡ true
    → o.min_cp_id ≡ ullong_max
    → o.cp.id + length ms < ullong_max
    → th'.backpressure ≡ true
unfolding write_messages
backpressure_stuck varint cfg d d' o o' th th' [] done on none_read low = ground arith
backpressure_stuck varint cfg d d' o o' th th' ((pb, a) ∷ rest) done on none_read low =
    let next = λ (x : Disk × Output × Throttle). write_messages varint cfg x.0 x.1 x.2 rest in
    let (x, one, others) = >>=-eq-ok (write_message varint cfg d o th pb a) next done in
    let (still_on, still_none, grown) =
      stays_on varint cfg d x.0 o x.1 th x.2 pb a one on none_read (omega arith) in
    backpressure_stuck varint cfg x.0 d' x.1 o' x.2 th' rest others still_on still_none
      (omega arith)
