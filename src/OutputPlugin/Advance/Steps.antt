-- ===== src/OutputPlugin/Advance/Steps.antt =====
-- What every step of an output plugin keeps: one that takes checkpoints and places of the ring only
-- from those that are there.
use hindsight.Base.{
  ℕ, zero, suc, ◌+◌, ◌%◌, ◌≡◌, ◌⊎◌, inl, inr, refl, Bool-cases, Bool, true, false, ◌||◌, some, List,
  [], ◌∷◌, ◌==◌, if◌then◌else◌, get_elem?, set,
}
use hindsight.Inject.{add64}
use hindsight.Checkpoint.{CheckpointPair}
use hindsight.OutputPlugin.{
  OutputPlugin, async_len, update_checkpoint, update_checkpoint_callback, PmResult, sent, retry,
  Answers, callbacks, note_place, settle, count_message, process, advance, handle, tick,
  output_message,
}
use hindsight.OutputPlugin.Advance.{
  IsBehind, Moves, Moves-refl, Moves-trans, Moves-from, CpFrom, RingFrom, callback-same,
  callback-CpFrom,
}

get_elem?-set :
    (xs : List CheckpointPair) (k i : ℕ) (v x : CheckpointPair)
    → get_elem? (set xs k v) i ≡ some x
    → (x ≡ v) ⊎ (get_elem? xs i ≡ some x)
get_elem?-set [] k i v x h = inr h
get_elem?-set (y ∷ xs) zero zero v x h = inl cc
get_elem?-set (y ∷ xs) zero (suc i) v x h = inr h
get_elem?-set (y ∷ xs) (suc k) zero v x h = inr h
get_elem?-set (y ∷ xs) (suc k) (suc i) v x h = get_elem?-set xs k i v x h

-- A property that a step keeps which takes the checkpoint and the ring from what is there.
abbrev pub IsKept : (OutputPlugin → Type 0) → Type 0
IsKept Inv =
    (p q : OutputPlugin) → Inv p → q.cur ≡ p.cur → RingFrom p q.async_cp → CpFrom p q.cp → Inv q

module _ (Inv : OutputPlugin → Type 0) (step : IsKept Inv) where
  -- A step that changes neither a checkpoint nor the ring.
  pub same_places :
      (p q : OutputPlugin) → Inv p → q.cur ≡ p.cur → q.async_cp ≡ p.async_cp → q.cp ≡ p.cp → Inv q
  same_places p q h cur ring cp = step p q h cur (λ i x e. inr (rw ring at e)) (inl cp)

  pub callbacks_keep : (acks : List ℕ) (p : OutputPlugin) → Inv p → Inv (callbacks acks p)
  unfolding callbacks
  callbacks_keep [] p h = h
  callbacks_keep (s ∷ rest) p h =
      let (cur, ring) = callback-same s p in
      callbacks_keep rest (update_checkpoint_callback s p) (
        step p (update_checkpoint_callback s p) h cur (λ i x e. inr (rw ring at e))
          (callback-CpFrom s p))

  note_place_keeps : (p : OutputPlugin) → Inv p → Inv (note_place p)
  unfolding note_place
  note_place_keeps p h = elim (Bool-cases (async_len p == 0)) [
    | inl no_ring ↦ rw no_ring h
    | inr ring ↦ rw ring (
        step p _ h refl
          (λ i x. get_elem?-set p.async_cp (add64 p.sequence_id 1 % async_len p) i p.cur x)
          (inl refl))
  ]

  -- What `process` does behind the callbacks touches neither a checkpoint nor the ring.
  settled_keeps :
      (p : OutputPlugin) (r : PmResult)
      → Inv p
      → Inv (count_message r (settle r (record p { pm_sample = false }))).0
  settled_keeps p retry h = same_places p _ h refl refl refl
  settled_keeps p _ h = same_places p _ h refl refl refl

  process_keeps : (p : OutputPlugin) (a : Answers) → Inv p → Inv (process p a).0
  unfolding process
  process_keeps p a h =
      settled_keeps (callbacks a.pm_acks (note_place p)) a.pm_result
        (callbacks_keep a.pm_acks (note_place p) (note_place_keeps p h))

  -- A branch may use its test.
  if_keeps : (b : Bool) (q r : OutputPlugin) → Inv q → Inv r → Inv (if b then q else r)
  if_keeps true q r h k = h
  if_keeps false q r h k = k

  if_keeps_pair {ℓ} :
      {A : Type ℓ} (b : Bool) (x y : OutputPlugin × A)
      → Inv x.0
      → Inv y.0
      → Inv (if b then x else y).0
  if_keeps_pair true x y h k = h
  if_keeps_pair false x y h k = k

  advance_keeps : (p : OutputPlugin) (r : PmResult) → Inv p → Inv (advance (p, r)).0
  unfolding advance update_checkpoint
  advance_keeps p r h =
      if_keeps_pair _ (update_checkpoint p, r) (p, r)
        (step p (update_checkpoint p) h refl (λ i x e. inr e) (inr (inl refl))) h

  handle_keeps :
      (p : OutputPlugin) (sampled : Bool) (a : Answers) → Inv p → Inv (handle p sampled a).0
  unfolding handle
  handle_keeps p sampled a h =
      let p' = record p { pm_sample = p.pm_sample || sampled } in
      let h' = same_places p p' h refl refl refl in
      let x = if a.matched then process p' a else (p', sent) in
      advance_keeps x.0 x.1
        (if_keeps_pair a.matched (process p' a) (p', sent) (process_keeps p' a h') h')

  tick_keeps :
      (p : OutputPlugin) (r : PmResult) (t : ℕ) (a : Answers) → Inv p → Inv (tick (p, r) t a).0
  unfolding tick
  tick_keeps p r t a h =
      let q = callbacks a.te_acks p in
      let q' = record q { ticker_expires = t + p.ticker_interval } in
      if_keeps_pair _ (q', a.te_fatal) (p, false)
        (same_places q q' (callbacks_keep a.te_acks p h) refl refl refl) h

  pub output_message_keeps :
      (p : OutputPlugin) (message sampled : Bool) (t : ℕ) (a : Answers)
      → Inv p
      → Inv (output_message p message sampled t a).0
  unfolding output_message
  output_message_keeps p message sampled t a h =
      let x = if message then handle p sampled a else (p, sent) in
      let q = (tick x t a).0 in
      let q' = record q { sample = false } in
      let h1 =
        if_keeps_pair message (handle p sampled a) (p, sent) (handle_keeps p sampled a h) h in
      let h2 = tick_keeps x.0 x.1 t a h1 in
      if_keeps sampled q' q (same_places q q' h2 refl refl refl) h2

-- Whatever the sandbox answers, and whichever acknowledgements it gives meanwhile, `output_message`
-- moves neither checkpoint back, nor past what has been read.
pub output_message-Moves :
    (p : OutputPlugin) (message sampled : Bool) (t : ℕ) (a : Answers)
    → IsBehind p
    → Moves p (output_message p message sampled t a).0
output_message-Moves p message sampled t a h =
    output_message_keeps (λ (x : OutputPlugin). Moves p x)
      (λ x y moves cur ring cp. Moves-trans p x y moves (Moves-from x y moves.behind cur ring cp)) p
      message sampled t a (Moves-refl p h)
