-- ===== src/OutputPlugin/Thread/Sending/BatchRetry.antt =====
-- A batch that is acknowledged while a message is sent that then has to be sent again.
use mathlib.Core.Path.{subst}
use hindsight.Base.{
  ℕ, ◌+◌, ◌≡◌, refl, sym, ap, ◌∙◌, Bool, true, false, [], ◌∷◌, not, ◌&&◌, ◌||◌, arith,
  if◌then◌else◌, if-both, if-true, if-false,
}
use hindsight.OutputPlugin.{
  OutputPlugin, update_checkpoint, update_checkpoint_callback, PmResult, sent, retry, fatal,
  Answers, callbacks, note_place, process, pending, is_fatal, is_retry, advance, handle, tick,
  output_message,
}
use hindsight.OutputPlugin.Hold.{note_place-same}

module _ (p : OutputPlugin) (batching : p.batching ≡ true) (a : Answers) where
  acknowledged : (callbacks (0 ∷ []) p).cp ≡ p.cur
  unfolding callbacks update_checkpoint_callback update_checkpoint
  acknowledged = ap (λ (q : OutputPlugin). q.cp) (if-true p.batching _ _ batching)

advance_retry : (q : OutputPlugin) → advance (q, retry) ≡ (q, retry)
unfolding advance
advance_retry q =
    let off : (not (is_fatal retry) && not q.batching && not (pending q) && not (is_retry retry))
        ≡ false =
      ground arith in
    if-false _ _ _ off

-- Behind the message: the checkpoint and the result.
abbrev HasPassed : OutputPlugin → OutputPlugin × PmResult → Type 0
HasPassed p x = (x.0.cp ≡ p.cur) × (x.1 ≡ retry)

module _ (p : OutputPlugin) (batching : p.batching ≡ true) (a : Answers) (acks : a.pm_acks ≡ 0 ∷ [])
    (result : a.pm_result ≡ retry) where
  processed : HasPassed p (advance (process p a))
  unfolding process
  processed =
      let (_, _, _, still, _, cur) = note_place-same p in
      let q = record (callbacks (0 ∷ []) (note_place p)) { pm_sample = false } in
      rw (acks, result)
        (subst (HasPassed p) (sym (advance_retry q))
          (acknowledged (note_place p) (still ∙ batching) a ∙ cur, refl))

  ticked :
      (x : OutputPlugin × PmResult) (t : ℕ)
      → a.te_acks ≡ []
      → a.te_fatal ≡ false
      → HasPassed p x
      → HasPassed p ((tick x t a).0, if (tick x t a).1 then fatal else x.1)
  unfolding tick callbacks
  ticked (q, r) t quiet fine passed =
      if-both (λ (y : OutputPlugin × Bool). HasPassed p (y.0, if y.1 then fatal else r)) _
        {x = (
          record (callbacks a.te_acks q) { ticker_expires = t + q.ticker_interval },
          a.te_fatal,
        )}
        {y = (q, false)} (λ _. rw (quiet, fine) passed) (λ _. passed)

-- While a batch is under way, the sandbox acknowledges it during the call for a further message, and
-- then returns a retry for that message. A timer event acknowledges nothing more and does not fail.
-- Then the result of `output_message` is the retry, and the checkpoint stands behind the message
-- that is to be sent again.
pub output_message-batch_retry :
    (p : OutputPlugin) (sampled : Bool) (t : ℕ) (a : Answers)
    → p.batching ≡ true
    → a.matched ≡ true
    → a.pm_acks ≡ 0 ∷ []
    → a.pm_result ≡ retry
    → a.te_acks ≡ []
    → a.te_fatal ≡ false
    → let (q, r) = output_message p true sampled t a in (q.cp ≡ p.cur) × (r ≡ retry)
unfolding output_message handle
output_message-batch_retry p sampled t a batching matched acks result quiet fine =
    let p' = record p { pm_sample = p.pm_sample || sampled } in
    let handled : HasPassed p (handle p sampled a) =
      if-both (λ (y : OutputPlugin × PmResult). HasPassed p (advance y)) a.matched
        {x = process p' a} {y = (p', sent)} (λ _. processed p' batching a acks result)
        (λ unmatched. cc (matched, unmatched)) in
    let (q, f) = tick (handle p sampled a) t a in
    let passed = ticked p batching a acks result (handle p sampled a) t quiet fine handled in
    if-both (λ (o : OutputPlugin). HasPassed p (o, if f then fatal else (handle p sampled a).1))
      sampled {x = record q { sample = false }} {y = q} (λ _. passed) (λ _. passed)
