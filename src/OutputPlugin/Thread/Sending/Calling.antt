-- ===== src/OutputPlugin/Thread/Sending/Calling.antt =====
-- One call of `output_message` for a plugin that gets its messages one by one.
use mathlib.Core.Path.{subst}
use hindsight.Base.{
  ℕ, ◌+◌, ◌≡◌, refl, sym, ap, ◌∙◌, Bool, true, false, not, ◌&&◌, ◌||◌, List, [], ◌∷◌, arith, ◌==◌,
  if◌then◌else◌, if-true, if-false, if-both, length,
}
use hindsight.OutputPlugin.{
  OutputPlugin, async_len, update_checkpoint, update_checkpoint_callback, PmResult, sent, batch,
  async, fail, retry, other, fatal, Answers, callbacks, is_retry, note_place, settle, count_message,
  process, advance, handle, tick, output_message,
}
use hindsight.OutputPlugin.Advance.{callback-same}

-- No batch is under way, and there is no ring.
pub record IsSynchronous (p : OutputPlugin) : Type 0 where
  pub no_batch : p.batching ≡ false
  pub no_ring : async_len p ≡ 0

-- The message needs no more tries: it was delivered, or it is skipped.
abbrev pub is_done : PmResult → Bool
is_done sent = true
is_done fail = true
is_done other = true
is_done _ = false

module _ (p : OutputPlugin) (h : IsSynchronous p) where
  callback_idle : (s : ℕ) → update_checkpoint_callback s p ≡ p
  unfolding update_checkpoint_callback
  callback_idle s =
      let no_place : (not (s == 0) && not (async_len p == 0)) ≡ false = ground (arith, h.no_ring) in
      if-false (not (s == 0) && not (async_len p == 0)) _ _ no_place
      ∙ if-false p.batching _ _ h.no_batch

  callbacks_idle : (acks : List ℕ) → callbacks acks p ≡ p
  unfolding callbacks
  callbacks_idle [] = refl
  callbacks_idle (s ∷ rest) = ap (callbacks rest) (callback_idle s) ∙ callbacks_idle rest

  note_place_idle : note_place p ≡ p
  unfolding note_place
  note_place_idle =
      let none_there : (async_len p == 0) ≡ true = ground (arith, h.no_ring) in
      if-true (async_len p == 0) _ _ none_there

-- What one call has done.
pub record Called (p q : OutputPlugin) (r : PmResult) : Type 0 where
  pub ring : async_len q ≡ async_len p
  pub cur : q.cur ≡ p.cur
  pub quiet : is_retry r || is_done r ≡ true → q.batching ≡ false
  pub retried : is_retry r ≡ true → q.cp ≡ p.cp
  pub done : is_done r ≡ true → q.cp ≡ p.cur

-- What follows from the result of the sandbox, without the callbacks.
concluded : PmResult → OutputPlugin → OutputPlugin × PmResult
unfolding advance
concluded r p = advance (count_message r (settle r p))

concluded_lem :
    (r : PmResult) (p : OutputPlugin)
    → IsSynchronous p
    → Called p (concluded r p).0 (concluded r p).1
unfolding concluded advance update_checkpoint
concluded_lem sent p h = record {
  ring = ground (arith, h.no_ring, h.no_batch);
  cur = ground (arith, h.no_ring, h.no_batch);
  quiet = ground (arith, h.no_ring, h.no_batch);
  retried = λ f. cc;
  done = ground (arith, h.no_ring, h.no_batch);
}
concluded_lem batch p h = record {
  ring = ground (arith, h.no_ring, h.no_batch);
  cur = ground (arith, h.no_ring, h.no_batch);
  quiet = ground (arith, h.no_ring, h.no_batch);
  retried = λ f. cc;
  done = ground (arith, h.no_ring, h.no_batch);
}
concluded_lem async p h = record {
  ring = ground (arith, h.no_ring, h.no_batch);
  cur = ground (arith, h.no_ring, h.no_batch);
  quiet = ground (arith, h.no_ring, h.no_batch);
  retried = ground (arith, h.no_ring, h.no_batch);
  done = ground (arith, h.no_ring, h.no_batch);
}
concluded_lem fail p h = record {
  ring = ground (arith, h.no_ring, h.no_batch);
  cur = ground (arith, h.no_ring, h.no_batch);
  quiet = ground (arith, h.no_ring, h.no_batch);
  retried = λ f. cc;
  done = ground (arith, h.no_ring, h.no_batch);
}
concluded_lem retry p h = record {
  ring = ground (arith, h.no_ring, h.no_batch);
  cur = ground (arith, h.no_ring, h.no_batch);
  quiet = ground (arith, h.no_ring, h.no_batch);
  retried = ground (arith, h.no_ring, h.no_batch);
  done = ground (arith, h.no_ring, h.no_batch);
}
concluded_lem other p h = record {
  ring = ground (arith, h.no_ring, h.no_batch);
  cur = ground (arith, h.no_ring, h.no_batch);
  quiet = ground (arith, h.no_ring, h.no_batch);
  retried = λ f. cc;
  done = ground (arith, h.no_ring, h.no_batch);
}
concluded_lem fatal p h = record {
  ring = ground (arith, h.no_ring, h.no_batch);
  cur = ground (arith, h.no_ring, h.no_batch);
  quiet = ground (arith, h.no_ring, h.no_batch);
  retried = λ f. cc;
  done = ground (arith, h.no_ring, h.no_batch);
}

callbacks_same :
    (acks : List ℕ) (p : OutputPlugin)
    → ((callbacks acks p).cur ≡ p.cur) × (async_len (callbacks acks p) ≡ async_len p)
unfolding callbacks
callbacks_same [] p = (refl, refl)
callbacks_same (s ∷ rest) p =
    let (cur, ring) = callback-same s p in
    let (cur', ring') = callbacks_same rest (update_checkpoint_callback s p) in
    (cur' ∙ cur, ring' ∙ ap length ring)

module _ (p : OutputPlugin) (h : IsSynchronous p) (a : Answers) where
  processed :
      process p a ≡ count_message a.pm_result (settle a.pm_result (record p { pm_sample = false }))
  unfolding process
  processed =
      ap
        (λ (q : OutputPlugin).
          count_message a.pm_result (settle a.pm_result (record q { pm_sample = false })))
        (ap (callbacks a.pm_acks) (note_place_idle p h) ∙ callbacks_idle p h a.pm_acks)

  quiet_same :
      (q : OutputPlugin) (r : PmResult)
      → Called p q r
      → is_retry r || is_done r ≡ true
      → callbacks a.te_acks q ≡ q
  quiet_same q r called b =
      callbacks_idle q (record { no_batch = called.quiet b; no_ring = called.ring ∙ h.no_ring })
        a.te_acks

  acked :
      (q : OutputPlugin) (r : PmResult) (expires : ℕ) (te_fatal : Bool)
      → Called p q r
      → Called p
          (record (callbacks a.te_acks q) { ticker_expires = expires })
          (if te_fatal then fatal else r)
  acked q r expires te_fatal called =
      let (cur, ring) = callbacks_same a.te_acks q in
      let same = quiet_same q r called in
      let retrying : is_retry r ≡ true → is_retry r || is_done r ≡ true = λ b. rw (b) refl in
      let finished : is_done r ≡ true → is_retry r || is_done r ≡ true = λ b. ground (arith, b) in
      let q' = record (callbacks a.te_acks q) { ticker_expires = expires } in
      if-both (λ (r' : PmResult). Called p q' r') te_fatal
        (λ _. record {
          ring = ring ∙ called.ring;
          cur = cur ∙ called.cur;
          quiet = λ f. cc;
          retried = λ f. cc;
          done = λ f. cc;
        })
        (λ _. record {
          ring = ring ∙ called.ring;
          cur = cur ∙ called.cur;
          quiet = λ b. ap (λ (o : OutputPlugin). o.batching) (same b) ∙ called.quiet b;
          retried = λ b. ap (λ (o : OutputPlugin). o.cp) (same (retrying b)) ∙ called.retried b;
          done = λ b. ap (λ (o : OutputPlugin). o.cp) (same (finished b)) ∙ called.done b;
        })

  -- The timer event after a message.
  ticked :
      (q : OutputPlugin) (r : PmResult) (t : ℕ)
      → Called p q r
      → Called p (tick (q, r) t a).0 (if (tick (q, r) t a).1 then fatal else r)
  unfolding tick
  ticked q r t called =
      let q' = record (callbacks a.te_acks q) { ticker_expires = t + q.ticker_interval } in
      if-both (λ (y : OutputPlugin × Bool). Called p y.0 (if y.1 then fatal else r)) _
        {x = (q', a.te_fatal)} {y = (q, false)}
        (λ _. acked q r (t + q.ticker_interval) a.te_fatal called) (λ _. called)

  Called-input :
      (p' q : OutputPlugin) (r : PmResult)
      → async_len p' ≡ async_len p
      → p'.cur ≡ p.cur
      → p'.cp ≡ p.cp
      → Called p' q r
      → Called p q r
  Called-input p' q r ring cur cp called = record {
    ring = called.ring ∙ ring;
    cur = called.cur ∙ cur;
    quiet = called.quiet;
    retried = λ b. called.retried b ∙ cp;
    done = λ b. called.done b ∙ cur;
  }

  unmatched : Called p (advance (p, sent)).0 (advance (p, sent)).1
  unfolding advance update_checkpoint
  unmatched = record {
    ring = ground (arith, h.no_ring, h.no_batch);
    cur = ground (arith, h.no_ring, h.no_batch);
    quiet = ground (arith, h.no_ring, h.no_batch);
    retried = ground (arith, h.no_ring, h.no_batch);
    done = ground (arith, h.no_ring, h.no_batch);
  }

  matched : Called p (advance (process p a)).0 (advance (process p a)).1
  unfolding concluded
  matched =
      let p' = record p { pm_sample = false } in
      let h' : IsSynchronous p' = record { no_batch = h.no_batch; no_ring = h.no_ring } in
      let called =
        Called-input p' (concluded a.pm_result p').0 (concluded a.pm_result p').1 refl refl refl
          (concluded_lem a.pm_result p' h') in
      subst (λ (y : OutputPlugin × PmResult). Called p (advance y).0 (advance y).1) (sym processed)
        called

module _ (p : OutputPlugin) (h : IsSynchronous p) (a : Answers) where
  handled : (sampled : Bool) → Called p (handle p sampled a).0 (handle p sampled a).1
  unfolding handle
  handled sampled =
      let p' = record p { pm_sample = p.pm_sample || sampled } in
      let h' : IsSynchronous p' = record { no_batch = h.no_batch; no_ring = h.no_ring } in
      Called-input p h a p' _ _ refl refl refl (
        if-both (λ (y : OutputPlugin × PmResult). Called p' (advance y).0 (advance y).1) a.matched
          {x = process p' a} {y = (p', sent)} (λ _. matched p' h' a) (λ _. unmatched p' h' a))

  pub output_message_called :
      (sampled : Bool) (t : ℕ)
      → Called p (output_message p true sampled t a).0 (output_message p true sampled t a).1
  unfolding output_message
  output_message_called sampled t =
      let (q, r) = handle p sampled a in
      let q' = (tick (q, r) t a).0 in
      let called = ticked p h a q r t (handled sampled) in
      if-both (λ (o : OutputPlugin). Called p o (if (tick (q, r) t a).1 then fatal else r)) sampled
        {x = record q' { sample = false }} {y = q'}
        (λ _. record {
          ring = called.ring;
          cur = called.cur;
          quiet = called.quiet;
          retried = called.retried;
          done = called.done;
        })
        (λ _. called)
