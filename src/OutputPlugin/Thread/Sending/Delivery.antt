-- ===== src/OutputPlugin/Thread/Sending/Delivery.antt =====
-- An output plugin that gets its messages one by one moves its checkpoint past a message only when that
-- was delivered.
use mathlib.Core.Option.{some-injective}
use mathlib.Core.Path.{subst}
use hindsight.Base.{
  ℕ, ◌≡◌, inl, inr, refl, ◌∙◌, Bool, true, false, not, ◌&&◌, some, List, [], ◌∷◌, arith, if-eq,
}
use hindsight.OutputPlugin.{OutputPlugin, PmResult, Answers, is_retry, output_message}
use hindsight.OutputPlugin.Thread.{Attempt, changed, try_again, send}
use hindsight.OutputPlugin.Thread.Sending.{Sent}
use hindsight.OutputPlugin.Thread.Sending.Calling.{
  IsSynchronous, is_done, Called, output_message_called,
}

-- What the sending of a message has done to the checkpoint of the plugin.
pub record Delivered (p : OutputPlugin) (s : Sent) : Type 0 where
  pub kept : is_retry s.1 ≡ true → (s.0.cp ≡ p.cp) × (s.2 ≡ true)
  pub moved : is_done s.1 ≡ true → s.0.cp ≡ p.cur

-- After a retry the plugin is as before, for its next try.
after_retry :
    (p q : OutputPlugin) (r : PmResult) (stop : Bool)
    → IsSynchronous p
    → Called p q r
    → is_retry r ≡ true
    → IsSynchronous (changed stop false q)
unfolding changed
after_retry p q r stop h called again = record {
  no_batch = called.quiet (rw (again) refl);
  no_ring = called.ring ∙ h.no_ring;
}

from_retry :
    (p q : OutputPlugin) (r : PmResult) (stop : Bool) (s : Sent)
    → Called p q r
    → is_retry r ≡ true
    → Delivered (changed stop false q) s
    → Delivered p s
unfolding changed
from_retry p q r stop s called again next = record {
  kept = λ b. ((next.kept b).0 ∙ called.retried again, (next.kept b).1);
  moved = λ b. next.moved b ∙ called.cur;
}

try_again_lem :
    (attempts : List Attempt) (p : OutputPlugin) (s : Sent)
    → IsSynchronous p
    → try_again p attempts ≡ some s
    → Delivered p s
unfolding try_again
try_again_lem [] p s h e = cc
try_again_lem (x ∷ rest) p s h e =
    let (q, r) = output_message p true false x.current_t x.answers in
    let called = output_message_called p h x.answers false x.current_t in
    let q' = changed x.stop false q in
    elim (if-eq (is_retry r) e) [
      | inl (again, e1) ↦ elim (if-eq q'.stop e1) [
        | inl (stopped, e2) ↦
            subst (λ (s' : Sent). Delivered p s') (some-injective _ _ e2)
              (record {
                kept = λ _. (unfold changed in called.retried again, refl);
                moved = λ b. absurd (ground (arith, again, b));
              })
        | inr (goes_on, e2) ↦
            from_retry p q r x.stop s called again
              (try_again_lem rest q' s (after_retry p q r x.stop h called again) e2)
      ]
      | inr (ended, e1) ↦
          subst (λ (s' : Sent). Delivered p s') (some-injective _ _ e1)
            (record { kept = λ b. absurd (ground (arith, ended, b)); moved = called.done })
    ]

-- A plugin without a batch under way and without a ring sends a message, and tries again as long as
-- the answer is a retry and it is not stopped. Where that ends in a retry, the plugin was
-- stopped, and its checkpoint is still in front of the message, which is read again at the next
-- start. Where it ends in success, failure or a skip, the checkpoint has moved behind the message.
pub send_lem :
    (p : OutputPlugin) (stop sample : Bool) (t : ℕ) (a : Answers) (attempts : List Attempt)
    (s : Sent)
    → IsSynchronous p
    → send p stop sample t a attempts ≡ some s
    → Delivered p s
unfolding send
send_lem p stop sample t a attempts s h e =
    let (q, r) = output_message p true sample t a in
    let called = output_message_called p h a sample t in
    elim (if-eq (is_retry r && not stop) e) [
      | inl (again, e1) ↦
          let retried : is_retry r ≡ true = ground (arith, again) in
          let h' : IsSynchronous q = record {
            no_batch = called.quiet (rw (retried) refl);
            no_ring = called.ring ∙ h.no_ring;
          } in
          let next = try_again_lem attempts q s h' e1 in
          record {
            kept = λ b. ((next.kept b).0 ∙ called.retried retried, (next.kept b).1);
            moved = λ b. next.moved b ∙ called.cur;
          }
      | inr (ended, e1) ↦
          subst (λ (s' : Sent). Delivered p s') (some-injective _ _ e1)
            (record {
              kept = λ b. (called.retried b, ground (arith, ended, b));
              moved = called.done;
            })
    ]
