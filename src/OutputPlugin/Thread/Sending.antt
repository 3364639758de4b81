-- ===== src/OutputPlugin/Thread/Sending.antt =====
-- The message that is sent, once or again: what the sending keeps, when it ends, and what it does to
-- the checkpoint.
pub mod Calling
pub mod BatchRetry
pub mod Delivery
pub mod Termination
use mathlib.Core.Option.{some-injective}
use mathlib.Core.Path.{subst}
use hindsight.Base.{
  ℕ, ◌≡◌, inl, inr, refl, sym, ap, ◌∙◌, Bool, true, false, not, ◌&&◌, ◌||◌, Option, none, some,
  List, [], ◌∷◌, arith, if◌then◌else◌, if-eq,
}
use hindsight.OutputPlugin.{OutputPlugin, PmResult, Answers, is_retry, output_message}
use hindsight.OutputPlugin.Advance.Steps.{IsKept, same_places, output_message_keeps}
use hindsight.OutputPlugin.Thread.{Attempt, changed, try_again, send}

-- What a send ends with.
abbrev pub Sent : Type 0
Sent = OutputPlugin × PmResult × Bool

module _ (Inv : OutputPlugin → Type 0) (step : IsKept Inv) where
  pub changed_keeps : (stop sample : Bool) (p : OutputPlugin) → Inv p → Inv (changed stop sample p)
  unfolding changed
  changed_keeps stop sample p h = same_places Inv step p _ h refl refl refl

  try_again_keeps :
      (attempts : List Attempt) (p : OutputPlugin) (s : Sent)
      → Inv p
      → try_again p attempts ≡ some s
      → Inv s.0
  unfolding try_again
  try_again_keeps [] p s h e = cc
  try_again_keeps (x ∷ rest) p s h e =
      let (q, r) = output_message p true false x.current_t x.answers in
      let sent_one = output_message_keeps Inv step p true false x.current_t x.answers h in
      let q' = changed x.stop false q in
      let later_on = changed_keeps x.stop false q sent_one in
      elim (if-eq (is_retry r) e) [
        | inl (again, e1) ↦ elim (if-eq q'.stop e1) [
          | inl (stopped, e2) ↦ subst (λ (s' : Sent). Inv s'.0) (some-injective _ _ e2) later_on
          | inr (goes_on, e2) ↦ try_again_keeps rest q' s later_on e2
        ]
        | inr (done, e1) ↦ subst (λ (s' : Sent). Inv s'.0) (some-injective _ _ e1) sent_one
      ]

  pub send_keeps :
      (p : OutputPlugin) (stop sample : Bool) (t : ℕ) (a : Answers) (attempts : List Attempt)
      (s : Sent)
      → Inv p
      → send p stop sample t a attempts ≡ some s
      → Inv s.0
  unfolding send
  send_keeps p stop sample t a attempts s h e =
      let (q, r) = output_message p true sample t a in
      let sent_one = output_message_keeps Inv step p true sample t a h in
      elim (if-eq (is_retry r && not stop) e) [
        | inl (again, e1) ↦ try_again_keeps attempts q s sent_one e1
        | inr (done, e1) ↦ subst (λ (s' : Sent). Inv s'.0) (some-injective _ _ e1) sent_one
      ]
