-- ===== src/OutputPlugin/Thread/Sending/Termination.antt =====
-- The loop of an output plugin's thread ends once the plugin is stopped.
use mathlib.Core.Option.{some-injective}
use hindsight.Base.{
  ℕ, ◌≡◌, inl, inr, refl, sym, ap, ◌∙◌, Bool, true, false, not, ◌&&◌, ◌||◌, Option, some, List, [],
  ◌∷◌, arith, if-eq, if-both,
}
use hindsight.OutputPlugin.{OutputPlugin, Answers, is_retry, output_message}
use hindsight.OutputPlugin.Thread.{Attempt, changed, try_again, send}
use hindsight.OutputPlugin.Thread.Sending.{Sent}

-- The plugin is stopped during one of the tries.
unfoldable pub is_stopped : List Attempt → Bool
is_stopped [] = false
is_stopped (x ∷ rest) = x.stop || is_stopped rest

abbrev Ends : Option Sent → Type 0
Ends o = (s : Sent) × (o ≡ some s)

try_again-Ends :
    (attempts : List Attempt) (p : OutputPlugin)
    → is_stopped attempts ≡ true
    → Ends (try_again p attempts)
unfolding is_stopped try_again
try_again-Ends [] p h = cc
try_again-Ends (x ∷ rest) p h =
    let (q, r) = output_message p true false x.current_t x.answers in
    let q' = changed x.stop false q in
    if-both Ends (is_retry r)
      (λ _.
        if-both Ends q'.stop (λ _. ((q', r, true), refl))
          (λ goes_on.
            let now : x.stop ≡ false = unfold changed in ground (arith, goes_on) in
            try_again-Ends rest q' (rw (now) at h)))
      (λ _. ((q, r, false), refl))

-- The sending ends when the plugin was stopped before it or is stopped during one of the tries.
pub send_ends :
    (p : OutputPlugin) (stop sample : Bool) (t : ℕ) (a : Answers) (attempts : List Attempt)
    → stop || is_stopped attempts ≡ true
    → (s : Sent) × (send p stop sample t a attempts ≡ some s)
unfolding send
send_ends p stop sample t a attempts h =
    let (q, r) = output_message p true sample t a in
    if-both Ends (is_retry r && not stop)
      (λ again.
        let not_before : stop ≡ false = ground (arith, again) in
        try_again-Ends attempts q (rw (not_before) at h))
      (λ _. ((q, r, stop), refl))

pub send_stops :
    (p : OutputPlugin) (stop sample : Bool) (t : ℕ) (a : Answers) (attempts : List Attempt)
    (s : Sent)
    → send p stop sample t a attempts ≡ some s
    → stop ≡ true
    → s.2 ≡ true
unfolding send
send_stops p stop sample t a attempts s e h =
    let (q, r) = output_message p true sample t a in
    elim (if-eq (is_retry r && not stop) e) [
      | inl (again, _) ↦ absurd (ground (arith, again, h))
      | inr (_, e1) ↦ sym (ap (λ (s' : Sent). s'.2) (some-injective _ _ e1)) ∙ h
    ]
