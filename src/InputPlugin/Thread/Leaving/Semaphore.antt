-- ===== src/InputPlugin/Thread/Leaving/Semaphore.antt =====
-- The messages of a call leave the semaphore of an input plugin as it is.
use mathlib.Core.Path.{subst}
use hindsight.Base.{
  ℕ, zero, suc, ◌≡◌, ◌⊎◌, inl, inr, refl, ◌∙◌, Bool, Option, none, some, List, [], ◌∷◌, arith,
  if-both,
}
use hindsight.Base.Run.{ok, >>=-eq-ok, ok-injective}
use hindsight.CString.{Bytes}
use hindsight.Disk.{Disk}
use hindsight.Output.{Output}
use hindsight.IpCheckpoint.{Status, success, failure}
use hindsight.Inject.{QueueConfig, Throttle, Answers, write_message}
use hindsight.InputPlugin.{
  InputPlugin, Injected, sampled, counted, record_checkpoint, synchronize, deliver, inject_message,
}
use hindsight.InputPlugin.Thread.{InjectCall, InputState, inject_calls}

ℕ-cases : (n : ℕ) → (n ≡ 0) ⊎ ((m : ℕ) × (n ≡ suc m))
ℕ-cases zero = inl refl
ℕ-cases (suc m) = inr (m, refl)

module _ {Number Stats : Type 0} where
  record_checkpoint-shutdown :
      (malloc : Bool) (cp_numeric : Option Number) (cp_string : Option Bytes) (now : Stats)
      (pb : Option Bytes) (p : InputPlugin Number Stats)
      → (record_checkpoint malloc cp_numeric cp_string now pb p).0.shutdown ≡ p.shutdown
  unfolding record_checkpoint counted sampled
  record_checkpoint-shutdown malloc cp_numeric cp_string now none p =
      if-both (λ (q : InputPlugin Number Stats). q.shutdown ≡ p.shutdown) p.sample (λ _. refl)
        (λ _. refl)
  record_checkpoint-shutdown malloc cp_numeric cp_string now (some pb) p =
      if-both (λ (q : InputPlugin Number Stats). q.shutdown ≡ p.shutdown) p.sample (λ _. refl)
        (λ _. refl)

  synchronize-shutdown : (p : InputPlugin Number Stats) → (synchronize p).shutdown ≡ p.shutdown
  unfolding synchronize
  synchronize-shutdown p = elim (ℕ-cases p.shutdown) [
    | inl e ↦ rw (e) refl
    | inr (n, e) ↦ rw (e) (omega arith)
  ]

  module _ (varint : ℕ → Bytes) (cfg : QueueConfig) where
    deliver-shutdown :
        (d : Disk) (o : Output) (th : Throttle) (pb : Option Bytes) (a : Answers)
        (p : InputPlugin Number Stats) (rv : Status) (r : Injected Number Stats)
        → deliver varint cfg d o th pb a p rv ≡ ok r
        → r.plugin.shutdown ≡ p.shutdown
    unfolding deliver
    deliver-shutdown d o th none a p rv r e =
        subst (λ (x : Injected Number Stats). x.plugin.shutdown ≡ p.shutdown) (ok-injective e)
          (synchronize-shutdown p)
    deliver-shutdown d o th (some pb) a p failure r e =
        subst (λ (x : Injected Number Stats). x.plugin.shutdown ≡ p.shutdown) (ok-injective e) refl
    deliver-shutdown d o th (some pb) a p success r e =
        let (w, _, same) = >>=-eq-ok (write_message varint cfg d o th pb a) _ e in
        subst (λ (x : Injected Number Stats). x.plugin.shutdown ≡ p.shutdown) (ok-injective same)
          refl

    -- A whole call.
    pub inject_calls-shutdown :
        (calls : List (InjectCall Number Stats)) (s s1 : InputState Number Stats)
        → inject_calls varint cfg calls s ≡ ok s1
        → s1.plugin.shutdown ≡ s.plugin.shutdown
    unfolding inject_calls inject_message
    inject_calls-shutdown [] s s1 e =
        subst (λ (x : InputState Number Stats). x.plugin.shutdown ≡ s.plugin.shutdown)
          (ok-injective e) refl
    inject_calls-shutdown (c ∷ rest) s s1 e =
        let (r, delivered, next) =
          >>=-eq-ok
            (inject_message varint cfg s.disk s.output s.throttle s.plugin c.message c.cp_numeric
              c.cp_string c.malloc c.now c.answers)
            _ e in
        let (p, rv) =
          record_checkpoint c.malloc c.cp_numeric c.cp_string c.now c.message s.plugin in
        inject_calls-shutdown rest
          (record { disk = r.disk; output = r.output; throttle = r.throttle; plugin = r.plugin }) s1
          next
        ∙ (deliver-shutdown s.disk s.output s.throttle c.message c.answers p rv r delivered
            ∙ record_checkpoint-shutdown c.malloc c.cp_numeric c.cp_string c.now c.message s.plugin)
