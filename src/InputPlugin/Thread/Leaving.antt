-- ===== src/InputPlugin/Thread/Leaving.antt =====
-- When the loop of an input plugin's thread is left.
pub mod Semaphore
use mathlib.Core.Option.{some-injective}
use mathlib.Core.Path.{subst}
use hindsight.Base.{
  ℕ, zero, suc, ◌≡◌, ◌≢◌, ◌⊎◌, inl, inr, refl, sym, ap, ◌∙◌, Bool, true, false, ◌||◌, Option, none,
  some, List, [], ◌∷◌, arith, ◌==◌, if-eq, if-both, Bool-cases, get_elem?, take,
}
use hindsight.Base.Run.{ok, >>=-eq-ok, ok-injective}
use hindsight.CString.{Bytes}
use hindsight.Disk.{Disk}
use hindsight.Output.{Output}
use hindsight.IpCheckpoint.{Status, success, failure}
use hindsight.Inject.{QueueConfig, Throttle, Answers, write_message}
use hindsight.InputPlugin.{
  InputPlugin, Injected, sampled, counted, record_checkpoint, synchronize, deliver, inject_message,
}
use hindsight.InputPlugin.Thread.{
  InjectCall, Poll, InputState, InputEnded, is_error, waited, timed_wait, wait_next, after_call,
  inject_calls, polls,
}
use hindsight.InputPlugin.Thread.Leaving.Semaphore.{inject_calls-shutdown}

module _ {Number Stats : Type 0} where
  -- In one of the calls the sandbox fails, or the plugin is told to stop behind it.
  unfoldable pub has_reason : List (Poll Number Stats) → Bool
  has_reason [] = false
  has_reason (x ∷ rest) = is_error x.result || x.posted || has_reason rest

  waited_posted :
      (n : ℕ) (posted : Bool) (p : InputPlugin Number Stats)
      → posted ≡ true
      → (waited n posted p).1 ≡ true
  waited_posted zero posted p h = h
  waited_posted (suc n) posted p h = refl

  -- A post is seen by the wait behind the call.
  wait_next_posted :
      (x : Poll Number Stats) (s : InputState Number Stats)
      → x.posted ≡ true
      → (wait_next x s).1 ≡ true
  unfolding wait_next timed_wait
  wait_next_posted x s h =
      waited_posted s.plugin.shutdown x.posted (record s.plugin { stats = x.stats }) h

  -- The call number `k` is the reason to leave the loop as `e` tells, where the semaphore had the value
  -- `n` at first.
  abbrev pub IsReason : ℕ → ℕ → Poll Number Stats → InputEnded Number Stats → Type 0
  IsReason n k x e =
      ((is_error x.result ≡ true) × (e.failed ≡ true))
      ⊎ ((is_error x.result ≡ false)
          × (((k ≡ 0) × (n ≢ 0)) ⊎ (x.posted ≡ true))
          × (e.shutdown ≡ true)
          × (e.failed ≡ false))

  waited_why :
      (n : ℕ) (posted : Bool) (p : InputPlugin Number Stats)
      → (waited n posted p).1 ≡ true
      → (n ≢ 0) ⊎ (posted ≡ true)
  waited_why zero posted p h = inr h
  waited_why (suc n) posted p h = inl (λ e. absurd (omega (arith, e)))

  waited_not :
      (n : ℕ) (posted : Bool) (p : InputPlugin Number Stats)
      → (waited n posted p).1 ≡ false
      → (posted ≡ false) × ((waited n posted p).0.shutdown ≡ p.shutdown) × (n ≡ 0)
  waited_not zero posted p h = (h, refl, refl)
  waited_not (suc n) posted p h = cc

  -- Why the wait behind a call is over early, and what is known where it is not.
  told_why :
      (x : Poll Number Stats) (s s1 : InputState Number Stats)
      → s1.plugin.shutdown ≡ s.plugin.shutdown
      → (wait_next x s1).1 ≡ true
      → (s.plugin.shutdown ≢ 0) ⊎ (x.posted ≡ true)
  unfolding wait_next timed_wait
  told_why x s s1 kept told =
      elim (waited_why s1.plugin.shutdown x.posted (record s1.plugin { stats = x.stats }) told) [
        | inl posted_before ↦ inl (λ e. posted_before (kept ∙ e))
        | inr posted ↦ inr posted
      ]

  untold :
      (x : Poll Number Stats) (s1 : InputState Number Stats)
      → (wait_next x s1).1 ≡ false
      → (x.posted ≡ false) × ((wait_next x s1).0.plugin.shutdown ≡ 0)
  unfolding wait_next timed_wait
  untold x s1 h =
      let (unposted, same, closed) =
        waited_not s1.plugin.shutdown x.posted (record s1.plugin { stats = x.stats }) h in
      (unposted, same ∙ closed)

  later_call :
      (n k : ℕ) (x : Poll Number Stats) (e : InputEnded Number Stats)
      → n ≡ 0
      → IsReason n k x e
      → (m : ℕ) → IsReason m (suc k) x e
  later_call n k x e closed (inl failed) m = inl failed
  later_call n k x e closed (inr (fine, inl (_, posted_before), _, _)) m =
      absurd (posted_before closed)
  later_call n k x e closed (inr (fine, inr posted, stops, ends)) m =
      inr (fine, inr posted, stops, ends)

  module _ (varint : ℕ → Bytes) (cfg : QueueConfig) where
    -- The loop of an input plugin that is called again and again is left behind the first of its calls
    -- that gives a reason, and none before gave one: either the sandbox has failed in that call, or
    -- the semaphore of the plugin was posted, before the first call or until the next one was due, and
    -- the sandbox has not failed. The loop ends with a failure, or as one that is to shut down.
    pub polls_left :
        (ticker_interval : ℕ) (xs : List (Poll Number Stats)) (s : InputState Number Stats)
        (e : InputEnded Number Stats)
        → ticker_interval ≢ 0
        → polls varint cfg ticker_interval xs s ≡ ok (some e)
        → (k : ℕ) × (x : Poll Number Stats) × (get_elem? xs k ≡ some x)
          × (has_reason (take k xs) ≡ false)
          × IsReason s.plugin.shutdown k x e
    unfolding polls after_call has_reason
    polls_left t [] s e polling h = cc
    polls_left t (x ∷ rest) s e polling h =
        let (s1, injected, h1) = >>=-eq-ok (inject_calls varint cfg x.injected s) _ h in
        let kept = inject_calls-shutdown varint cfg x.injected s s1 injected in
        let (s2, shutdown) = wait_next x s1 in
        elim (if-eq (is_error x.result) h1) [
          | inl (failed, h2) ↦ (
            0,
            x,
            refl,
            refl,
            inl (
              failed,
              sym (
                  ap (λ (e' : InputEnded Number Stats). e'.failed)
                    (some-injective _ _ (ok-injective h2))),
            ),
          )
          | inr (fine, h2) ↦ elim (if-eq (t == 0) h2) [
            | inl (once, _) ↦ absurd (polling (ground (arith, once)))
            | inr (_, h3) ↦ elim (if-eq shutdown h3) [
              | inl (told, h4) ↦
                  let is = some-injective _ _ (ok-injective h4) in
                  (
                    0,
                    x,
                    refl,
                    refl,
                    inr (
                      fine,
                      elim (told_why x s s1 kept told) [
                        | inl posted_before ↦ inl (refl, posted_before)
                        | inr posted ↦ inr posted
                      ],
                      sym (ap (λ (e' : InputEnded Number Stats). e'.shutdown) is),
                      sym (ap (λ (e' : InputEnded Number Stats). e'.failed) is),
                    ),
                  )
              | inr (not_told, h4) ↦
                  let (k, y, there, before, why) = polls_left t rest s2 e polling h4 in
                  let (unposted, closed) = untold x s1 not_told in
                  (
                    suc k,
                    y,
                    there,
                    rw (fine, unposted) before,
                    later_call s2.plugin.shutdown k y e closed why s.plugin.shutdown,
                  )
            ]
          ]
        ]

    -- And it is left then, unless the process ends in it.
    pub polls_leave :
        (ticker_interval : ℕ) (xs : List (Poll Number Stats)) (s : InputState Number Stats)
        → has_reason xs ≡ true
        → polls varint cfg ticker_interval xs s ≢ ok none
    unfolding polls after_call has_reason
    polls_leave t [] s reason h = cc
    polls_leave t (x ∷ rest) s reason h =
        let (s1, _, h1) = >>=-eq-ok (inject_calls varint cfg x.injected s) _ h in
        let (s2, shutdown) = wait_next x s1 in
        elim (if-eq (is_error x.result) h1) [
          | inl (failed, h2) ↦ cc
          | inr (fine, h2) ↦ elim (if-eq (t == 0) h2) [
            | inl (once, h3) ↦ cc
            | inr (_, h3) ↦ elim (if-eq shutdown h3) [
              | inl (told, h4) ↦ cc
              | inr (not_told, h4) ↦
                  let unposted : x.posted ≡ false = elim (Bool-cases x.posted) [
                    | inl p ↦ absurd (ground (arith, not_told, wait_next_posted x s1 p))
                    | inr n ↦ n
                  ] in
                  polls_leave t rest s2 (rw (fine, unposted) at reason) h4
            ]
          ]
        ]
