-- ===== src/AnalysisPlugin/Limit.antt =====
-- However many messages a sandbox injects, the limit of the call bounds those that reach the queue.
use hindsight.Base.{ℕ, zero, suc, ◌-◌, ◌≡◌, refl, sym, List, [], ◌∷◌, arith, length, take}
use hindsight.Base.Run.{ok-injective, Run, ok, ◌>>=◌, >>=-eq-ok}
use hindsight.CString.{Bytes}
use hindsight.Disk.{Disk}
use hindsight.Output.{Output}
use hindsight.Inject.{QueueConfig, Throttle, Answers, write_message}
use hindsight.AnalysisPlugin.{
  Injecting, ImResult, im_success, im_limit_reached, within_limit, inject_message, inject_all,
}

abbrev queue_of : Injecting → Disk × Output × Throttle
queue_of s = (s.disk, s.output, s.throttle)

-- The results of a number of calls, under a limit.
abbrev pub results : ℕ → ℕ → List ImResult
results left zero = []
results zero (suc n) = im_limit_reached ∷ results zero n
results (suc left) (suc n) = im_success ∷ results left n

module _ (varint : ℕ → Bytes) (cfg : QueueConfig) where
  -- The messages written one after another, without a limit.
  unfoldable pub write_all :
      Disk × Output × Throttle → List (Bytes × Answers) → Run (Disk × Output × Throttle)
  write_all q [] = ok q
  write_all (d, o, th) ((pb, a) ∷ rest) = do
    q' ← write_message varint cfg d o th pb a
    write_all q' rest

  -- When the first messages, as many as the limit allows, can be written one after another, the calls
  -- of one sandbox return, and leave the queue as those writes do: exactly the first messages up to the
  -- limit succeed, the others get LSB_HEKA_IM_LIMIT and write nothing, and the limit goes down by the
  -- number of calls, to 0 at the least.
  pub inject_all_lem :
      (left : ℕ) (d : Disk) (o : Output) (th : Throttle) (calls : List (Bytes × Answers))
      (q' : Disk × Output × Throttle)
      → write_all (d, o, th) (take left calls) ≡ ok q'
      → inject_all varint cfg
          (record { disk = d; output = o; throttle = th; im_limit = left })
          calls
        ≡ ok (
          record { disk = q'.0; output = q'.1; throttle = q'.2; im_limit = left - length calls },
          results left (length calls),
        )
  unfolding write_all inject_all inject_message within_limit
  inject_all_lem zero d o th [] q' h = rw (sym (ok-injective h)) refl
  inject_all_lem (suc left) d o th [] q' h =
      let all_left : suc left - 0 ≡ suc left = omega arith in
      rw (sym (ok-injective h), all_left) refl
  inject_all_lem zero d o th ((pb, a) ∷ rest) q' h =
      let none_left : 0 - length rest ≡ 0 - suc (length rest) = omega arith in
      rw (inject_all_lem zero d o th rest q' h, none_left) refl
  inject_all_lem (suc left) d o th ((pb, a) ∷ rest) q' h =
      let ((d1, o1, th1), written, others) =
        >>=-eq-ok (write_message varint cfg d o th pb a) (λ q. write_all q (take left rest)) h in
      let left_over : suc left - suc (length rest) ≡ left - length rest = omega arith in
      rw (left_over, written, inject_all_lem left d1 o1 th1 rest q' others) refl
