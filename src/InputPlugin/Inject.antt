-- ===== src/InputPlugin/Inject.antt =====
-- What a call of `inject_message` by an input plugin does to its queue and to its checkpoint, on every
-- branch.
use hindsight.Base.{arith, ℕ, ◌+◌, ◌≡◌, refl, ◌∙◌, ap, Bool, Option, none, some}
use hindsight.Base.Run.{ok-injective, Run, ok}
use hindsight.CString.{Bytes}
use hindsight.Disk.{Disk}
use hindsight.Output.{Output}
use hindsight.Inject.{QueueConfig, Throttle, Answers, write_message}
use hindsight.IpCheckpoint.{Status, success, failure, update_checkpoint}
use hindsight.InputPlugin.{
  InputPlugin, Injected, sampled, counted, record_checkpoint, synchronize, deliver, inject_message,
}

-- What the queue is to be after a call: as it was, unless a message is there whose checkpoint was
-- accepted.
abbrev pub queue_after :
    (ℕ → Bytes)
    → QueueConfig
    → Disk
    → Output
    → Throttle
    → Answers
    → Option Bytes
    → Status
    → Run (Disk × Output × Throttle)
queue_after varint cfg d o th a (some pb) success = write_message varint cfg d o th pb a
queue_after varint cfg d o th a _ _ = ok (d, o, th)

abbrev pub messages : Option Bytes → ℕ
messages none = 0
messages (some _) = 1

module _ {Number Stats : Type 0} (varint : ℕ → Bytes) where
  sampled-cp : (now : Stats) (p : InputPlugin Number Stats) → (sampled now p).cp ≡ p.cp
  unfolding sampled
  sampled-cp now p = ground arith

  at_rest :
      InputPlugin Number Stats → Status → Disk × Output × Throttle → Run (Injected Number Stats)
  at_rest p rv (d, o, th) =
      ok (record { disk = d; output = o; throttle = th; plugin = p; result = rv })

  synchronize-cp : (p : InputPlugin Number Stats) → (synchronize p).cp ≡ p.cp
  unfolding synchronize
  synchronize-cp p = ground arith

  synchronize-count : (p : InputPlugin Number Stats) → (synchronize p).im_delta_cnt ≡ p.im_delta_cnt
  unfolding synchronize
  synchronize-count p = ground arith

  deliver_lem :
      (cfg : QueueConfig) (d : Disk) (o : Output) (th : Throttle) (pb : Option Bytes) (a : Answers)
      (p : InputPlugin Number Stats) (rv : Status) (d' : Disk) (o' : Output) (th' : Throttle)
      → queue_after varint cfg d o th a pb rv ≡ ok (d', o', th')
      → (p' : InputPlugin Number Stats) × (deliver varint cfg d o th pb a p rv
          ≡ ok (record { disk = d'; output = o'; throttle = th'; plugin = p'; result = rv }))
        × (p'.cp ≡ p.cp)
        × (p'.im_delta_cnt ≡ p.im_delta_cnt)
  unfolding deliver at_rest
  deliver_lem cfg d o th none a p rv d' o' th' h = (
    synchronize p,
    ap (at_rest (synchronize p) rv) (ok-injective h),
    synchronize-cp p,
    synchronize-count p,
  )
  deliver_lem cfg d o th (some pb) a p failure d' o' th' h =
      (p, ap (at_rest p failure) (ok-injective h), refl, refl)
  deliver_lem cfg d o th (some pb) a p success d' o' th' h = (p, rw (h) refl, refl, refl)

  recorded-cp :
      (malloc : Bool) (n : Option Number) (s : Option Bytes) (now : Stats) (pb : Option Bytes)
      (p : InputPlugin Number Stats)
      → (record_checkpoint malloc n s now pb p).0.cp ≡ (update_checkpoint malloc n s p.cp).0
  unfolding record_checkpoint sampled counted
  recorded-cp malloc n s now none p = ground arith
  recorded-cp malloc n s now (some m) p = ground arith

  recorded-count :
      (malloc : Bool) (n : Option Number) (s : Option Bytes) (now : Stats) (pb : Option Bytes)
      (p : InputPlugin Number Stats)
      → (record_checkpoint malloc n s now pb p).0.im_delta_cnt ≡ p.im_delta_cnt + messages pb
  unfolding record_checkpoint sampled counted
  recorded-count malloc n s now none p = ground arith
  recorded-count malloc n s now (some m) p = ground arith

  -- Where the write of the queue, if there is one, returns, a call returns the status of the
  -- checkpoint and leaves the checkpoint as update_checkpoint does, whether or not a message is
  -- written. The queue changes by write_message exactly when there is a message and its checkpoint
  -- was accepted; every message is counted, also one whose checkpoint was refused.
  pub inject_message_lem :
      (cfg : QueueConfig) (d : Disk) (o : Output) (th : Throttle) (p : InputPlugin Number Stats)
      (pb : Option Bytes) (n : Option Number) (s : Option Bytes) (malloc : Bool) (now : Stats)
      (a : Answers) (d' : Disk) (o' : Output) (th' : Throttle)
      → queue_after varint cfg d o th a pb (update_checkpoint malloc n s p.cp).1 ≡ ok (d', o', th')
      → (p' : InputPlugin Number Stats) × (inject_message varint cfg d o th p pb n s malloc now a
          ≡ ok (record {
            disk = d';
            output = o';
            throttle = th';
            plugin = p';
            result = (update_checkpoint malloc n s p.cp).1;
          }))
        × (p'.cp ≡ (update_checkpoint malloc n s p.cp).0)
        × (p'.im_delta_cnt ≡ p.im_delta_cnt + messages pb)
  unfolding inject_message record_checkpoint
  inject_message_lem cfg d o th p pb n s malloc now a d' o' th' h =
      let (p', done, cp, count) =
        deliver_lem cfg d o th pb a (record_checkpoint malloc n s now pb p).0
          (update_checkpoint malloc n s p.cp).1 d' o' th' h in
      (p', done, cp ∙ recorded-cp malloc n s now pb p, count ∙ recorded-count malloc n s now pb p)
