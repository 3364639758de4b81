-- ===== src/OutputPlugin/Ring/Overrun.antt =====
-- What a message that is refused does to a ring that is full.
use hindsight.Base.{
  ℕ, ◌+◌, ◌%◌, ◌^◌, ◌<◌, ◌≡◌, sym, ap, ◌∙◌, Bool, true, ◌||◌, some, [], arith, length, get_elem?,
  set, length-set, get_elem?-set_self,
}
use hindsight.OutputPlugin.Hold.{output_message-cp}
use hindsight.OutputPlugin.{
  OutputPlugin, async_len, update_checkpoint_callback, later_pair, retry, Answers, callbacks,
  note_place, process, advance, handle, output_message,
}
use hindsight.OutputPlugin.Ring.{
  mod-lt, note_place-ring, callback-cp, callbacks-SameRing, advance-SameRing, tick-SameRing,
  settled-number,
}

mod_around : (s n : ℕ) → 0 < n → (s + n) % n ≡ s % n
mod_around s n h = grind arith

note_place-sampled :
    (p : OutputPlugin) (b : Bool)
    → (note_place (record p { pm_sample = b })).async_cp ≡ (note_place p).async_cp
unfolding note_place
note_place-sampled p b = ground arith

process-ring : (p : OutputPlugin) (a : Answers) → (process p a).0.async_cp ≡ (note_place p).async_cp
unfolding process
process-ring p a =
    (settled-number (callbacks a.pm_acks (note_place p)) a.pm_result).0
    ∙ (callbacks-SameRing a.pm_acks (note_place p)).ring

-- The only change to the ring is that of the message that is handed over.
output_message-ring :
    (p : OutputPlugin) (sampled : Bool) (t : ℕ) (a : Answers)
    → a.matched ≡ true
    → (output_message p true sampled t a).0.async_cp ≡ (note_place p).async_cp
unfolding output_message handle
output_message-ring p sampled t a matched =
    let p' = record p { pm_sample = p.pm_sample || sampled } in
    let x = process p' a in
    let y = advance x in
    ground (
      arith,
      (tick-SameRing y.0 y.1 t a).ring,
      (advance-SameRing x.0 x.1).ring,
      process-ring p' a,
      note_place-sampled p (p.pm_sample || sampled),
    )

-- With as many messages under way as the ring has slots, a message that the sandbox refuses for now
-- takes the slot of the oldest. The acknowledgement of the oldest then moves the checkpoint to the
-- place of the message that was refused.
pub refused_takes_slot :
    (p : OutputPlugin) (s t : ℕ) (sampled : Bool) (a : Answers)
    → 0 < s
    → 0 < async_len p
    → p.sequence_id + 1 ≡ s + async_len p
    → p.sequence_id + 1 < 2 ^ 64
    → a.matched ≡ true
    → a.pm_result ≡ retry
    → a.pm_acks ≡ []
    → a.te_acks ≡ []
    → (update_checkpoint_callback s (output_message p true sampled t a).0).cp
      ≡ later_pair (some p.cur) p.cp
refused_takes_slot p s t sampled a pos ring full small matched refused no_pm no_te =
    let q = (output_message p true sampled t a).0 in
    let n = async_len p in
    let k = (p.sequence_id + 1) % n in
    let same : q.async_cp ≡ set p.async_cp k p.cur =
      output_message-ring p sampled t a matched ∙ note_place-ring p ring small in
    let here : s % n ≡ k = sym (mod_around s n ring) ∙ ap (λ (t : ℕ). t % n) (sym full) in
    let size : async_len q ≡ n = ap length same ∙ length-set p.async_cp k p.cur in
    let found : get_elem? q.async_cp (s % async_len q) ≡ some p.cur =
      rw (size, same, here)
        (get_elem?-set_self p.async_cp k p.cur (mod-lt (p.sequence_id + 1) n ring)) in
    let kept : q.cp ≡ p.cp = output_message-cp p sampled t a no_pm no_te ∙ rw (matched, refused) in
    callback-cp q s p.cur pos (omega arith) found ∙ ap (later_pair (some p.cur)) kept
