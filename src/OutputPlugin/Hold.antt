-- ===== src/OutputPlugin/Hold.antt =====
-- Exactly when `output_message` holds the checkpoint of an output plugin back.
use hindsight.Base.{
  ℕ, ◌≡◌, refl, Bool, true, false, not, ◌&&◌, ◌||◌, [], arith, ◌==◌, if◌then◌else◌, length-set,
  Bool-cases, inl, inr,
}
use hindsight.Inject.{add64}
use hindsight.OutputPlugin.{
  OutputPlugin, async_len, update_checkpoint, PmResult, sent, batch, async, retry, fatal, Answers,
  callbacks, note_place, settle, count_message, process, pending, advance, handle, tick,
  output_message,
}

-- A message that is counted leaves others without their acknowledgement.
abbrev unacked : OutputPlugin → Bool
unacked p = not (async_len p == 0) && not (add64 p.sequence_id 1 == p.ack_sequence_id)

-- The reasons to hold the checkpoint back, from the state before the message: the result was fatal
-- or asks for a retry, a batch is open, or asynchronous messages are under way.
abbrev pub holds_result : OutputPlugin → PmResult → Bool
holds_result p fatal = true
holds_result p retry = true
holds_result p batch = true
holds_result p sent = unacked p
holds_result p async = async_len p == 0 || p.batching || unacked p
holds_result p _ = p.batching || unacked p

abbrev pub holds_back : OutputPlugin → Answers → Bool
holds_back p a = if a.matched then holds_result p a.pm_result else p.batching || pending p

pub note_place-same :
    (p : OutputPlugin)
    → (async_len (note_place p) ≡ async_len p)
      × ((note_place p).sequence_id ≡ p.sequence_id)
      × ((note_place p).ack_sequence_id ≡ p.ack_sequence_id)
      × ((note_place p).batching ≡ p.batching)
      × ((note_place p).cp ≡ p.cp)
      × ((note_place p).cur ≡ p.cur)
unfolding note_place
note_place-same p = elim (Bool-cases (async_len p == 0)) [
  | inl none_noted ↦ rw none_noted (refl, refl, refl, refl, refl, refl)
  | inr noted ↦ rw noted (length-set p.async_cp _ p.cur, refl, refl, refl, refl, refl)
]

settled-cp :
    (q : OutputPlugin) (r : PmResult)
    → (advance (count_message r (settle r (record q { pm_sample = false })))).0.cp
      ≡ (if holds_result q r then q.cp else q.cur)
unfolding advance update_checkpoint
settled-cp q sent = ground arith
settled-cp q _ = ground arith

holds_result-note_place :
    (p : OutputPlugin) (r : PmResult) → holds_result (note_place p) r ≡ holds_result p r
holds_result-note_place p fatal = refl
holds_result-note_place p retry = refl
holds_result-note_place p batch = refl
holds_result-note_place p _ = let same = note_place-same p in ground arith

process-cp :
    (p : OutputPlugin) (a : Answers)
    → a.pm_acks ≡ []
    → (advance (process p a)).0.cp ≡ (if holds_result p a.pm_result then p.cp else p.cur)
unfolding process callbacks
process-cp p a none_acked =
    let (_, _, _, _, cp, cur) = note_place-same p in
    rw (
      none_acked,
      settled-cp (note_place p) a.pm_result,
      holds_result-note_place p a.pm_result,
      cp,
      cur,
    )

tick-cp :
    (p : OutputPlugin) (r : PmResult) (t : ℕ) (a : Answers)
    → a.te_acks ≡ []
    → (tick (p, r) t a).0.cp ≡ p.cp
unfolding tick callbacks
tick-cp p r t a none_acked = rw none_acked (ground arith)

handle-cp :
    (p : OutputPlugin) (sampled : Bool) (a : Answers)
    → a.pm_acks ≡ []
    → (handle p sampled a).0.cp ≡ (if holds_back p a then p.cp else p.cur)
unfolding handle
handle-cp p sampled a none_acked =
    let p' = record p { pm_sample = p.pm_sample || sampled } in
    elim (Bool-cases a.matched) [
      | inl yes_matched ↦ ground (arith, process-cp p' a none_acked)
      | inr unmatched ↦ unfold advance update_checkpoint in ground arith
    ]

-- While no acknowledgement comes in, a message moves the checkpoint to the place read, unless one of
-- the reasons of `holds_back` holds it where it is.
pub output_message-cp :
    (p : OutputPlugin) (sampled : Bool) (t : ℕ) (a : Answers)
    → a.pm_acks ≡ []
    → a.te_acks ≡ []
    → (output_message p true sampled t a).0.cp ≡ (if holds_back p a then p.cp else p.cur)
unfolding output_message
output_message-cp p sampled t a no_pm no_te =
    let x = handle p sampled a in
    let ticked = tick-cp x.0 x.1 t a no_te in
    let handled = handle-cp p sampled a no_pm in ground (arith, ticked, handled)
