-- ===== src/OutputPlugin/Ring.antt =====
-- The ring of places of asynchronous messages: which acknowledgements find the place of their
-- message, and what the others find.
pub mod Holds
pub mod Overrun
use hindsight.Base.{
  ℕ, ◌+◌, ◌-◌, ◌%◌, ◌^◌, ◌≤◌, ◌<◌, ◌≡◌, ◌≢◌, refl, sym, ap, ◌∙◌, ◌⊎◌, inl, inr, Bool, true, false,
  ◌||◌, some, List, [], ◌∷◌, arith, if◌then◌else◌, length, get_elem?, set, length-set, ℕ_discrete,
  get_elem?-set_self, get_elem?-set_ne,
}
use hindsight.Inject.{add64}
use hindsight.Checkpoint.{CheckpointPair}
use hindsight.OutputPlugin.Hold.{note_place-same, output_message-cp}
use hindsight.OutputPlugin.{
  OutputPlugin, async_len, update_checkpoint, update_checkpoint_callback, later_pair, PmResult,
  sent, retry, fatal, Answers, callbacks, note_place, settle, count_message, process, advance,
  handle, tick, output_message,
}

mod_apart : (n j d : ℕ) → 0 < d → d < n → j % n ≢ (j + d) % n
mod_apart n j d pos small h = grind arith

-- `place s` is where the message numbered `s` ends in the queues. The slots of the last messages but
-- one hold their places: with `async_len` slots, those of `async_len - 1` messages.
pub record HoldsPlaces (place : ℕ → CheckpointPair) (p : OutputPlugin) : Type 0 where
  pub slot :
      (s : ℕ)
      → s ≤ p.sequence_id
      → p.sequence_id + 1 < s + async_len p
      → get_elem? p.async_cp (s % async_len p) ≡ some (place s)

-- One message further on: every slot is in use.
pub record Noted (place : ℕ → CheckpointPair) (p : OutputPlugin) : Type 0 where
  pub slot :
      (s : ℕ)
      → s ≤ p.sequence_id + 1
      → p.sequence_id + 1 < s + async_len p
      → get_elem? p.async_cp (s % async_len p) ≡ some (place s)

pub mod-lt : (a n : ℕ) → 0 < n → a % n < n
mod-lt a n h = omega arith

pub note_place-ring :
    (p : OutputPlugin)
    → 0 < async_len p
    → p.sequence_id + 1 < 2 ^ 64
    → (note_place p).async_cp ≡ set p.async_cp ((p.sequence_id + 1) % async_len p) p.cur
unfolding note_place
note_place-ring p pos small = ground arith

-- An acknowledgement moves the checkpoint by what it finds in its slot.
pub callback-cp :
    (q : OutputPlugin) (s : ℕ) (x : CheckpointPair)
    → 0 < s
    → 0 < async_len q
    → get_elem? q.async_cp (s % async_len q) ≡ some x
    → (update_checkpoint_callback s q).cp ≡ later_pair (some x) q.cp
unfolding update_checkpoint_callback
callback-cp q s x pos ring found = ground arith

module _ (place : ℕ → CheckpointPair) where
  ring_set :
      (xs : List CheckpointPair) (q s : ℕ)
      → (s ≤ q → get_elem? xs (s % length xs) ≡ some (place s))
      → s ≤ q + 1
      → q + 1 < s + length xs
      → get_elem? (set xs ((q + 1) % length xs) (place (q + 1))) (s % length xs) ≡ some (place s)
  ring_set xs q s old le window = elim (ℕ_discrete s (q + 1)) [
    | yes new ↦ rw new (
        get_elem?-set_self xs ((q + 1) % length xs) (place (q + 1))
          (mod-lt (q + 1) (length xs) (omega arith)))
    | no below ↦
        let gap : s + (q + 1 - s) ≡ q + 1 = omega arith in
        let apart : (q + 1) % length xs ≢ s % length xs = λ e.
          mod_apart (length xs) s (q + 1 - s) (omega arith) (omega arith)
            (sym e ∙ ap (λ (t : ℕ). t % length xs) (sym gap)) in
        get_elem?-set_ne xs ((q + 1) % length xs) (s % length xs) (place (q + 1)) apart
        ∙ old (omega arith)
  ]

  pub note_place-Noted :
      (p : OutputPlugin)
      → HoldsPlaces place p
      → p.sequence_id + 1 < 2 ^ 64
      → p.cur ≡ place (p.sequence_id + 1)
      → Noted place (note_place p)
  note_place-Noted p h small here =
      let (len, seq, _, _, _, _) = note_place-same p in
      record {
        slot = λ s le window.
            let ring = note_place-ring p (omega arith) small in
            let le' : s ≤ p.sequence_id + 1 = omega arith in
            let window' : p.sequence_id + 1 < s + async_len p = omega arith in
            rw (len, ring, here)
              (ring_set p.async_cp p.sequence_id s (λ old. h.slot s old window') le' window');
      }

-- The callbacks and the timer leave the ring and the numbering.
pub record SameRing (p q : OutputPlugin) : Type 0 where
  pub ring : q.async_cp ≡ p.async_cp
  pub number : q.sequence_id ≡ p.sequence_id

callback-SameRing : (s : ℕ) (p : OutputPlugin) → SameRing p (update_checkpoint_callback s p)
unfolding update_checkpoint_callback
callback-SameRing s p = record { ring = ground arith; number = ground arith }

pub callbacks-SameRing : (acks : List ℕ) (p : OutputPlugin) → SameRing p (callbacks acks p)
unfolding callbacks
callbacks-SameRing [] p = record { ring = refl; number = refl }
callbacks-SameRing (s ∷ rest) p =
    let one = callback-SameRing s p in
    let more = callbacks-SameRing rest (update_checkpoint_callback s p) in
    record { ring = more.ring ∙ one.ring; number = more.number ∙ one.number }

pub advance-SameRing : (p : OutputPlugin) (r : PmResult) → SameRing p (advance (p, r)).0
unfolding advance update_checkpoint
advance-SameRing p r = record { ring = ground arith; number = ground arith }

pub tick-SameRing :
    (p : OutputPlugin) (r : PmResult) (t : ℕ) (a : Answers) → SameRing p (tick (p, r) t a).0
unfolding tick
tick-SameRing p r t a =
    let acked = callbacks-SameRing a.te_acks p in
    record { ring = ground (arith, acked.ring); number = ground (arith, acked.number) }

-- Behind the callbacks the message is counted, or it is not.
pub settled-number :
    (q : OutputPlugin) (r : PmResult)
    → ((count_message r (settle r (record q { pm_sample = false }))).0.async_cp ≡ q.async_cp)
      × (((count_message r (settle r (record q { pm_sample = false }))).0.sequence_id
            ≡ q.sequence_id)
          ⊎ ((count_message r (settle r (record q { pm_sample = false }))).0.sequence_id
              ≡ add64 q.sequence_id 1))
settled-number q retry = (refl, inl refl)
settled-number q fatal = (refl, inl refl)
settled-number q _ = (refl, inr refl)
