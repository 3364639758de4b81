-- ===== src/OutputPlugin/Advance.antt =====
-- How far the checkpoint of an output plugin moves.
pub mod Steps
pub mod Everywhere
use hindsight.Base.{
  ℕ, zero, suc, ◌+◌, ◌%◌, ◌≤◌, ◌<◌, ◌≡◌, ◌⊎◌, inl, inr, refl, Bool-cases, Bool, true, false, not,
  ◌&&◌, ◌||◌, Option, none, some, List, [], ◌∷◌, arith, ◌==◌, if◌then◌else◌, get_elem?, set,
}
use hindsight.Inject.{add64}
use hindsight.Checkpoint.{Checkpoint, CheckpointPair}
use hindsight.OutputPlugin.{
  OutputPlugin, async_len, update_checkpoint, later, later_pair, update_checkpoint_callback,
  PmResult, sent, retry, Answers, callbacks, note_place, settle, count_message, process, advance,
  handle, tick, output_message,
}

infix 50 ◌≼◌
-- `a` is not further on in its queue than `b`.
abbrev pub ◌≼◌ : Checkpoint → Checkpoint → Type 0
a ≼ b = (a.id < b.id) ⊎ ((a.id ≡ b.id) × (a.offset ≤ b.offset))

pub record Precedes (a b : CheckpointPair) : Type 0 where
  pub input : a.input ≼ b.input
  pub analysis : a.analysis ≼ b.analysis

≼_trans : (a b c : Checkpoint) → a ≼ b → b ≼ c → a ≼ c
≼_trans a b c h k = ground arith

later-≼ : (a c : Checkpoint) → c ≼ later a c
unfolding later
later-≼ a c = ground arith

later-bound : (a c b : Checkpoint) → a ≼ b → c ≼ b → later a c ≼ b
unfolding later
later-bound a c b h k = ground arith

pub Precedes-refl : (a : CheckpointPair) → Precedes a a
Precedes-refl a = record { input = inr (refl, omega arith); analysis = inr (refl, omega arith) }

-- Neither the checkpoint nor a place in the ring is further on than what has been read.
pub record IsBehind (p : OutputPlugin) : Type 0 where
  pub cp : Precedes p.cp p.cur
  pub ring : (i : ℕ) (x : CheckpointPair) → get_elem? p.async_cp i ≡ some x → Precedes x p.cur

-- One call leaves the invariant, moves no checkpoint back, and leaves `cur`.
pub record Moves (p q : OutputPlugin) : Type 0 where
  pub behind : IsBehind q
  pub forward : Precedes p.cp q.cp
  pub same_cur : q.cur ≡ p.cur

Precedes-trans : (a b c : CheckpointPair) → Precedes a b → Precedes b c → Precedes a c
Precedes-trans a b c h k = record {
  input = ≼_trans a.input b.input c.input h.input k.input;
  analysis = ≼_trans a.analysis b.analysis c.analysis h.analysis k.analysis;
}

pub Moves-refl : (p : OutputPlugin) → IsBehind p → Moves p p
Moves-refl p h = record { behind = h; forward = Precedes-refl p.cp; same_cur = refl }

pub Moves-trans : (p q r : OutputPlugin) → Moves p q → Moves q r → Moves p r
Moves-trans p q r h k = record {
  behind = k.behind;
  forward = Precedes-trans p.cp q.cp r.cp h.forward k.forward;
  same_cur = cc (h.same_cur, k.same_cur);
}

later_pair-Precedes :
    (o : Option CheckpointPair) (c b : CheckpointPair)
    → Precedes c b
    → ((x : CheckpointPair) → o ≡ some x → Precedes x b)
    → Precedes c (later_pair o c) × Precedes (later_pair o c) b
unfolding later_pair
later_pair-Precedes none c b h k = (Precedes-refl c, h)
later_pair-Precedes (some a) c b h k = (
  record { input = later-≼ a.input c.input; analysis = later-≼ a.analysis c.analysis },
  record {
    input = later-bound a.input c.input b.input (k a refl).input h.input;
    analysis = later-bound a.analysis c.analysis b.analysis (k a refl).analysis h.analysis;
  },
)

-- The three ways in which one step changes the checkpoint.
abbrev pub CpFrom : OutputPlugin → CheckpointPair → Type 0
CpFrom p c = (c ≡ p.cp) ⊎ ((c ≡ p.cur) ⊎ ((i : ℕ) × (c ≡ later_pair (get_elem? p.async_cp i) p.cp)))

-- A place in the ring is the one that has been read now, or stood there.
abbrev pub RingFrom : OutputPlugin → List CheckpointPair → Type 0
RingFrom p ring =
    (i : ℕ) (x : CheckpointPair)
    → get_elem? ring i ≡ some x
    → (x ≡ p.cur) ⊎ (get_elem? p.async_cp i ≡ some x)

CpFrom-Precedes :
    (p : OutputPlugin) (c : CheckpointPair)
    → IsBehind p
    → CpFrom p c
    → Precedes p.cp c × Precedes c p.cur
CpFrom-Precedes p c h (inl e) = rw e (Precedes-refl p.cp, h.cp)
CpFrom-Precedes p c h (inr (inl e)) = rw e (h.cp, Precedes-refl p.cur)
CpFrom-Precedes p c h (inr (inr (i, e))) =
    rw e (later_pair-Precedes (get_elem? p.async_cp i) p.cp p.cur h.cp (h.ring i))

pub Moves-from :
    (p q : OutputPlugin)
    → IsBehind p
    → q.cur ≡ p.cur
    → RingFrom p q.async_cp
    → CpFrom p q.cp
    → Moves p q
Moves-from p q h same ring from =
    let (forward, bound) = CpFrom-Precedes p q.cp h from in
    record {
      behind = record {
        cp = rw same bound;
        ring = λ i x e. rw same (elim (ring i x e) [
          | inl new ↦ rw new (Precedes-refl p.cur)
          | inr old ↦ h.ring i x old
        ]);
      };
      forward = forward;
      same_cur = same;
    }

module _ (s : ℕ) (p : OutputPlugin) where
  abbrev pub called : OutputPlugin
  called = update_checkpoint_callback s p

  pub callback-same : (called.cur ≡ p.cur) × (called.async_cp ≡ p.async_cp)
  unfolding update_checkpoint_callback
  callback-same = ground arith

  pub callback-CpFrom : CpFrom p called.cp
  unfolding update_checkpoint_callback
  callback-CpFrom = elim (Bool-cases (not (s == 0) && not (async_len p == 0))) [
    | inl acked ↦ inr (inr (s % async_len p, ground arith))
    | inr not_acked ↦ elim (Bool-cases p.batching) [
      | inl b ↦ inr (inl (ground arith))
      | inr b ↦ inl (ground arith)
    ]
  ]
