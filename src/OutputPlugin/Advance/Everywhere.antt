-- ===== src/OutputPlugin/Advance/Everywhere.antt =====
-- A property of every checkpoint that an output plugin keeps, in either queue.
use hindsight.Base.{
  ℕ, ◌≡◌, inl, inr, refl, ◌&&◌, ◌||◌, Option, none, some, ltb, ◌==◌, get_elem?, Bool-cases,
}
use hindsight.Checkpoint.{Checkpoint, CheckpointPair}
use hindsight.OutputPlugin.{OutputPlugin, later, later_pair}
use hindsight.OutputPlugin.Advance.{CpFrom}
use hindsight.OutputPlugin.Advance.Steps.{IsKept}

module _ (InInput InAnalysis : Checkpoint → Type 0) where
  abbrev pub Both : CheckpointPair → Type 0
  Both x = InInput x.input × InAnalysis x.analysis

  pub record Everywhere (p : OutputPlugin) : Type 0 where
    pub cp : Both p.cp
    pub cur : Both p.cur
    pub ring : (i : ℕ) (x : CheckpointPair) → get_elem? p.async_cp i ≡ some x → Both x

  later_one : (P : Checkpoint → Type 0) (a c : Checkpoint) → P a → P c → P (later a c)
  unfolding later
  later_one P a c h k =
      elim (Bool-cases ((a.id == c.id && ltb c.offset a.offset) || ltb c.id a.id)) [
        | inl further ↦ rw (further) h
        | inr behind ↦ rw (behind) k
      ]

  later-Both :
      (o : Option CheckpointPair) (c : CheckpointPair)
      → ((x : CheckpointPair) → o ≡ some x → Both x)
      → Both c
      → Both (later_pair o c)
  unfolding later_pair
  later-Both none c h k = k
  later-Both (some a) c h k = (
    later_one InInput a.input c.input (h a refl).0 k.0,
    later_one InAnalysis a.analysis c.analysis (h a refl).1 k.1,
  )

  from_cp : (p : OutputPlugin) (c : CheckpointPair) → Everywhere p → CpFrom p c → Both c
  from_cp p c h (inl e) = rw (e) h.cp
  from_cp p c h (inr (inl e)) = rw (e) h.cur
  from_cp p c h (inr (inr (i, e))) =
      rw (e) (later-Both (get_elem? p.async_cp i) p.cp (h.ring i) h.cp)

  -- Every step keeps it that takes the checkpoint and the ring from what is there.
  pub Everywhere-IsKept : IsKept Everywhere
  Everywhere-IsKept p q h cur ring from = record {
    cp = from_cp p q.cp h from;
    cur = rw (cur) h.cur;
    ring = λ i x e. elim (ring i x e) [ inl new ↦ rw (new) h.cur | inr old ↦ h.ring i x old ];
  }
