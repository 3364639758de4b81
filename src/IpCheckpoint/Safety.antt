-- ===== src/IpCheckpoint/Safety.antt =====
-- When the text of an input plugin's checkpoint can be read, and that it is then the one stored.
use hindsight.Base.{
  ℕ, ◌+◌, ◌%◌, ◌^◌, ◌≤◌, ◌<◌, ◌≡◌, ◌≢◌, refl, ◌∙◌, Bool, true, false, Option, none, some, [], ◌∷◌,
  ◌++◌, arith, leb, ltb, length, drop, take, take_all, length-append, length-drop, if-both,
}
use hindsight.CString.{Bytes}
use hindsight.CheckpointReader.{str, Table}
use hindsight.IpCheckpoint.{
  IpCheckpoint, Value, unset, numeric, string, Status, failure, copy_to, copied, buffer_of,
  store_text, set_number, number_over, stored_value, assign_text, update_checkpoint,
  load_checkpoint, store_checkpoint, read_text, max_ip_checkpoint,
}

-- the buffer has the capacity that is noted
abbrev BufferFits : Option Bytes → ℕ → ℕ → Type 0
BufferFits none len cap = (len ≡ 0) × (cap ≡ 0)
BufferFits (some buffer) len cap = (len ≤ cap) × (length buffer ≡ cap) × (cap ≤ max_ip_checkpoint)

abbrev ValueFits : {Number : Type 0} → Value Number → ℕ → ℕ → Type 0
ValueFits unset len cap = (len ≡ 0) × (cap ≡ 0)
ValueFits (numeric _) len cap = (len ≡ 0) × (cap ≡ 0)
ValueFits (string s) len cap = BufferFits s len cap

-- A checkpoint whose text, if it has one, is within its buffer.
unfoldable pub IsReadable : {Number : Type 0} → IpCheckpoint Number → Type 0
IsReadable cp = ValueFits cp.value cp.len cp.cap

length-copy_to :
    (text buffer : Bytes)
    → length text ≤ length buffer
    → length (copy_to text buffer) ≡ length buffer
unfolding copy_to
length-copy_to text buffer h =
    omega (arith, length-append text (drop (length text) buffer), length-drop (length text) buffer)

abbrev ResultIsReadable : {Number : Type 0} → IpCheckpoint Number × Status → Type 0
ResultIsReadable r = IsReadable r.0

module _ {Number : Type 0} where
  buffer-fits :
      (v : Value Number) (len cap : ℕ)
      → ValueFits v len cap
      → (size : ℕ) → ltb cap size ≡ false
      → 0 < size
      → (b : Bytes) × (buffer_of v ≡ some b) × (length b ≡ cap) × (cap ≤ max_ip_checkpoint)
  unfolding buffer_of
  buffer-fits unset len cap h size ge pos = absurd (ground arith)
  buffer-fits (numeric _) len cap h size ge pos = absurd (ground arith)
  buffer-fits (string none) len cap h size ge pos = absurd (ground arith)
  buffer-fits (string (some b)) len cap h size ge pos = (b, refl, h.1, h.2)

  copied-IsReadable :
      (text : Bytes) (len : ℕ) (cp : IpCheckpoint Number)
      → IsReadable cp
      → ltb cp.cap (length text) ≡ false
      → len ≤ length text
      → 0 < length text
      → IsReadable (copied {Number = Number} text (buffer_of cp.value) len cp.cap)
  unfolding IsReadable copied
  copied-IsReadable text len cp h ge le pos =
      let (b, at, is, most) = buffer-fits cp.value cp.len cp.cap h (length text) ge pos in
      rw (at) (ground arith, length-copy_to text b (ground arith) ∙ is, most)

  pub store_text-IsReadable :
      (malloc : Bool) (text : Bytes) (size len : ℕ) (cp : IpCheckpoint Number)
      → IsReadable cp
      → length text ≡ size
      → len ≤ size
      → 0 < size
      → size ≤ max_ip_checkpoint
      → IsReadable (store_text malloc text size len cp).0
  unfolding store_text
  store_text-IsReadable malloc text size len cp h e le pos small =
      let whole : take size text ≡ text = take_all size text (omega arith) in
      if-both ResultIsReadable (leb size max_ip_checkpoint)
        (λ _.
          if-both ResultIsReadable (ltb cp.cap size)
            (λ _.
              if-both ResultIsReadable malloc (λ _. unfold IsReadable in rw (whole) (le, e, small))
                (λ _. unfold IsReadable in (refl, refl)))
            (λ ge.
              rw (whole) (copied-IsReadable text len cp h (rw (e) ge) (rw (e) le) (rw (e) pos))))
        (λ no. absurd (ground arith))

  number_over-fits :
      (v : Value Number) (d : Number) (cp : IpCheckpoint Number)
      → ValueFits v cp.len cp.cap
      → IsReadable (number_over v d cp)
  unfolding number_over IsReadable
  number_over-fits unset d cp h = h
  number_over-fits (numeric _) d cp h = h
  number_over-fits (string _) d cp h = (refl, refl)

  set_number-IsReadable :
      (d : Number) (cp : IpCheckpoint Number) → IsReadable cp → IsReadable (set_number d cp)
  unfolding set_number IsReadable
  set_number-IsReadable d cp h = number_over-fits cp.value d cp h

  -- A text that leaves no room for its closing 0 is refused.
  store_text-too_long :
      (malloc : Bool) (text : Bytes) (size len : ℕ) (cp : IpCheckpoint Number)
      → max_ip_checkpoint < size
      → store_text malloc text size len cp
        ≡ (record { value = string (buffer_of cp.value); len = len; cap = cp.cap }, failure)
  unfolding store_text
  store_text-too_long malloc text size len cp h = ground arith

  -- From a checkpoint whose text is within its buffer, update_checkpoint leads to another such one,
  -- whatever the sandbox passes and whether or not there is memory, unless it refuses a text that is
  -- too long; texts are shorter than 2^32 - 1 bytes.
  pub update_checkpoint-IsReadable :
      (malloc : Bool) (d : Option Number) (s : Bytes) (cp : IpCheckpoint Number)
      → IsReadable cp
      → length s < max_ip_checkpoint
      → IsReadable (update_checkpoint malloc d (some s) cp).0
  unfolding update_checkpoint
  update_checkpoint-IsReadable malloc (some d) s cp h small = set_number-IsReadable d cp h
  update_checkpoint-IsReadable malloc none s cp h small =
      let e : (length s + 1) % 2 ^ 32 ≡ length s + 1 = omega arith in
      rw (e) (
        store_text-IsReadable malloc (s ++ (0 ∷ [])) (length s + 1) (length s + 1) cp h
          (omega (arith, length-append s (0 ∷ []))) (omega arith) (omega arith) (omega arith))

  pub load_checkpoint-IsReadable :
      (malloc : Bool) (s : Bytes) (cp : IpCheckpoint Number)
      → IsReadable cp
      → length s < max_ip_checkpoint
      → IsReadable (load_checkpoint malloc (some (str s)) cp).0
  unfolding load_checkpoint
  load_checkpoint-IsReadable malloc s cp h small =
      store_text-IsReadable malloc (s ++ (0 ∷ [])) (length s + 1) (length s % 2 ^ 32) cp h
        (omega (arith, length-append s (0 ∷ []))) (omega arith) (omega arith) (omega arith)

  stored_value-fits :
      (v : Value Number) (t : Table Number) (key : Bytes) (len cap : ℕ)
      → ValueFits v len cap
      → stored_value v t key len ≢ none
  unfolding stored_value assign_text read_text
  stored_value-fits unset t key len cap h = λ e. cc
  stored_value-fits (numeric _) t key len cap h = λ e. cc
  stored_value-fits (string none) t key len cap h = rw (h.0) (λ e. cc)
  stored_value-fits (string (some b)) t key len cap h =
      let within : leb len (length b) ≡ true = ground (arith, h.0, h.1) in rw (within) (λ e. cc)

  -- A checkpoint is written to the table without a read past its buffer, after any change that
  -- reports success: with a number, or with a text of fewer than 8,192 bytes.
  pub store-update :
      (malloc : Bool) (d : Option Number) (s key : Bytes) (t : Table Number)
      (cp : IpCheckpoint Number)
      → IsReadable cp
      → length s < max_ip_checkpoint
      → store_checkpoint t key (update_checkpoint malloc d (some s) cp).0 ≢ none
  unfolding store_checkpoint IsReadable
  store-update malloc d s key t cp h small =
      let r = (update_checkpoint malloc d (some s) cp).0 in
      stored_value-fits r.value t key r.len r.cap
        (update_checkpoint-IsReadable malloc d s cp h small)

  read_text-past :
      (v : Value Number) (len cap size : ℕ)
      → ValueFits v len cap
      → max_ip_checkpoint < size
      → read_text (buffer_of v) size ≡ none
  unfolding read_text buffer_of
  read_text-past unset len cap size h big = ground arith
  read_text-past (numeric _) len cap size h big = ground arith
  read_text-past (string none) len cap size h big = ground arith
  read_text-past (string (some b)) len cap size h big =
      let past : leb size (length b) ≡ false = ground (arith, h.1) in rw (past) refl

  -- When the sandbox passes a text of 8,192 bytes or more, fewer than 2^32 - 1, the call reports
  -- failure and yet leaves a length that is greater than the buffer: the next write of the
  -- checkpoints reads past it.
  pub store-update_too_long :
      (malloc : Bool) (s key : Bytes) (t : Table Number) (cp : IpCheckpoint Number)
      → IsReadable cp
      → max_ip_checkpoint ≤ length s
      → length s + 1 < 2 ^ 32
      → ((update_checkpoint malloc none (some s) cp).1 ≡ failure)
        × (store_checkpoint t key (update_checkpoint malloc none (some s) cp).0 ≡ none)
  unfolding update_checkpoint store_checkpoint stored_value assign_text IsReadable
  store-update_too_long malloc s key t cp h big fits =
      let e : (length s + 1) % 2 ^ 32 ≡ length s + 1 = omega arith in
      rw
        (
          e,
          store_text-too_long malloc (s ++ (0 ∷ [])) (length s + 1) (length s + 1) cp (omega arith),
          read_text-past cp.value cp.len cp.cap (length s + 1) h (omega arith),
        )
        (refl, refl)
