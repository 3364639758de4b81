-- ===== src/IpCheckpoint/RoundTrip.antt =====
-- The checkpoint of an input plugin on its way to the table and back.
use mathlib.Core.Option.{some-injective}
use mathlib.Core.Path.{subst}
use hindsight.Base.{
  ℕ, zero, suc, ◌+◌, ◌%◌, ◌^◌, ◌≤◌, ◌<◌, ◌≡◌, inl, inr, refl, ap, true, Option, none, some, [], ◌∷◌,
  ◌++◌, arith, leb, ltb, length, take, if-eq, Option-cases, Bool-cases, false, if◌then◌else◌,
  length-append, take_all,
}
use hindsight.CString.{Bytes}
use hindsight.CheckpointReader.{LuaValue, str, num, Table, get, assign, clear}
use hindsight.CheckpointReader.Table.{get-assign, get-clear, str_eq_refl}
use hindsight.IpCheckpoint.{
  Value, unset, numeric, string, IpCheckpoint, init_ip_checkpoint, read_text, store_text,
  load_checkpoint, buffer_of, max_ip_checkpoint, update_checkpoint, success, set_number,
  number_over, lookup_checkpoint, assign_text, stored_value, store_checkpoint,
}

take_front : (xs ys : Bytes) → take (length xs) (xs ++ ys) ≡ xs
take_front [] ys = refl
take_front (x ∷ xs) ys = ap (◌∷◌ x) (take_front xs ys)

few : (n : ℕ) (xs : Bytes) → length (take n xs) ≤ n
few zero xs = omega arith
few (suc n) [] = omega arith
few (suc n) (x ∷ xs) = omega (arith, few n xs)

read_text-few :
    (s : Option Bytes) (len : ℕ) (text : Bytes) → read_text s len ≡ some text → length text ≤ len
unfolding read_text
read_text-few none len text e = elim (if-eq (leb len 0) e) [
  | inl (_, is) ↦ subst (λ (t : Bytes). length t ≤ len) (some-injective _ _ is) (omega arith)
  | inr (_, f) ↦ cc
]
read_text-few (some buffer) len text e = elim (if-eq (leb len (length buffer)) e) [
  | inl (_, is) ↦ subst (λ (t : Bytes). length t ≤ len) (some-injective _ _ is) (few len buffer)
  | inr (_, f) ↦ cc
]

module _ {Number : Type 0} where
  abbrev as_text : Option Bytes → Option (LuaValue Number)
  as_text none = none
  as_text (some text) = some (str text)

  -- What a checkpoint stands for: nothing, a number, or the bytes of a text.
  abbrev pub meaning_of : Value Number → ℕ → Option (LuaValue Number)
  meaning_of unset len = none
  meaning_of (numeric d) len = some (num d)
  meaning_of (string s) len = as_text (read_text s len)

  abbrev pub meaning : IpCheckpoint Number → Option (LuaValue Number)
  meaning cp = meaning_of cp.value cp.len

  -- What can be loaded of it again: there is room for a text and a closing 0.
  abbrev pub loadable : Option (LuaValue Number) → Option (LuaValue Number)
  loadable none = none
  loadable (some (str text)) = if ltb (length text) max_ip_checkpoint then some (str text) else none
  loadable (some v) = some v

  -- A text that is loaded where there was none, of fewer than 8,192 bytes.
  loaded_text :
      (text : Bytes)
      → length text < 8192
      → meaning (load_checkpoint true (some (str text)) init_ip_checkpoint).0 ≡ some (str text)
  unfolding load_checkpoint store_text read_text
  loaded_text text short =
      let size : length (text ++ (0 ∷ [])) ≡ length text + 1 = length-append text (0 ∷ []) in
      let fits : leb (length text + 1) 8192 ≡ true = ground (arith, short) in
      let grows : ltb 0 (length text + 1) ≡ true = ground arith in
      let whole : take (length text + 1) (text ++ (0 ∷ [])) ≡ text ++ (0 ∷ []) =
        take_all (length text + 1) (text ++ (0 ∷ [])) (omega (arith, size)) in
      let len : length text % 2 ^ 32 ≡ length text = omega (arith, short) in
      let there : leb (length text) (length (text ++ (0 ∷ []))) ≡ true = ground (arith, size) in
      rw (fits, grows, whole, len, there)
        (ap (λ (t : Bytes). some (str t)) (take_front text (0 ∷ [])))

  -- A longer text is refused, with its length in front of no bytes.
  refused_text :
      (text : Bytes)
      → 8192 ≤ length text
      → length text < 2 ^ 32
      → meaning (load_checkpoint true (some (str text)) init_ip_checkpoint).0 ≡ none
  unfolding load_checkpoint store_text read_text buffer_of
  refused_text text long small =
      let too_long : leb (length text + 1) 8192 ≡ false = ground (arith, long) in
      let len : length text % 2 ^ 32 ≡ length text = omega (arith, small) in
      let none_there : leb (length text) 0 ≡ false = ground (arith, long) in
      rw (too_long, len, none_there) refl

  text_again :
      (text : Bytes)
      → length text < 2 ^ 32
      → meaning (load_checkpoint true (some (str text)) init_ip_checkpoint).0
        ≡ loadable (some (str text))
  text_again text small = elim (Bool-cases (ltb (length text) 8192)) [
    | inl short ↦ rw (short) (loaded_text text (ground (arith, short)))
    | inr long ↦ rw (long) (refused_text text (ground (arith, long)) small)
  ]

  -- What stands at a key after an assignment.
  assigned :
      (t t' : Table Number) (key : Bytes) (v : LuaValue Number)
      → some (assign key v t) ≡ some t'
      → get key t' ≡ some v
  assigned t t' key v e =
      subst (λ (x : Table Number). get key x ≡ some v) (some-injective _ _ e)
        (rw (get-assign key key v t, str_eq_refl key) refl)

  cleared : (t t' : Table Number) (key : Bytes) → some (clear key t) ≡ some t' → get key t' ≡ none
  cleared t t' key e =
      subst (λ (x : Table Number). get key x ≡ none) (some-injective _ _ e)
        (rw (get-clear key key t, str_eq_refl key) refl)

  stored-loaded :
      (v : Value Number) (len : ℕ) (t t' : Table Number) (key : Bytes)
      → len < 2 ^ 32
      → stored_value v t key len ≡ some t'
      → meaning (load_checkpoint true (get key t') init_ip_checkpoint).0
        ≡ loadable (meaning_of v len)
  unfolding stored_value assign_text load_checkpoint set_number number_over
  stored-loaded unset len t t' key small e = rw (cleared t t' key e) refl
  stored-loaded (numeric d) len t t' key small e = rw (assigned t t' key (num d) e) refl
  stored-loaded (string s) len t t' key small e = elim (Option-cases (read_text s len)) [
    | inl past ↦ let nothing = rw (past) at e in cc
    | inr (text, at) ↦
        let within = read_text-few s len text at in
        rw (at, assigned t t' key (str text) (rw (at) at e))
          (text_again text (omega (arith, within, small)))
  ]

  -- The checkpoint of an input plugin is written to the table: a plugin of that name that looks its
  -- checkpoint up, with memory for it, has then the same number, the same bytes of a text of at most
  -- 8,191 bytes, or again nothing. A text of 8,192 bytes or more cannot be read then.
  pub lookup_checkpoint-store_checkpoint :
      (t t' : Table Number) (key : Bytes) (cp : IpCheckpoint Number)
      → cp.len < 2 ^ 32
      → store_checkpoint t key cp ≡ some t'
      → meaning (lookup_checkpoint true t' key init_ip_checkpoint) ≡ loadable (meaning cp)
  unfolding lookup_checkpoint store_checkpoint
  lookup_checkpoint-store_checkpoint t t' key cp small e =
      stored-loaded cp.value cp.len t t' key small e

  -- A text of 8,191 bytes is accepted, but its closing 0 goes to the table with it, and so it cannot be
  -- read any more after a restart.
  pub accepted-lost :
      (text : Bytes)
      → length text ≡ 8191
      → ((update_checkpoint {Number = Number} true none (some text) init_ip_checkpoint).1 ≡ success)
        × (loadable (
              meaning
                (update_checkpoint {Number = Number} true none (some text) init_ip_checkpoint).0)
            ≡ none)
  unfolding update_checkpoint store_text read_text
  accepted-lost text exact =
      let size : (length text + 1) % 2 ^ 32 ≡ 8192 = omega (arith, exact) in
      let stored : length (text ++ (0 ∷ [])) ≡ 8192 =
        omega (arith, length-append text (0 ∷ []), exact) in
      let whole : take 8192 (text ++ (0 ∷ [])) ≡ text ++ (0 ∷ []) =
        take_all 8192 (text ++ (0 ∷ [])) (omega (arith, stored)) in
      (rw (size) refl, rw (size, whole, stored, whole, stored) refl)
