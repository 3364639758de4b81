-- ===== src/Util/LuaString.antt =====
-- `hs_output_lua_string` of src/hs_util.c, and what a Lua program reads where its output stands
-- between two single quotes.
use mathlib.Core.List.{append_assoc}
use hindsight.Base.{
  ℕ, ◌+◌, ◌≡◌, ◌≢◌, ◌⊎◌, refl, Bool, true, false, Option, some, [], ◌∷◌, ◌++◌, arith, ◌==◌,
  if◌then◌else◌, All,
}
use hindsight.CString.{Bytes}

-- What the loop writes for one byte.
pub escape_byte : ℕ → Bytes
escape_byte c =
    if c == b'\n'
    then b'\\' ∷ b'n' ∷ []
    else if c == b'\r'
    then b'\\' ∷ b'r' ∷ []
    else if c == b'"'
    then b'\\' ∷ b'"' ∷ []
    else if c == b'\\'
    then b'\\' ∷ b'\\' ∷ []
    else c ∷ []

-- The text that is meant to be written.
unfoldable pub escaped : Bytes → Bytes
unfolding escape_byte
escaped [] = []
escaped (c ∷ s) = escape_byte c ++ escaped s

-- The loop from byte `i` on; `accepts i` tells whether the write for byte `i` succeeds. It gives what
-- reaches the file, and whether `rv` is still 1. The write of a backslash does not set `rv`.
lua_string_loop : (ℕ → Bool) → ℕ → Bytes → Bytes × Bool
unfolding escape_byte
lua_string_loop accepts i [] = ([], true)
lua_string_loop accepts i (c ∷ s) =
    let rest = lua_string_loop accepts (i + 1) s in
    let written = if accepts i then escape_byte c else [] in
    if c == b'\\'
    then (written ++ rest.0, rest.1)
    else if accepts i
    then (written ++ rest.0, rest.1)
    else ([], false)

-- `hs_output_lua_string`; `true` is its result 0
unfoldable pub output_lua_string : (ℕ → Bool) → Bytes → Bytes × Bool
unfolding lua_string_loop
output_lua_string accepts s = lua_string_loop accepts 0 s

lua_string_loop_writes :
    (accepts : ℕ → Bool) (i : ℕ) (s : Bytes)
    → ((k : ℕ) → accepts k ≡ true)
    → lua_string_loop accepts i s ≡ (escaped s, true)
unfolding lua_string_loop escaped
lua_string_loop_writes accepts i [] all = refl
lua_string_loop_writes accepts i (c ∷ s) all =
    ground (arith, all i, lua_string_loop_writes accepts (i + 1) s all)

pub output_lua_string-escaped :
    (accepts : ℕ → Bool) (s : Bytes)
    → ((k : ℕ) → accepts k ≡ true)
    → output_lua_string accepts s ≡ (escaped s, true)
unfolding output_lua_string
output_lua_string-escaped accepts s = lua_string_loop_writes accepts 0 s

lua_string_loop_complete :
    (accepts : ℕ → Bool) (i : ℕ) (s : Bytes)
    → All (λ c. (c == b'\\') ≡ false) s
    → (lua_string_loop accepts i s).1 ≡ true
    → (lua_string_loop accepts i s).0 ≡ escaped s
unfolding lua_string_loop escaped
lua_string_loop_complete accepts i [] h e = refl
lua_string_loop_complete accepts i (c ∷ s) h e =
    ground (arith, h.0, lua_string_loop_complete accepts (i + 1) s h.1)

-- Of a text without a backslash, success means that all of it was written.
pub output_lua_string_complete :
    (accepts : ℕ → Bool) (s : Bytes)
    → All (λ c. (c == b'\\') ≡ false) s
    → (output_lua_string accepts s).1 ≡ true
    → (output_lua_string accepts s).0 ≡ escaped s
unfolding output_lua_string
output_lua_string_complete accepts s = lua_string_loop_complete accepts 0 s

lua_string_loop_backslashes :
    (i : ℕ) (s : Bytes) → All (λ c. c ≡ b'\\') s → lua_string_loop (λ _. false) i s ≡ ([], true)
unfolding lua_string_loop
lua_string_loop_backslashes i [] h = refl
lua_string_loop_backslashes i (c ∷ s) h =
    ground (arith, h.0, lua_string_loop_backslashes (i + 1) s h.1)

-- A text of backslashes is reported as written though every write of it fails.
pub output_lua_string_backslashes :
    (s : Bytes) → All (λ c. c ≡ b'\\') s → output_lua_string (λ _. false) s ≡ ([], true)
unfolding output_lua_string
output_lua_string_backslashes = lua_string_loop_backslashes 0

-- Lua's reader of the rest of a string in single quotes, up to and without the closing quote: the
-- text, and what follows the quote. The laws are those of the Lua 5.1 manual, section 2.1.
pub record LuaReader : Type 0 where
  pub read : Bytes → Option (Bytes × Bytes)
  pub close : (s : Bytes) → read (b'\'' ∷ s) ≡ some ([], s)
  pub plain :
      (c : ℕ) (s a b : Bytes)
      → c ≢ b'\''
      → c ≢ b'\\'
      → c ≢ b'\n'
      → c ≢ b'\r'
      → read s ≡ some (a, b)
      → read (c ∷ s) ≡ some (c ∷ a, b)
  pub newline :
      (s a b : Bytes) → read s ≡ some (a, b) → read (b'\\' ∷ b'n' ∷ s) ≡ some (b'\n' ∷ a, b)
  pub carriage :
      (s a b : Bytes) → read s ≡ some (a, b) → read (b'\\' ∷ b'r' ∷ s) ≡ some (b'\r' ∷ a, b)
  pub same :
      (c : ℕ) (s a b : Bytes)
      → (c ≡ b'"') ⊎ (c ≡ b'\\')
      → read s ≡ some (a, b)
      → read (b'\\' ∷ c ∷ s) ≡ some (c ∷ a, b)

abbrev pub NoQuote : Bytes → Type 0
NoQuote s = All (λ c. (c == b'\'') ≡ false) s

module _ (lua : LuaReader) where
  read-escape_byte :
      (c : ℕ) (s a b : Bytes)
      → (c == b'\'') ≡ false
      → lua.read s ≡ some (a, b)
      → lua.read (escape_byte c ++ s) ≡ some (c ∷ a, b)
  unfolding escape_byte
  read-escape_byte c s a b q h =
      ground (arith, lua.newline s a b, lua.carriage s a b, lua.same c s a b, lua.plain c s a b)

  -- Lua reads a string without single quotes back as it was, and stops at the closing quote.
  pub read-escaped :
      (s rest : Bytes) → NoQuote s → lua.read (escaped s ++ (b'\'' ∷ rest)) ≡ some (s, rest)
  unfolding escaped
  read-escaped [] rest h = lua.close rest
  read-escaped (c ∷ s) rest h =
      rw append_assoc
        (read-escape_byte c (escaped s ++ (b'\'' ∷ rest)) s rest h.0 (read-escaped s rest h.1))

  -- A single quote is written as it is, so the string that Lua reads ends in front of it.
  pub read-escaped_quote :
      (a b rest : Bytes)
      → NoQuote a
      → lua.read (escaped (a ++ (b'\'' ∷ b)) ++ (b'\'' ∷ rest))
        ≡ some (a, escaped b ++ (b'\'' ∷ rest))
  unfolding escaped escape_byte
  read-escaped_quote [] b rest h = lua.close _
  read-escaped_quote (c ∷ a) b rest h = rw append_assoc (
      read-escape_byte c (escaped (a ++ (b'\'' ∷ b)) ++ (b'\'' ∷ rest)) a _ h.0
        (read-escaped_quote a b rest h.1))
