-- ===== src/Tests/Files.antt =====
-- File names, Lua strings and the searches of a queue's directory.
use hindsight.Base.{
  ℕ, ◌≡◌, ◌≢◌, ◌⊎◌, refl, true, false, Option, none, some, List, [], ◌∷◌, ◌++◌, arith, ◌==◌,
  if◌then◌else◌,
}
use hindsight.Base.Run.{ok}
use hindsight.CString.{Bytes, codes, strtoull}
use hindsight.CString.Decimal.{decimal, strtoull-decimal}
use hindsight.Disk.{Disk}
use hindsight.Util.LuaString.{escaped, LuaReader, read-escaped_quote}
use hindsight.QueueFile.{extract_id, digit_run, find_next_id, find_last_id}
use hindsight.QueueFile.Naming.{log_name, extract_id-log_name}

strtoull-decimal_example : strtoull (decimal 17 ++ codes ":20") ≡ 17
strtoull-decimal_example = strtoull-decimal 17 (codes ":20") (omega arith) refl

log_name_five : extract_id (codes "5.log") ≡ some 5
unfolding extract_id digit_run strtoull
log_name_five = refl

not_queue_files :
    (extract_id (codes "5.lo") ≡ none)
    × (extract_id (codes "a5.log") ≡ none)
    × (extract_id (codes ".log") ≡ none)
unfolding extract_id digit_run strtoull
not_queue_files = (refl, refl, refl)

extract_id-log_name_example : extract_id (log_name 7) ≡ some 7
extract_id-log_name_example = extract_id-log_name 7 (omega arith)

abbrev names : List Bytes
names = codes "." ∷ codes "7.log" ∷ codes "5.log" ∷ codes "x.log" ∷ codes "9.log" ∷ []

-- Every directory holds the same files.
abbrev disk : Disk
disk = record {
  content = λ _. none;
  entries = λ _. some names;
  refuses = λ _. false;
  free_bytes = λ _. some 1000;
}

next_of_five : find_next_id disk (codes "out") (codes "input") 5 ≡ ok 7
unfolding find_next_id extract_id digit_run strtoull
next_of_five = refl

last_is_nine : find_last_id disk (codes "out/input") ≡ 9
unfolding find_last_id extract_id digit_run strtoull
last_is_nine = refl

-- A reader of Lua strings that knows the escapes of the laws.
cons : ℕ → Option (Bytes × Bytes) → Option (Bytes × Bytes)
cons c none = none
cons c (some (a, b)) = some (c ∷ a, b)

read_lua : Bytes → Option (Bytes × Bytes)
read_lua [] = none
read_lua (c ∷ []) = if c == b'\'' then some ([], []) else none
read_lua (c ∷ d ∷ s) = elim (c == b'\'') [
  | true ↦ some ([], d ∷ s)
  | false ↦ elim (c == b'\\') [
    | true ↦ cons (if d == b'n' then b'\n' else if d == b'r' then b'\r' else d) (read_lua s)
    | false ↦ cons c (read_lua (d ∷ s))
  ]
]

read_lua-close : (s : Bytes) → read_lua (b'\'' ∷ s) ≡ some ([], s)
unfolding read_lua
read_lua-close [] = refl
read_lua-close (d ∷ s) = refl

read_lua-plain :
    (c : ℕ) (s a b : Bytes)
    → c ≢ b'\''
    → c ≢ b'\\'
    → c ≢ b'\n'
    → c ≢ b'\r'
    → read_lua s ≡ some (a, b)
    → read_lua (c ∷ s) ≡ some (c ∷ a, b)
unfolding read_lua cons
read_lua-plain c [] a b h1 h2 h3 h4 h = cc
read_lua-plain c (d ∷ s) a b h1 h2 h3 h4 h = ground arith

read_lua-newline :
    (s a b : Bytes) → read_lua s ≡ some (a, b) → read_lua (b'\\' ∷ b'n' ∷ s) ≡ some (b'\n' ∷ a, b)
unfolding read_lua cons
read_lua-newline s a b h = ground arith

read_lua-carriage :
    (s a b : Bytes) → read_lua s ≡ some (a, b) → read_lua (b'\\' ∷ b'r' ∷ s) ≡ some (b'\r' ∷ a, b)
unfolding read_lua cons
read_lua-carriage s a b h = ground arith

read_lua-same :
    (c : ℕ) (s a b : Bytes)
    → (c ≡ b'"') ⊎ (c ≡ b'\\')
    → read_lua s ≡ some (a, b)
    → read_lua (b'\\' ∷ c ∷ s) ≡ some (c ∷ a, b)
unfolding read_lua cons
read_lua-same c s a b e h = ground arith

abbrev lua : LuaReader
lua = record {
  read = read_lua;
  close = read_lua-close;
  plain = read_lua-plain;
  newline = read_lua-newline;
  carriage = read_lua-carriage;
  same = read_lua-same;
}

read-escaped_quote_example :
    read_lua (escaped (codes "it's") ++ codes "'")
    ≡ some (codes "it", escaped (codes "s") ++ codes "'")
read-escaped_quote_example = read-escaped_quote lua (codes "it") (codes "s") [] (refl, (refl, tt))
