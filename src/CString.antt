-- ===== src/CString.antt =====
-- The C library's functions on strings, as far as the program uses them. A `char *` is the list of
-- its bytes, without the closing 0.
pub mod Decimal
pub mod Search
use Prim.Native.Char.{code}
use hindsight.Base.{
  ℕ, zero, suc, ◌+◌, ◌-◌, ◌*◌, ◌%◌, ◌^◌, String, ◌≡◌, ◌↔◌, Bool, true, false, ◌&&◌, ◌||◌, Option,
  none, some, List, [], ◌∷◌, arith, leb, ltb, ◌==◌, if◌then◌else◌, take,
}

abbrev pub Bytes : Type 0
Bytes = List ℕ

-- The bytes of an ASCII literal.
abbrev pub codes : String → Bytes
codes String.[] = []
codes (String.◌∷◌ c s) = code c ∷ codes s

-- `strcmp(a, b) == 0`
unfoldable pub str_eq : Bytes → Bytes → Bool
str_eq [] [] = true
str_eq (x ∷ a) (y ∷ b) = x == y && str_eq a b
str_eq _ _ = false

pub str_eq_iff : (a b : Bytes) → (str_eq a b ≡ true) ↔ (a ≡ b)
unfolding str_eq
str_eq_iff (x ∷ a) (y ∷ b) = ground (arith, str_eq_iff a b)
str_eq_iff _ _ = ground arith

-- `strncmp(a, b, n) == 0`
unfoldable pub strn_eq : ℕ → Bytes → Bytes → Bool
unfolding str_eq
strn_eq n a b = str_eq (take n a) (take n b)

abbrev pub is_digit : ℕ → Bool
is_digit c = leb b'0' c && leb c b'9'

abbrev pub is_space : ℕ → Bool
is_space c = c == b' ' || (leb 9 c && leb c 13)

abbrev pub ullong_max : ℕ
ullong_max = 2 ^ 64 - 1

-- The number that the digits in front stand for, behind those that were read before.
unfoldable pub read_digits : ℕ → Bytes → ℕ
read_digits acc [] = acc
read_digits acc (c ∷ s) = if is_digit c then read_digits (acc * 10 + (c - b'0')) s else acc

unfoldable pub magnitude : Bool → Bytes → ℕ
magnitude negative s =
    let v = read_digits 0 s in
    if ltb ullong_max v then ullong_max else if negative then (2 ^ 64 - v) % 2 ^ 64 else v

unfoldable pub signed : Bytes → ℕ
signed [] = 0
signed (c ∷ s) =
    if c == b'-'
    then magnitude true s
    else if c == b'+'
    then magnitude false s
    else magnitude false (c ∷ s)

-- `strtoull(s, NULL, 10)`: white space, a sign, digits; a value that does not fit is the maximum.
unfoldable pub strtoull : Bytes → ℕ
unfolding read_digits magnitude signed
strtoull [] = 0
strtoull (c ∷ s) = if is_space c then strtoull s else signed (c ∷ s)

-- `strchr(s, c)`: what stands from the first `c` on.
unfoldable pub strchr : Bytes → ℕ → Option Bytes
strchr [] c = none
strchr (x ∷ s) c = if x == c then some (x ∷ s) else strchr s c

unfoldable pub is_prefix : Bytes → Bytes → Bool
is_prefix [] s = true
is_prefix (p ∷ ps) [] = false
is_prefix (p ∷ ps) (x ∷ s) = p == x && is_prefix ps s

-- `strstr(s, p)`: what stands from the first place on where `p` begins.
unfoldable pub strstr : Bytes → Bytes → Option Bytes
unfolding is_prefix
strstr [] p = if is_prefix p [] then some [] else none
strstr (x ∷ s) p = if is_prefix p (x ∷ s) then some (x ∷ s) else strstr s p
