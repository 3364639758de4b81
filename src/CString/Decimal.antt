-- ===== src/CString/Decimal.antt =====
-- Decimal output (`%llu`), and that `strtoull` reads it back.
use mathlib.Core.WellFounded.{Acc}
use mathlib.Core.List.{append_assoc, concat-ne-nil}
use native.Mathlib.Bridge.{le_prop}
use hindsight.Base.{
  ℕ, ◌+◌, ◌-◌, ◌*◌, ◌/◌, ◌%◌, ◌≤◌, ◌<◌, ◌≡◌, ◌≢◌, refl, ◌∙◌, ap, true, false, [], ◌∷◌, ◌++◌, arith,
  dite, dif_pos, dif_neg, dec_lt, lt_wf, if◌then◌else◌, if◌then◌else◌, ltb, All, All-append,
}
use hindsight.CString.{Bytes, codes, is_digit, ullong_max, read_digits, strtoull}

pub tenth_lt : {n : ℕ} → 9 < n → n / 10 < n
tenth_lt h = omega arith

decimal_acc : (n : ℕ) → Acc ◌<◌ n → Bytes
decimal_acc n (Acc.intro _ smaller) =
    dite (dec_lt 9 n)
      (λ h. decimal_acc (n / 10) (smaller (n / 10) (tenth_lt h)) ++ ((b'0' + n % 10) ∷ []))
      (λ _. (b'0' + n) ∷ [])

-- `printf("%llu", n)`
unfoldable pub decimal : ℕ → Bytes
unfolding decimal_acc lt_wf dec_lt
decimal n = decimal_acc n (lt_wf.apply n)

decimal-example : decimal 1024 ≡ codes "1024"
unfolding decimal
decimal-example = refl

abbrev pub Digits : Bytes → Type 0
Digits s = All (λ c. is_digit c ≡ true) s

-- The rest does not go on with a digit.
abbrev pub Stops : Bytes → Type 0
Stops [] = Unit {0}
Stops (c ∷ s) = is_digit c ≡ false

pub read_digits_same : (n : ℕ) (rest : Bytes) → Stops rest → read_digits n rest ≡ n
unfolding read_digits
read_digits_same n [] h = refl
read_digits_same n (c ∷ s) h = ground arith

read_digits_step :
    (n : ℕ) (rest : Bytes) → read_digits (n / 10) ((b'0' + n % 10) ∷ rest) ≡ read_digits n rest
unfolding read_digits
read_digits_step n rest =
    let e : n / 10 * 10 + (b'0' + n % 10 - b'0') ≡ n = omega arith in
    ground (arith, ap (λ (t : ℕ). read_digits t rest) e)

read_digits_last :
    (n : ℕ) (rest : Bytes) → n ≤ 9 → read_digits 0 ((b'0' + n) ∷ rest) ≡ read_digits n rest
unfolding read_digits
read_digits_last n rest h =
    let e : 0 * 10 + (b'0' + n - b'0') ≡ n = omega arith in
    ground (arith, ap (λ (t : ℕ). read_digits t rest) e)

read_digits_acc :
    (n : ℕ) (w : Acc ◌<◌ n) (rest : Bytes)
    → read_digits 0 (decimal_acc n w ++ rest) ≡ read_digits n rest
unfolding decimal_acc
read_digits_acc n (Acc.intro _ smaller) rest = elim (dec_lt 9 n) [
  | yes h ↦
      rw (dif_pos _ le_prop h _ _, append_assoc)
        (read_digits_acc (n / 10) (smaller (n / 10) (tenth_lt h)) ((b'0' + n % 10) ∷ rest)
          ∙ read_digits_step n rest)
  | no h ↦ rw (dif_neg _ h _ _) (read_digits_last n rest (omega arith))
]

decimal_acc-Digits : (n : ℕ) (w : Acc ◌<◌ n) → Digits (decimal_acc n w)
unfolding decimal_acc
decimal_acc-Digits n (Acc.intro _ smaller) = elim (dec_lt 9 n) [
  | yes h ↦
      let w = smaller (n / 10) (tenth_lt h) in
      rw (dif_pos _ le_prop h _ _) (
        All-append (λ c. is_digit c ≡ true) (decimal_acc (n / 10) w) ((b'0' + n % 10) ∷ [])
          (decimal_acc-Digits (n / 10) (smaller (n / 10) (tenth_lt h))) (ground arith, tt))
  | no h ↦ rw (dif_neg _ h _ _) (ground arith, tt)
]

pub decimal-Digits : (n : ℕ) → Digits (decimal n)
unfolding decimal
decimal-Digits n = decimal_acc-Digits n (lt_wf.apply n)

pub read_digits-decimal :
    (n : ℕ) (rest : Bytes) → Stops rest → read_digits 0 (decimal n ++ rest) ≡ n
unfolding decimal
read_digits-decimal n rest h = read_digits_acc n (lt_wf.apply n) rest ∙ read_digits_same n rest h

decimal_acc-ne-nil : (n : ℕ) (w : Acc ◌<◌ n) → decimal_acc n w ≢ []
unfolding decimal_acc
decimal_acc-ne-nil n (Acc.intro _ smaller) = elim (dec_lt 9 n) [
  | yes h ↦ rw (dif_pos _ le_prop h _ _) (concat-ne-nil _ _)
  | no h ↦ rw (dif_neg _ h _ _) (λ e. cc)
]

pub decimal-ne-nil : (n : ℕ) → decimal n ≢ []
unfolding decimal
decimal-ne-nil n = decimal_acc-ne-nil n (lt_wf.apply n)

-- Text that begins with a digit is read from there; what does not fit gives the maximum.
pub strtoull-Digits :
    (s rest : Bytes)
    → s ≢ []
    → Digits s
    → strtoull (s ++ rest) ≡ (
        if ltb ullong_max (read_digits 0 (s ++ rest))
        then ullong_max
        else read_digits 0 (s ++ rest))
strtoull-Digits [] rest ne d = absurd (ne refl)
strtoull-Digits (c ∷ s) rest ne d = unfold strtoull in ground (arith, d.0)

pub read_digits-Stops :
    (acc : ℕ) (d rest : Bytes)
    → Digits d
    → Stops rest
    → read_digits acc (d ++ rest) ≡ read_digits acc d
unfolding read_digits
read_digits-Stops acc [] [] h stop = refl
read_digits-Stops acc [] (c ∷ rest) h stop = ground arith
read_digits-Stops acc (c ∷ d) rest h stop =
    ground (arith, h.0, read_digits-Stops (acc * 10 + (c - b'0')) d rest h.1 stop)

-- What `%llu` printed is read back, whatever other text follows.
pub strtoull-decimal :
    (n : ℕ) (rest : Bytes) → n ≤ ullong_max → Stops rest → strtoull (decimal n ++ rest) ≡ n
strtoull-decimal n rest h stop = ground (
  arith,
  strtoull-Digits (decimal n) rest (decimal-ne-nil n) (decimal-Digits n),
  read_digits-decimal n rest stop,
)
