-- ===== src/QueueFile/Naming.antt =====
-- Which file names are queue files, and the numbers that they stand for.
use hindsight.Base.{
  Bool-cases, inl, inr, ℕ, suc, ◌+◌, ◌≤◌, ◌≡◌, ◌≢◌, refl, sym, ap, ◌∙◌, true, false, some, [], ◌∷◌,
  ◌++◌, arith, length, take, drop, length-append, drop-append, take_all, take-append-drop,
  take-ne-nil, length-drop, length-pos, if◌then◌else◌, ◌<◌, ltb,
}
use hindsight.CString.{Bytes, is_digit, ullong_max, str_eq_iff, strtoull, read_digits}
use hindsight.CString.Decimal.{
  decimal, Digits, decimal-Digits, decimal-ne-nil, strtoull-decimal, strtoull-Digits,
  read_digits-Stops,
}
use hindsight.QueueFile.{digit_run, log_ext, extract_id}

digit_run-append : (d : Bytes) → Digits d → digit_run (d ++ log_ext) ≡ length d
unfolding digit_run
digit_run-append [] h = refl
digit_run-append (c ∷ d) h = ground (arith, h.0, digit_run-append d h.1)

extract_id-Digits :
    (d : Bytes) → Digits d → d ≢ [] → extract_id (d ++ log_ext) ≡ some (strtoull (d ++ log_ext))
unfolding extract_id
extract_id-Digits d h ne =
    rw (digit_run-append d h, drop-append)
      (ground (arith, length-append d log_ext, length-pos d ne))

-- The name of the queue file `id`, as `hs_open_file` and `hs_open_output_file` print it.
unfoldable pub log_name : ℕ → Bytes
log_name id = decimal id ++ log_ext

-- The number of a queue file is read back from its name.
pub extract_id-log_name : (id : ℕ) → id ≤ ullong_max → extract_id (log_name id) ≡ some id
unfolding log_name
extract_id-log_name id h =
    extract_id-Digits (decimal id) (decimal-Digits id) (decimal-ne-nil id)
    ∙ ap some (strtoull-decimal id log_ext h refl)

digit_run-cons : (c : ℕ) (s : Bytes) → is_digit c ≡ true → digit_run (c ∷ s) ≡ suc (digit_run s)
unfolding digit_run
digit_run-cons c s h = ground arith

digit_run-cons_zero : (c : ℕ) (s : Bytes) → is_digit c ≡ false → digit_run (c ∷ s) ≡ 0
unfolding digit_run
digit_run-cons_zero c s h = ground arith

digit_run-Digits : (s : Bytes) → Digits (take (digit_run s) s)
digit_run-Digits [] = unfold digit_run in tt
digit_run-Digits (c ∷ s) = elim (Bool-cases (is_digit c)) [
  | inl more ↦ rw (digit_run-cons c s more) (more, digit_run-Digits s)
  | inr stop ↦ rw (digit_run-cons_zero c s stop) tt
]

-- `fn` is the number `id` in decimal digits, with the extension behind.
pub record IsQueueFile (fn : Bytes) (id : ℕ) : Type 0 where
  pub digits : Bytes
  pub joined : fn ≡ digits ++ log_ext
  pub only_digits : Digits digits
  pub digits-ne-nil : digits ≢ []
  pub value :
      id ≡ (if ltb ullong_max (read_digits 0 digits) then ullong_max else read_digits 0 digits)

split_name :
    (fn : Bytes) (id : ℕ)
    → extract_id fn ≡ some id
    → (0 < digit_run fn)
      × (digit_run fn + 4 ≡ length fn)
      × (take 4 (drop (digit_run fn) fn) ≡ log_ext)
      × (id ≡ strtoull fn)
unfolding extract_id
split_name fn id h = ground (arith, str_eq_iff (take 4 (drop (digit_run fn) fn)) log_ext)

-- Only such names are taken for queue files, whatever else stands in the directory.
pub extract_id-IsQueueFile : (fn : Bytes) (id : ℕ) → extract_id fn ≡ some id → IsQueueFile fn id
extract_id-IsQueueFile fn id h =
    let (pos, len, ext, value) = split_name fn id h in
    let i = digit_run fn in
    let rest : drop i fn ≡ log_ext =
      sym (take_all 4 (drop i fn) (omega (arith, length-drop i fn))) ∙ ext in
    let joined : fn ≡ take i fn ++ log_ext =
      sym (take-append-drop i fn) ∙ ap (λ s. take i fn ++ s) rest in
    let ne : take i fn ≢ [] = take-ne-nil i fn pos (omega arith) in
    let only : Digits (take i fn) = digit_run-Digits fn in
    record {
      digits = take i fn;
      joined = joined;
      only_digits = only;
      digits-ne-nil = ne;
      value =
          value
          ∙ ap strtoull joined
          ∙ strtoull-Digits (take i fn) log_ext ne only
          ∙ rw (read_digits-Stops 0 (take i fn) log_ext only refl);
    }
