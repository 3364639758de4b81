-- ===== src/QueueReader/Opening.antt =====
-- What it means for a reader that another file is opened.
use mathlib.Core.Path.{subst}
use hindsight.Base.{
  ℕ, ◌≤◌, ◌≡◌, ◌≢◌, ◌⊎◌, inl, inr, refl, sym, ap, ◌∙◌, Bool, true, false, Option, none, some, List,
  [], ◌∷◌, ◌++◌, arith, ◌==◌, length, drop, drop-append, Bool-cases,
}
use hindsight.Base.Run.{ok, ok-injective}
use hindsight.CString.{Bytes, ullong_max, str_eq, str_eq_iff, strtoull, magnitude, signed}
use hindsight.Disk.{Disk}
use hindsight.Util.Name.{fits-eq}
use hindsight.Util.{max_path}
use hindsight.QueueFile.{extract_id}
use hindsight.QueueFile.Search.{Listed}
use hindsight.QueueFile.Naming.{log_name, extract_id-log_name}
use hindsight.Input.{Handle, Input, is_open_name, opened, open_named, open_fitting, open_file}
use hindsight.QueueReader.{Queue}
use hindsight.QueueReader.Stream.{file_name}

append_cancel_left : (a s t : Bytes) → a ++ s ≡ a ++ t → s ≡ t
append_cancel_left a s t e = sym (drop-append a s) ∙ ap (drop (length a)) e ∙ drop-append a t

log_name-injective : (m n : ℕ) → m ≤ ullong_max → n ≤ ullong_max → log_name m ≡ log_name n → m ≡ n
log_name-injective m n hm hn e =
    cc (sym (extract_id-log_name m hm) ∙ ap extract_id e ∙ extract_id-log_name n hn)

pub file_name-ne :
    (path subdir : Bytes) (m n : ℕ)
    → m ≤ ullong_max
    → n ≤ ullong_max
    → m ≢ n
    → str_eq (file_name path subdir m) (file_name path subdir n) ≡ false
file_name-ne path subdir m n hm hn ne =
    elim (Bool-cases (str_eq (file_name path subdir m) (file_name path subdir n))) [
      | inl same ↦
          let whole = (str_eq_iff (file_name path subdir m) (file_name path subdir n)).0 same in
          let behind_path =
            append_cancel_left path (b'/' ∷ (subdir ++ (b'/' ∷ log_name m)))
              (b'/' ∷ (subdir ++ (b'/' ∷ log_name n))) whole in
          let behind_dir =
            append_cancel_left subdir (b'/' ∷ log_name m) (b'/' ∷ log_name n)
              (ap (drop 1) behind_path) in
          absurd (ne (log_name-injective m n hm hn (ap (drop 1) behind_dir)))
      | inr apart ↦ apart
    ]

strtoull-le : (s : Bytes) → strtoull s ≤ ullong_max
unfolding strtoull magnitude signed
strtoull-le [] = omega arith
strtoull-le (c ∷ s) = ground (arith, strtoull-le s)

pub Listed-le : (id : ℕ) (es : List Bytes) → Listed id es → id ≤ ullong_max
unfolding extract_id
Listed-le id [] h = absurd h
Listed-le id (e ∷ es) (inl h) = ground (arith, strtoull-le e)
Listed-le id (e ∷ es) (inr h) = Listed-le id es h

-- The place that is read is that of the checkpoint, in the file with its number.
pub record IsPlaced (q : Queue) (input : Input) (fh : Handle) : Type 0 where
  pub handle : input.fh ≡ some fh
  pub name : input.fn ≡ some fh.file
  pub file : fh.file ≡ file_name q.path q.subdir input.cp.id
  pub place : fh.position ≡ input.cp.offset
  pub path : input.path ≡ q.path
  pub range : input.cp.id ≤ ullong_max

-- Another file was opened, from its beginning.
pub record IsOpened (d : Disk) (q : Queue) (id : ℕ) (old new : Input) (fh : Handle) : Type 0 where
  pub placed : IsPlaced q new fh
  pub begins : fh.position ≡ 0
  pub number : new.cp.id ≡ id
  pub buffer : new.ib ≡ old.ib
  pub there : d.content (file_name q.path q.subdir id) ≢ none

opened-IsOpened :
    (d : Disk) (q : Queue) (hsi : Input) (fh : Handle) (id : ℕ)
    → IsPlaced q hsi fh
    → hsi.cp.id ≢ id
    → id ≤ ullong_max
    → d.content (file_name q.path q.subdir id) ≢ none
    → IsOpened d q id hsi
        (opened hsi (file_name q.path q.subdir id) id)
        (record { file = file_name q.path q.subdir id; position = 0 })
unfolding opened
opened-IsOpened d q hsi fh id placed other range there =
    let differs : (hsi.cp.id == id) ≡ false = ground arith in
    rw (differs) (record {
      placed = record {
        handle = refl;
        name = refl;
        file = refl;
        place = refl;
        path = placed.path;
        range = range;
      };
      begins = refl;
      number = refl;
      buffer = refl;
      there = there;
    })

-- The two results of opening another file: it is not there, and nothing changes; or it is read from
-- its beginning.
abbrev pub Outcome : Disk → Queue → ℕ → Input → Input → Bool → Type 0
Outcome d q id old new success =
    ((success ≡ false) × (new ≡ old) × (d.content (file_name q.path q.subdir id) ≡ none))
    ⊎ ((success ≡ true) × ((fh : Handle) × IsOpened d q id old new fh))

open_named-Outcome :
    (d : Disk) (q : Queue) (hsi : Input) (fh : Handle) (id : ℕ) (content : Option Bytes)
    → IsPlaced q hsi fh
    → hsi.cp.id ≢ id
    → id ≤ ullong_max
    → d.content (file_name q.path q.subdir id) ≡ content
    → let (new, success) = open_named content hsi (file_name q.path q.subdir id) id in
      Outcome d q id hsi new success
unfolding open_named
open_named-Outcome d q hsi fh id none placed other range e = inl (refl, refl, e)
open_named-Outcome d q hsi fh id (some c) placed other range e = inr (
  refl,
  (
    record { file = file_name q.path q.subdir id; position = 0 },
    opened-IsOpened d q hsi fh id placed other range (rw (e) (λ f. cc)),
  ),
)

open_fitting-Outcome :
    (d : Disk) (q : Queue) (hsi new : Input) (fh : Handle) (id : ℕ) (success : Bool)
    (fitting : Option Bytes)
    → IsPlaced q hsi fh
    → hsi.cp.id ≢ id
    → id ≤ ullong_max
    → ((u : Bytes) → fitting ≡ some u → u ≡ file_name q.path q.subdir id)
    → open_fitting d hsi id fitting ≡ ok (new, success)
    → Outcome d q id hsi new success
unfolding open_fitting is_open_name
open_fitting-Outcome d q hsi new fh id success none placed other range named e = cc
open_fitting-Outcome d q hsi new fh id success (some u) placed other range named e =
    let text = named u refl in
    let apart : str_eq (file_name q.path q.subdir hsi.cp.id) (file_name q.path q.subdir id)
        ≡ false =
      file_name-ne q.path q.subdir hsi.cp.id id placed.range range other in
    let differs : is_open_name hsi.fn (file_name q.path q.subdir id) ≡ false =
      rw (placed.name, placed.file) apart in
    let result = ok-injective (rw (text, differs) at e) in
    subst (λ (r : Input × Bool). Outcome d q id hsi r.0 r.1) result
      (open_named-Outcome d q hsi fh id (d.content (file_name q.path q.subdir id)) placed other
        range refl)

pub open_file-Outcome :
    (d : Disk) (q : Queue) (hsi new : Input) (fh : Handle) (id : ℕ) (success : Bool)
    → IsPlaced q hsi fh
    → hsi.cp.id ≢ id
    → id ≤ ullong_max
    → open_file d hsi q.subdir id ≡ ok (new, success)
    → Outcome d q id hsi new success
unfolding open_file
open_file-Outcome d q hsi new fh id success placed other range e =
    open_fitting-Outcome d q hsi new fh id success _ placed other range
      (λ u h. fits-eq max_path _ u h ∙ ap (λ (p : Bytes). file_name p q.subdir id) placed.path) e
