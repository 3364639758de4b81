-- ===== src/Config/LoadDirectory/Moved.antt =====
-- What a file in the load directory leads to.
use hindsight.Base.{
  suc, ◌+◌, ◌-◌, ◌<◌, ◌≡◌, ◌≢◌, ◌⊎◌, inl, inr, refl, sym, ap, ◌∙◌, Bool, true, false, not, ◌&&◌,
  none, some, ◌∷◌, ◌++◌, arith, leb, length, take, drop, length-append, drop-append, Bool-cases,
  Option-cases,
}
use hindsight.Base.Run.{ok}
use hindsight.CString.{Bytes, str_eq, str_eq_iff}
use hindsight.Disk.{Disk, exists, unlink, rename}
use hindsight.Util.{max_path, get_fqfn, has_ext, file_exists, cfg_ext, off_ext, err_ext}
use hindsight.Input.Place.{drop_add}
use hindsight.Util.Name.{fits-eq}
use hindsight.Config.LoadDirectory.{
  Loaded, not_loaded, started, with_ext, clear_flag, moved, if_gone, move_cfg, load_cfg,
  process_load_cfg,
}

differ : {a b : Bytes} → a ≢ b → str_eq a b ≡ false
differ {a} {b} ne = elim (Bool-cases (str_eq a b)) [
  | inl same ↦ absurd (ne ((str_eq_iff a b).0 same))
  | inr apart ↦ apart
]

-- A flag after it was to be cleared: no other file changes, and it is gone where that succeeds.
Cleared : Disk → Bytes → Disk × Bool → Type 0
Cleared d fn (d', gone) =
    ((p : Bytes) → str_eq fn p ≡ false → d'.content p ≡ d.content p)
    × (gone ≡ true → d'.content fn ≡ none)

clear_flag-Cleared : (d : Disk) (fn : Bytes) → Cleared d fn (clear_flag d fn)
unfolding clear_flag unlink file_exists Cleared
clear_flag-Cleared d fn = elim (Option-cases (d.content fn)) [
  | inl gone ↦ rw (gone) (λ p _. refl, λ _. gone)
  | inr (c, there) ↦ elim (Bool-cases (d.refuses fn)) [
    | inl refused ↦ rw (there, refused) (λ p _. refl, λ f. cc)
    | inr deleted ↦
        rw (there, deleted) (λ p apart. rw (apart) refl, λ _. rw ((str_eq_iff fn fn).1 refl) refl)
  ]
]

-- The two outcomes of a rename.
Renamed : Disk → Bytes → Bytes → Disk × Bool → Type 0
Renamed d a b (d', success) =
    ((success ≡ true)
      × (d.content a ≢ none)
      × (d'.content b ≡ d.content a)
      × (str_eq b a ≡ false → d'.content a ≡ none)
      × ((p : Bytes) → str_eq a p ≡ false → str_eq b p ≡ false → d'.content p ≡ d.content p))
    ⊎ ((success ≡ false) × (d' ≡ d))

rename-Renamed : (d : Disk) (a b : Bytes) → Renamed d a b (rename d a b)
unfolding rename Renamed
rename-Renamed d a b = elim (Bool-cases (exists d a && not (d.refuses a) && not (d.refuses b))) [
  | inl goes ↦ rw (goes) (
      inl (
        refl,
        λ e. ground (arith, goes, e),
        rw ((str_eq_iff b b).1 refl) refl,
        λ apart. rw (apart, (str_eq_iff a a).1 refl) refl,
        λ p from to. rw (to, from) refl,
      ))
  | inr fails ↦ rw (fails) (inr (refl, refl))
]

-- A configuration file of the load directory, whose two paths and two flags are different files.
record IsApart (lp rp off err : Bytes) : Type 0 where
  paths : rp ≢ lp
  off_lp : off ≢ lp
  err_lp : err ≢ lp
  off_rp : off ≢ rp
  err_rp : err ≢ rp
  off_err : err ≢ off

-- Either the configuration was moved and both flags are gone, or it stayed, and so did the one in the
-- run directory.
abbrev pub Outcome : Disk → Bytes → Bytes → Disk → Loaded → Type 0
Outcome d lp rp d' result =
    ((result ≡ started)
      × (d.content lp ≢ none)
      × (d'.content rp ≡ d.content lp)
      × (d'.content lp ≡ none)
      × (d'.content (with_ext rp off_ext) ≡ none)
      × (d'.content (with_ext rp err_ext) ≡ none))
    ⊎ ((result ≡ not_loaded) × (d'.content lp ≡ d.content lp) × (d'.content rp ≡ d.content rp))

module _ (d : Disk) (lp rp : Bytes)
    (apart : IsApart lp rp (with_ext rp off_ext) (with_ext rp err_ext)) where
  abbrev off : Bytes
  off = with_ext rp off_ext

  abbrev err : Bytes
  err = with_ext rp err_ext

  -- The files of the configuration are as they were.
  abbrev Same : Disk → Type 0
  Same d' = (d'.content lp ≡ d.content lp) × (d'.content rp ≡ d.content rp)

  move-Outcome :
      (d2 : Disk) (r : Disk × Bool)
      → Same d2
      → d2.content off ≡ none
      → d2.content err ≡ none
      → Renamed d2 lp rp r
      → Outcome d lp rp (moved started r).0 (moved started r).1
  unfolding Renamed
  move-Outcome d2 (d', true) (at_lp, at_rp) off_gone err_gone
        (inl (done, there, to, from, others)) =
      inl (
        refl,
        λ e. there (at_lp ∙ e),
        to ∙ at_lp,
        from (differ apart.paths),
        others off (differ (λ e. apart.off_lp (sym e))) (differ (λ e. apart.off_rp (sym e)))
            ∙ off_gone,
        others err (differ (λ e. apart.err_lp (sym e))) (differ (λ e. apart.err_rp (sym e)))
            ∙ err_gone,
      )
  move-Outcome d2 (d', false) same off_gone err_gone (inl (done, _, _, _, _)) = cc
  move-Outcome d2 (d', true) same off_gone err_gone (inr (failed, is)) = cc
  move-Outcome d2 (d', false) (at_lp, at_rp) off_gone err_gone (inr (failed, is)) =
      rw (is) (inr (refl, at_lp, at_rp))

  after_err :
      (d1 : Disk) (r : Disk × Bool)
      → Same d1
      → d1.content off ≡ none
      → Cleared d1 err r
      → let (d', result) = if_gone r (λ d2. moved started (rename d2 lp rp)) in
        Outcome d lp rp d' result
  unfolding Cleared
  after_err d1 (d2, false) (at_lp, at_rp) off_gone (kept, gone) =
      inr (refl, kept lp (differ apart.err_lp) ∙ at_lp, kept rp (differ apart.err_rp) ∙ at_rp)
  after_err d1 (d2, true) (at_lp, at_rp) off_gone (kept, gone) =
      move-Outcome d2 (rename d2 lp rp)
        (kept lp (differ apart.err_lp) ∙ at_lp, kept rp (differ apart.err_rp) ∙ at_rp)
        (kept off (differ apart.off_err) ∙ off_gone) (gone refl) (rename-Renamed d2 lp rp)

  after_off :
      (r : Disk × Bool)
      → Cleared d off r
      → let (d', result) =
          if_gone r (λ d1. if_gone (clear_flag d1 err) (λ d2. moved started (rename d2 lp rp))) in
        Outcome d lp rp d' result
  unfolding Cleared
  after_off (d1, false) (kept, gone) =
      inr (refl, kept lp (differ apart.off_lp), kept rp (differ apart.off_rp))
  after_off (d1, true) (kept, gone) =
      after_err d1 (clear_flag d1 err)
        (kept lp (differ apart.off_lp), kept rp (differ apart.off_rp)) (gone refl)
        (clear_flag-Cleared d1 err)

  move_cfg-Outcome : Outcome d lp rp (move_cfg d lp rp).0 (move_cfg d lp rp).1
  unfolding move_cfg
  move_cfg-Outcome = after_off (clear_flag d off) (clear_flag-Cleared d off)

-- The last four bytes of a path.
ending : Bytes → Bytes
ending fn = drop (length fn - 4) fn

ending-ext : (base ext : Bytes) → length ext ≡ 4 → ending (base ++ ext) ≡ ext
unfolding ending
ending-ext base ext four =
    let at : length (base ++ ext) - 4 ≡ length base = omega (arith, length-append base ext, four) in
    rw (at) (drop-append base ext)

apart_by : {a b x y : Bytes} → ending a ≡ x → ending b ≡ y → str_eq x y ≡ false → a ≢ b
apart_by {a} {b} {x} {y} ends_a ends_b other e =
    let same : x ≡ y = sym ends_a ∙ ap ending e ∙ ends_b in
    let equal = (str_eq_iff x y).1 same in cc

has_ext-ends :
    (name ext : Bytes)
    → has_ext name ext ≡ true
    → (length ext < length name) × (drop (length name - length ext) name ≡ ext)
unfolding has_ext
has_ext-ends name ext has = elim (Bool-cases (leb (length name) (length ext))) [
  | inl short ↦ cc
  | inr long ↦ (ground (arith, long), (str_eq_iff _ ext).0 (rw (long) at has))
]

ending-name :
    (path name ext : Bytes)
    → has_ext name ext ≡ true
    → length ext ≡ 4
    → ending (path ++ (b'/' ∷ name)) ≡ ext
unfolding ending
ending-name path name ext has four =
    let (long, ends) = has_ext-ends name ext has in
    let whole = length-append path (b'/' ∷ name) in
    let at : length (path ++ (b'/' ∷ name)) - 4 ≡ length path + suc (length name - length ext) =
      omega (arith, whole, long, four) in
    rw
      (
        at,
        drop_add (length path) (suc (length name - length ext)) (path ++ (b'/' ∷ name)),
        drop-append path (b'/' ∷ name),
      )
      ends

-- A `.cfg` file whose paths in the load and in the run directory fit and are different always gets a
-- result. Either it is 1: then the configuration was there, it is now the one in the run directory
-- and no longer in the load directory, and the plugin's `.off` and `.err` files are gone. Or it is
-- -1: then the configurations in both directories are as they were.
pub process_load_cfg-cfg :
    (d : Disk) (lpath rpath name lp rp : Bytes)
    → has_ext name cfg_ext ≡ true
    → get_fqfn lpath name max_path ≡ some lp
    → get_fqfn rpath name max_path ≡ some rp
    → lp ≢ rp
    → (d' : Disk) × (result : Loaded) × (process_load_cfg d lpath rpath name ≡ ok (d', result))
      × Outcome d lp rp d' result
unfolding process_load_cfg load_cfg
process_load_cfg-cfg d lpath rpath name lp rp has in_load in_run other =
    let cfg_l : ending lp ≡ cfg_ext =
      rw (fits-eq max_path (lpath ++ (b'/' ∷ name)) lp in_load)
        (ending-name lpath name cfg_ext has refl) in
    let cfg_r : ending rp ≡ cfg_ext =
      rw (fits-eq max_path (rpath ++ (b'/' ∷ name)) rp in_run)
        (ending-name rpath name cfg_ext has refl) in
    let off_e : ending (with_ext rp off_ext) ≡ off_ext =
      unfold with_ext in ending-ext (take (length rp - 4) rp) off_ext refl in
    let err_e : ending (with_ext rp err_ext) ≡ err_ext =
      unfold with_ext in ending-ext (take (length rp - 4) rp) err_ext refl in
    let apart : IsApart lp rp (with_ext rp off_ext) (with_ext rp err_ext) = record {
      paths = λ e. other (sym e);
      off_lp = λ e. apart_by off_e cfg_l (unfold str_eq in refl) e;
      err_lp = λ e. apart_by err_e cfg_l (unfold str_eq in refl) e;
      off_rp = λ e. apart_by off_e cfg_r (unfold str_eq in refl) e;
      err_rp = λ e. apart_by err_e cfg_r (unfold str_eq in refl) e;
      off_err = λ e. apart_by err_e off_e (unfold str_eq in refl) e;
    } in
    (
      (move_cfg d lp rp).0,
      (move_cfg d lp rp).1,
      rw (has, in_load, in_run) refl,
      move_cfg-Outcome d lp rp apart,
    )
