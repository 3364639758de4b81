-- ===== src/Util/Name.antt =====
-- Laws of the file names that src/hs_util.c builds and tests.
use hindsight.Base.{
  ℕ, ◌+◌, ◌-◌, ◌≤◌, ◌<◌, ◌≡◌, ◌≢◌, ◌↔◌, refl, sym, ap, ◌∙◌, true, some, [], ◌∷◌, ◌++◌, arith,
  length, take, drop, length-append, drop-append, take-append-drop, take-ne-nil, length-pos,
}
use hindsight.CString.{Bytes, str_eq_iff}
use hindsight.Util.{has_ext, get_fqfn, fits}

-- The base of a name with an extension.
pub record Extends (fn ext : Bytes) : Type 0 where
  pub base : Bytes
  pub base-ne-nil : base ≢ []
  pub joined : fn ≡ base ++ ext

has_ext-Extends : (fn ext : Bytes) → has_ext fn ext ≡ true → Extends fn ext
unfolding has_ext
has_ext-Extends fn ext h =
    let n = length fn - length ext in
    record {
      base = take n fn;
      base-ne-nil = take-ne-nil n fn (ground arith) (ground arith);
      joined =
          sym (take-append-drop n fn)
          ∙ ap (λ s. take n fn ++ s) ((str_eq_iff (drop n fn) ext).0 (ground arith));
    }

drop_base : (base ext : Bytes) → drop (length (base ++ ext) - length ext) (base ++ ext) ≡ ext
drop_base base ext =
    let e : length (base ++ ext) - length ext ≡ length base =
      omega (arith, length-append base ext) in
    rw e (drop-append base ext)

has_ext-append : (base ext : Bytes) → base ≢ [] → has_ext (base ++ ext) ext ≡ true
unfolding has_ext
has_ext-append base ext ne = ground (
  arith,
  drop_base base ext,
  length-append base ext,
  length-pos base ne,
  (str_eq_iff ext ext).1 refl,
)

Extends-has_ext : (fn ext : Bytes) → Extends fn ext → has_ext fn ext ≡ true
Extends-has_ext fn ext x = rw x.joined (has_ext-append x.base ext x.base-ne-nil)

-- A name has the extension exactly when it is a base that is not empty with the extension behind.
pub has_ext_iff : (fn ext : Bytes) → (has_ext fn ext ≡ true) ↔ Extends fn ext
has_ext_iff fn ext = (has_ext-Extends fn ext, Extends-has_ext fn ext)

fits-some_iff :
    (cap : ℕ) (text out : Bytes)
    → (fits cap text ≡ some out) ↔ ((text ≡ out) × (length text ≤ cap - 1))
unfolding fits
fits-some_iff cap text out = (λ h. ground arith, λ h. ground arith)

-- The name is built exactly when it fits its buffer with the closing 0.
pub get_fqfn_iff :
    (path name : Bytes) (cap : ℕ) (out : Bytes)
    → 0 < cap
    → (get_fqfn path name cap ≡ some out)
      ↔ ((path ++ (b'/' ∷ name) ≡ out) × (length path + length name + 2 ≤ cap))
unfolding get_fqfn
get_fqfn_iff path name cap out h = (
  λ e. ground (arith, length-append path (b'/' ∷ name)),
  λ e. ground (arith, length-append path (b'/' ∷ name)),
)

pub fits-eq : (cap : ℕ) (text u : Bytes) → fits cap text ≡ some u → u ≡ text
unfolding fits
fits-eq cap text u h = ground arith
