-- ===== src/Base/Run.antt =====
-- A function of the program either returns or ends the process by `exit(EXIT_FAILURE)`.
use mathlib.Core.Path.{◌≡◌, refl}
use mathlib.Core.Logic.{◌⊎◌, inl, inr}

pub data Run {ℓ} (A : Type ℓ) : Type ℓ where
  exit_failure : Run A
  ok : A → Run A

pub ok-injective {ℓ} : {A : Type ℓ} {x y : A} → ok x ≡ ok y → x ≡ y
ok-injective h = cc

pub absurd_ok {ℓ κ} : {A : Type ℓ} {B : Type κ} {x : A} → exit_failure ≡ ok x → B
absurd_ok h = cc

pub Run-cases {ℓ} : {A : Type ℓ} (r : Run A) → (r ≡ exit_failure) ⊎ ((a : A) × (r ≡ ok a))
Run-cases exit_failure = inl refl
Run-cases (ok a) = inr (a, refl)

module _ {ℓ κ} {A : Type ℓ} {B : Type κ} where
  infixl 5 ◌>>=◌
  -- What follows is not reached once the process has ended.
  abbrev pub ◌>>=◌ : Run A → (A → Run B) → Run B
  exit_failure >>= next = exit_failure
  ok a >>= next = next a

  -- Where the whole returns, the first part does.
  pub >>=-eq-ok :
      (first : Run A) (next : A → Run B) {b : B}
      → (first >>= next) ≡ ok b
      → record { 0 as value : A; 1 : first ≡ ok value; 2 : next value ≡ ok b }
  >>=-eq-ok exit_failure next h = cc
  >>=-eq-ok (ok a) next h = (a, refl, h)
