-- ===== src/CString/Search.antt =====
-- What `strchr` finds.
use hindsight.Base.{ℕ, ◌≡◌, ◌==◌, false, some, ◌∷◌, [], ◌++◌, arith, All}
use hindsight.CString.{Bytes, strchr}

-- The first `c` behind bytes that are all different from it.
pub strchr-append :
    (a : Bytes) (c : ℕ) (s : Bytes)
    → All (λ x. (x == c) ≡ false) a
    → strchr (a ++ (c ∷ s)) c ≡ some (c ∷ s)
unfolding strchr
strchr-append [] c s h = ground arith
strchr-append (x ∷ a) c s h = ground (arith, strchr-append a c s)
