-- ===== src/CheckpointReader/Table.antt =====
-- The table of src/hs_checkpoint_reader.c: what is found after a write and after a removal.
use hindsight.Base.{◌≡◌, refl, none, some, true, arith, [], ◌∷◌, if◌then◌else◌}
use hindsight.CString.{Bytes, str_eq, str_eq_iff}
use hindsight.CheckpointReader.{Table, LuaValue, get, clear, assign}

pub str_eq_refl : (a : Bytes) → str_eq a a ≡ true
str_eq_refl a = (str_eq_iff a a).1 refl

module _ {Number : Type 0} where
  pub get-clear :
      (key other_key : Bytes) (t : Table Number)
      → get key (clear other_key t) ≡ (if str_eq other_key key then none else get key t)
  unfolding get clear
  get-clear key other_key [] = ground arith
  get-clear key other_key ((k, v) ∷ rest) =
      grind (arith, get-clear key other_key rest, str_eq_iff, str_eq_refl)

  -- A global is what was assigned to it last; the others stay.
  pub get-assign :
      (key other_key : Bytes) (v : LuaValue Number) (t : Table Number)
      → get key (assign other_key v t) ≡ (if str_eq other_key key then some v else get key t)
  unfolding get assign
  get-assign key other_key v t = ground (arith, get-clear key other_key t)
