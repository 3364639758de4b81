-- ===== src/Config/Options.antt =====
-- src/hs_config.c: one option of a configuration, taken from a Lua table.
use hindsight.Base.{
  ℕ, ◌≡◌, refl, Bool, true, false, not, ◌&&◌, ◌||◌, Option, none, some, List, [], ◌∷◌, ◌++◌, ltb,
  ◌==◌, if◌then◌else◌,
}
use hindsight.CString.{Bytes, codes, str_eq}
use hindsight.CheckpointReader.{c_string}

-- A Lua number, by whether it is below 0, or else its integer part and whether that is all of it. (One
-- that is not a number is left out: C does not define its conversion.)
pub data LuaNumber : Type 0 where
  below_zero : LuaNumber
  from_zero : ℕ → Bool → LuaNumber

-- The values of a configuration. What a table holds is told by the level at which it stands.
pub data Value (Table : Type 0) : Type 0 where
  number : LuaNumber → Value Table
  text : Bytes → Value Table
  boolean : Bool → Value Table
  table : Table → Value Table
  other_value : Value Table

pub data Key : Type 0 where
  named : Bytes → Key
  unnamed : Key

abbrev pub Entries : Type 0 → Type 0
Entries Table = List (Key × Value Table)

-- The result of a function that returns an int other than 0 with a message on the stack.
pub data Checked {ℓ} (A : Type ℓ) : Type ℓ where
  invalid : Bytes → Checked A
  valid : A → Checked A

module _ {ℓ κ} {A : Type ℓ} {B : Type κ} where
  infixl 5 ◌>>=◌
  abbrev pub ◌>>=◌ : Checked A → (A → Checked B) → Checked B
  invalid message >>= next = invalid message
  valid a >>= next = next a

-- Where the whole is valid, the first part is.
pub >>=-eq-valid {ℓ κ} :
    {A : Type ℓ} {B : Type κ} (first : Checked A) (next : A → Checked B) {b : B}
    → (first >>= next) ≡ valid b
    → record { 0 as value : A; 1 : first ≡ valid value; 2 : next value ≡ valid b }
>>=-eq-valid (invalid message) next h = cc
>>=-eq-valid (valid a) next h = (a, refl, h)

pub valid-injective {ℓ} : {A : Type ℓ} {x y : A} → valid x ≡ valid y → x ≡ y
valid-injective h = cc

-- The value that is kept where the result of a function is not looked at.
unfoldable pub or_keep {ℓ} : {A : Type ℓ} → Checked A → A → A
or_keep (invalid _) old = old
or_keep (valid new) old = new

abbrev pub uint_max : ℕ
uint_max = 4294967295

abbrev pub uint8_max : ℕ
uint8_max = 255

abbrev pub is_key : Bytes → Key → Bool
is_key name (named k) = str_eq k name
is_key name unnamed = false

-- `d < 0 || d > max`
unfoldable pub is_outside : LuaNumber → ℕ → Bool
is_outside below_zero max = true
is_outside (from_zero n whole) max = ltb max n || (n == max && not whole)

unfoldable pub integer_part : LuaNumber → ℕ
integer_part below_zero = 0
integer_part (from_zero n whole) = n

abbrev pub is_option : Bytes → List Bytes → Bool
is_option s [] = false
is_option s (o ∷ options) = if str_eq o s then true else is_option s options

first_byte : Bytes → ℕ
first_byte [] = 0
first_byte (c ∷ s) = c

unfoldable pub option_name : Option Bytes → Bytes → Bytes
option_name none key = codes "invalid option: '" ++ (key ++ codes "'")
option_name (some parent) key =
    codes "invalid option: '" ++ (parent ++ (codes "." ++ (key ++ codes "'")))

module _ {Table : Type 0} where
  -- `lua_getfield`; `none` is nil
  unfoldable pub get_field : Bytes → Entries Table → Option (Value Table)
  get_field name [] = none
  get_field name ((k, v) ∷ rest) = if is_key name k then some v else get_field name rest

  -- `remove_item`, without the stack
  unfoldable pub remove_item : Bytes → Entries Table → Entries Table
  remove_item name [] = []
  remove_item name ((k, v) ∷ rest) =
      let removed = remove_item name rest in if is_key name k then removed else (k, v) ∷ removed

  -- The switch of `get_unsigned_int` and of `get_uint8`, which differ in the limit and its name.
  unfoldable pub number_item :
      ℕ → Bytes → Entries Table → Bytes → ℕ → Option (Value Table) → Checked (ℕ × Entries Table)
  unfolding is_outside integer_part remove_item
  number_item max kind t name val none = valid (val, remove_item name t)
  number_item max kind t name val (some (number d)) =
      if is_outside d max
      then invalid (name ++ (codes " must be " ++ kind))
      else valid (integer_part d, remove_item name t)
  number_item max kind t name val (some _) = invalid (name ++ codes " must be set to a number")

  -- `get_unsigned_int`; `val` is what stands before
  unfoldable pub get_unsigned_int : Entries Table → Bytes → ℕ → Checked (ℕ × Entries Table)
  unfolding number_item get_field
  get_unsigned_int t name val =
      number_item uint_max (codes "an unsigned int") t name val (get_field name t)

  -- `get_uint8`
  unfoldable pub get_uint8 : Entries Table → Bytes → ℕ → Checked (ℕ × Entries Table)
  unfolding number_item get_field
  get_uint8 t name val = number_item uint8_max (codes "a uint8_t") t name val (get_field name t)

  unfoldable pub bool_item :
      Entries Table → Bytes → Bool → Option (Value Table) → Checked (Bool × Entries Table)
  unfolding remove_item
  bool_item t name val none = valid (val, remove_item name t)
  bool_item t name val (some (boolean b)) = valid (b, remove_item name t)
  bool_item t name val (some _) = invalid (codes "preserve_data must be set to a bool")

  -- `get_bool_item`, whose message names `preserve_data` for every option
  unfoldable pub get_bool_item : Entries Table → Bytes → Bool → Checked (Bool × Entries Table)
  unfolding bool_item get_field
  get_bool_item t name val = bool_item t name val (get_field name t)

  unfoldable pub option_item :
      Entries Table → Bytes → ℕ → List Bytes → Option (Value Table) → Checked (ℕ × Entries Table)
  unfolding remove_item first_byte
  option_item t name val options none = valid (val, remove_item name t)
  option_item t name val options (some (text s)) =
      if is_option (c_string s) options
      then valid (first_byte s, remove_item name t)
      else invalid (name ++ (codes " invalid option " ++ c_string s))
  option_item t name val options (some _) = invalid (name ++ codes " must be set to a string")

  -- `get_option_char`
  unfoldable pub get_option_char :
      Entries Table → Bytes → ℕ → List Bytes → Checked (ℕ × Entries Table)
  unfolding option_item get_field
  get_option_char t name val options = option_item t name val options (get_field name t)

  unfoldable pub or_default : Entries Table → Bytes → Option Bytes → Checked (Bytes × Entries Table)
  unfolding remove_item
  or_default t name none = invalid (name ++ codes " must be set to a string")
  or_default t name (some dflt) = valid (dflt, remove_item name t)

  -- Lua makes a text of a number; the text that is kept is a C string.
  unfoldable pub string_item :
      (LuaNumber → Bytes)
      → Entries Table
      → Bytes
      → Option Bytes
      → Option (Value Table)
      → Checked (Bytes × Entries Table)
  unfolding or_default remove_item
  string_item print t name dflt (some (text s)) = valid (c_string s, remove_item name t)
  string_item print t name dflt (some (number d)) = valid (print d, remove_item name t)
  string_item print t name dflt _ = or_default t name dflt

  -- `get_string_item`
  unfoldable pub get_string_item :
      (LuaNumber → Bytes) → Entries Table → Bytes → Option Bytes → Checked (Bytes × Entries Table)
  unfolding string_item get_field
  get_string_item print t name dflt = string_item print t name dflt (get_field name t)

  -- `check_for_unknown_options`: the first entry that is left is an error
  unfoldable pub check_for_unknown_options : Entries Table → Option Bytes → Checked (Unit {0})
  unfolding option_name
  check_for_unknown_options [] parent = valid tt
  check_for_unknown_options ((named key, v) ∷ rest) parent =
      invalid (option_name parent (c_string key))
  check_for_unknown_options ((unnamed, v) ∷ rest) parent = invalid (codes "non string key")
