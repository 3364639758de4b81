-- ===== src/IpCheckpoint.antt =====
-- The checkpoint of an input plugin, a number or a text of the sandbox's own: `hs_ip_checkpoint`, its
-- changes in src/hs_input_plugins.c, and its way to and from the table in
-- src/hs_checkpoint_reader.c.
pub mod Safety
pub mod RoundTrip
use hindsight.Base.{
  ℕ, zero, suc, ◌+◌, ◌%◌, ◌^◌, ◌≡◌, Bool, true, false, Option, none, some, List, [], ◌∷◌, ◌++◌,
  arith, leb, ltb, if◌then◌else◌, length, drop, take,
}
use hindsight.CString.{Bytes}
use hindsight.CheckpointReader.{LuaValue, str, num, other, Table, get, assign, clear}

-- `HS_MAX_IP_CHECKPOINT`
abbrev pub max_ip_checkpoint : ℕ
max_ip_checkpoint = 8192

-- `type` with `value`. A buffer is the list of all its bytes, `none` is the null pointer. A double is
-- a `Number`, and `none` stands for NaN where a caller may pass it.
pub data Value (Number : Type 0) : Type 0 where
  unset : Value Number
  numeric : Number → Value Number
  string : Option Bytes → Value Number

pub record IpCheckpoint (Number : Type 0) : Type 0 where
  pub value : Value Number
  pub len : ℕ  -- unsigned
  pub cap : ℕ  -- unsigned

-- Whether a function reports success.
pub data Status : Type 0 where
  success : Status
  failure : Status

-- `memcpy` of a text to the beginning of a buffer
unfoldable pub copy_to : Bytes → Bytes → Bytes
copy_to text buffer = text ++ drop (length text) buffer

-- `len` bytes at a pointer; `none` where they reach past the buffer
unfoldable pub read_text : Option Bytes → ℕ → Option Bytes
read_text none len = if leb len 0 then some [] else none
read_text (some buffer) len = if leb len (length buffer) then some (take len buffer) else none

module _ {Number : Type 0} where
  -- `init_ip_checkpoint`
  abbrev pub init_ip_checkpoint : IpCheckpoint Number
  init_ip_checkpoint = record { value = unset; len = 0; cap = 0 }

  -- the buffer of the union, read as a pointer; that of a number is set to null first
  unfoldable pub buffer_of : Value Number → Option Bytes
  buffer_of (string s) = s
  buffer_of _ = none

  -- `free_ip_checkpoint`
  unfoldable pub freed : Value Number → IpCheckpoint Number → IpCheckpoint Number
  freed (string _) cp = record { value = unset; len = 0; cap = 0 }
  freed _ cp = record cp { value = unset }

  unfoldable pub free_ip_checkpoint : IpCheckpoint Number → IpCheckpoint Number
  unfolding freed
  free_ip_checkpoint cp = freed cp.value cp

  unfoldable pub copied : Bytes → Option Bytes → ℕ → ℕ → IpCheckpoint Number
  unfolding copy_to
  copied text (some buffer) len cap = record {
    value = string (some (copy_to text buffer));
    len = len;
    cap = cap;
  }
  copied text none len cap = record { value = string none; len = len; cap = cap }

  -- The text, of `size` bytes with its closing 0, goes to the buffer, which is replaced by a larger
  -- one if it must; `malloc` tells whether there is memory. `len` is what the caller has put there.
  unfoldable pub store_text :
      Bool → Bytes → ℕ → ℕ → IpCheckpoint Number → IpCheckpoint Number × Status
  unfolding copied buffer_of
  store_text malloc text size len cp =
      if leb size max_ip_checkpoint
      then if ltb cp.cap size
        then if malloc
          then (record { value = string (some (take size text)); len = len; cap = size }, success)
          else (record { value = string none; len = 0; cap = 0 }, failure)
        else (copied (take size text) (buffer_of cp.value) len cp.cap, success)
      else (record { value = string (buffer_of cp.value); len = len; cap = cp.cap }, failure)

  -- A text that was there is freed.
  unfoldable pub number_over : Value Number → Number → IpCheckpoint Number → IpCheckpoint Number
  number_over (string _) d cp = record { value = numeric d; len = 0; cap = 0 }
  number_over _ d cp = record cp { value = numeric d }

  unfoldable pub set_number : Number → IpCheckpoint Number → IpCheckpoint Number
  unfolding number_over
  set_number d cp = number_over cp.value d cp

  -- `update_checkpoint`
  unfoldable pub update_checkpoint :
      Bool → Option Number → Option Bytes → IpCheckpoint Number → IpCheckpoint Number × Status
  unfolding set_number store_text
  update_checkpoint malloc (some d) s cp = (set_number d cp, success)
  update_checkpoint malloc none (some s) cp =
      let size = (length s + 1) % 2 ^ 32 in store_text malloc (s ++ (0 ∷ [])) size size cp
  update_checkpoint malloc none none cp = (cp, success)

  -- `hs_load_checkpoint`, of a value of Lua; `none` is nil
  unfoldable pub load_checkpoint :
      Bool → Option (LuaValue Number) → IpCheckpoint Number → IpCheckpoint Number × Status
  unfolding set_number store_text
  load_checkpoint malloc (some (str s)) cp =
      store_text malloc (s ++ (0 ∷ [])) (length s + 1) (length s % 2 ^ 32) cp
  load_checkpoint malloc (some (num d)) cp = (set_number d cp, success)
  load_checkpoint malloc none cp = (cp, success)
  load_checkpoint malloc (some other) cp = (cp, failure)

  -- `hs_lookup_checkpoint`
  unfoldable pub lookup_checkpoint :
      Bool → Table Number → Bytes → IpCheckpoint Number → IpCheckpoint Number
  unfolding load_checkpoint get
  lookup_checkpoint malloc t key cp = (load_checkpoint malloc (get key t) cp).0

  unfoldable pub assign_text : Bytes → Table Number → Option Bytes → Option (Table Number)
  unfolding assign
  assign_text key t (some text) = some (assign key (str text) t)
  assign_text key t none = none

  unfoldable pub stored_value : Value Number → Table Number → Bytes → ℕ → Option (Table Number)
  unfolding assign_text read_text assign clear
  stored_value (string s) t key len = assign_text key t (read_text s len)
  stored_value (numeric d) t key len = some (assign key (num d) t)
  stored_value unset t key len = some (clear key t)

  -- `hs_update_checkpoint`; `none` where it reads past the buffer
  unfoldable pub store_checkpoint :
      Table Number → Bytes → IpCheckpoint Number → Option (Table Number)
  unfolding stored_value
  store_checkpoint t key cp = stored_value cp.value t key cp.len
