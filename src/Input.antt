-- ===== src/Input.antt =====
-- src/hs_input.c: the reading end of a queue.
pub mod Place
use hindsight.Base.{
  ℕ, zero, suc, ◌+◌, ◌-◌, ◌%◌, ◌^◌, ◌≡◌, Bool, true, false, not, ◌&&◌, Option, none, some, List, [],
  ◌∷◌, ◌++◌, arith, ltb, ◌==◌, if◌then◌else◌, length, take, drop, get_elem?,
}
use hindsight.Base.Run.{Run, ok, exit_failure, ◌>>=◌}
use hindsight.CString.{Bytes, str_eq}
use hindsight.Disk.{Disk}
use hindsight.Util.{fits, max_path}
use hindsight.Checkpoint.{Checkpoint}
use hindsight.QueueFile.Naming.{log_name}

-- `lsb_input_buffer`; `buf` is the bytes in front of `readpos`.
pub record InputBuffer : Type 0 where
  pub buf : Bytes
  pub scanpos : ℕ  -- size_t
  pub size : ℕ  -- size_t
  pub msglen : ℕ  -- size_t

-- A file that is open, by its name, and the place in it that is read next.
pub record Handle : Type 0 where
  pub file : Bytes
  pub position : ℕ

-- `hs_input`
pub record Input : Type 0 where
  pub path : Bytes
  pub name : Bytes
  pub fh : Option Handle
  pub fn : Option Bytes
  pub ib : InputBuffer
  pub cp : Checkpoint

-- `hs_init_input`; the buffer is what `lsb_init_input_buffer` makes
unfoldable pub init_input : InputBuffer → Bytes → Bytes → Run Input
init_input ib path name =
    if ltb (max_path - 30) (length path)
    then exit_failure
    else ok (record {
      path = path;
      name = name;
      fh = none;
      fn = none;
      ib = ib;
      cp = record { id = 0; offset = 0 };
    })

unfoldable pub is_open_name : Option Bytes → Bytes → Bool
is_open_name none fqfn = false
is_open_name (some fn) fqfn = str_eq fn fqfn

-- `fseek`, which refuses an offset that its `long` does not hold
unfoldable pub seek : ℕ → ℕ
seek offset = if ltb offset (2 ^ 63) then offset else 0

-- The file was opened: it is read on from the checkpoint if that stands in it, else from its
-- beginning.
unfoldable pub opened : Input → Bytes → ℕ → Input
unfolding seek
opened hsi fqfn id =
    let same = hsi.cp.id == id in
    record hsi {
      fh = some (record {
        file = fqfn;
        position = if same && not (hsi.cp.offset == 0) then seek hsi.cp.offset else 0;
      });
      fn = some fqfn;
      cp = if same then hsi.cp else record { id = id; offset = 0 };
    }

unfoldable pub open_named : Option Bytes → Input → Bytes → ℕ → Input × Bool
unfolding opened
open_named none hsi fqfn id = (hsi, false)
open_named (some _) hsi fqfn id = (opened hsi fqfn id, true)

unfoldable pub open_fitting : Disk → Input → ℕ → Option Bytes → Run (Input × Bool)
unfolding is_open_name open_named
open_fitting d hsi id none = exit_failure
open_fitting d hsi id (some fqfn) =
    if is_open_name hsi.fn fqfn
    then ok (hsi, true)
    else ok (open_named (d.content fqfn) hsi fqfn id)

-- `hs_open_file`
unfoldable pub open_file : Disk → Input → Bytes → ℕ → Run (Input × Bool)
unfolding fits open_fitting
open_file d hsi subdir id =
    open_fitting d hsi id (fits max_path (hsi.path ++ (b'/' ∷ (subdir ++ (b'/' ∷ log_name id)))))

-- `(size_t)c` of a `char`
char_to_size : ℕ → ℕ
char_to_size c = if ltb c 128 then c else c + 2 ^ 64 - 256

header_length : Option ℕ → ℕ
header_length none = 0
header_length (some c) = char_to_size c

-- `fread` gives up to `most` bytes, as many as the system has at the time.
unfoldable pub filled : Bytes → ℕ → Input → InputBuffer → Handle → Input × ℕ
filled content most hsi ib fh =
    let room = ib.size - length ib.buf in
    let got = take (if ltb most room then most else room) (drop fh.position content) in
    let hsi' = record hsi {
      fh = some (record fh { position = fh.position + length got });
      ib = record ib { buf = ib.buf ++ got };
      cp = record hsi.cp { offset = (hsi.cp.offset + length got) % 2 ^ 64 };
    } in
    (hsi', length got)

unfoldable pub read_into : Bytes → ℕ → Input → Handle → Option InputBuffer → Run (Input × ℕ)
unfolding filled
read_into content most hsi fh none = exit_failure
read_into content most hsi fh (some ib) = ok (filled content most hsi ib fh)

-- How many bytes are to be read; `hdr_frame_size` is `LSB_HDR_FRAME_SIZE` of the lua_sandbox library.
unfoldable pub needed : ℕ → InputBuffer → ℕ
unfolding header_length char_to_size
needed hdr_frame_size ib =
    let readpos = length ib.buf in
    if ib.msglen == 0
    then (ib.scanpos + ib.size + 2 ^ 64 - readpos) % 2 ^ 64
    else (ib.msglen
        + header_length (get_elem? ib.buf (ib.scanpos + 1))
        + hdr_frame_size
        + 2 ^ 64
        - (readpos - ib.scanpos))
      % 2 ^ 64

-- `hs_read_file`, of a file that is open and holds `content`. `lsb_expand_input_buffer` of the
-- lua_sandbox library makes room for a number of bytes.
unfoldable pub read_file :
    (InputBuffer → ℕ → Option InputBuffer) → ℕ → Bytes → ℕ → Input → Handle → Run (Input × ℕ)
unfolding needed read_into
read_file expand hdr_frame_size content most hsi fh =
    read_into content most hsi fh (expand hsi.ib (needed hdr_frame_size hsi.ib))
