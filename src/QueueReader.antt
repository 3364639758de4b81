-- ===== src/QueueReader.antt =====
-- How the threads of src/hs_analysis_plugins.c and src/hs_output_plugins.c follow a queue: a message from
-- the buffer, or more bytes of the file, or the next file (without HINDSIGHT_CLI).
pub mod Stream
pub mod Opening
pub mod NextFile
pub mod Refine
pub mod Whole
pub mod Standing
use hindsight.Base.{
  ℕ, ◌+◌, Bool, true, false, ◌&&◌, ◌||◌, Option, none, some, leb, ltb, ◌==◌, if◌then◌else◌, length,
}
use hindsight.Base.Run.{Run, ok, ◌>>=◌}
use hindsight.CString.{Bytes}
use hindsight.Disk.{Disk, bytes_of}
use hindsight.Checkpoint.{Checkpoint}
use hindsight.CheckpointReader.{Table, lookup_input_checkpoint}
use hindsight.QueueFile.{find_next_id}
use hindsight.Inject.{add64, sub64}
use hindsight.Input.{InputBuffer, Handle, Input, open_file, read_file}
use hindsight.Input.Place.{unread}

-- `lsb_heka_message`, as far as the program looks into it
pub record Message : Type 0 where
  pub raw : Bytes
  pub timestamp : ℕ  -- long long, not negative

-- The functions of the lua_sandbox library on its buffer: `lsb_find_heka_message`,
-- `lsb_expand_input_buffer`, and the constant `LSB_HDR_FRAME_SIZE`.
pub record Framing : Type 0 where
  pub find : InputBuffer → InputBuffer × Option Message
  pub expand : InputBuffer → ℕ → Option InputBuffer
  pub hdr_frame_size : ℕ

-- The queue that is followed, and `output_size` of the configuration.
pub record Queue : Type 0 where
  pub path : Bytes
  pub subdir : Bytes
  pub output_size : ℕ

-- The variables of a thread for one queue: `input`, `bytes_read`, `next`, `iwait_cnt`, `itimer`, and
-- the message that was found.
pub record Reader : Type 0 where
  pub input : Input
  pub bytes_read : ℕ
  pub next : Bool
  pub wait_cnt : ℕ
  pub timer : ℕ
  pub found : Option Message

-- Where the first byte that was not scanned stands in the file.
unfoldable pub scanned : Reader → Checkpoint
scanned r = record {
  id = r.input.cp.id;
  offset = sub64 r.input.cp.offset (length (unread r.input.ib));
}

unfoldable pub or_read :
    Framing → Disk → ℕ → Reader → Handle → InputBuffer × Option Message → Run Reader
or_read fr d most r fh (ib, some msg) =
    ok (record r { input = record r.input { ib = ib }; found = some msg })
or_read fr d most r fh (ib, none) = do
  (input, bytes_read) ←
      read_file fr.expand fr.hdr_frame_size (bytes_of (d.content fh.file)) most
        (record r.input { ib = ib }) fh
  ok (record r { input = input; bytes_read = bytes_read; found = none })

-- A message from the buffer, or else a read of up to `most` bytes.
unfoldable pub find_or_read : Framing → Disk → ℕ → Reader → Handle → Run Reader
unfolding or_read
find_or_read fr d most r fh = or_read fr d most r fh (fr.find r.input.ib)

-- Nothing was read, and the file is full, or the last try found a further one.
abbrev pub is_at_end : Queue → Reader → Bool
is_at_end q r = r.bytes_read == 0 && (leb q.output_size r.input.cp.offset || r.next)

unfoldable pub open_id : Disk → Queue → Reader → ℕ → Run Reader
open_id d q r id = do
  (input, next) ← open_file d r.input q.subdir id
  ok (record r { input = input; next = next })

-- The next file that is there, if files are missing before it.
unfoldable pub open_behind : Disk → Queue → Reader → ℕ → Run Reader
open_behind d q r next_id =
    if ltb (add64 r.input.cp.id 1) next_id then open_id d q r next_id else ok r

-- What is done when the next file is not there: after sixty tries, or where the file was not full, the
-- directory is searched. The try has been counted.
unfoldable pub skip_missing : Disk → Queue → Reader → Run Reader
skip_missing d q r =
    if ltb 60 r.wait_cnt || ltb r.input.cp.offset q.output_size
    then (do
      next_id ← find_next_id d q.path q.subdir r.input.cp.id
      r' ← open_behind d q r next_id
      ok (record r' { wait_cnt = 0 }))
    else ok r

-- In an analysis thread: `iwait_cnt` stays where the next file is opened.
unfoldable pub unless_opened : Disk → Queue → Reader → Run Reader
unless_opened d q r =
    if r.next then ok r else skip_missing d q (record r { wait_cnt = r.wait_cnt + 1 })

unfoldable pub next_file : Disk → Queue → Reader → Run Reader
next_file d q r = do r' ← open_id d q r (add64 r.input.cp.id 1); unless_opened d q r'

-- In an output plugin `iwait_cnt` starts anew.
unfoldable pub unless_opened_anew : Disk → Queue → Reader → Run Reader
unless_opened_anew d q r =
    if r.next
    then ok (record r { wait_cnt = 0 })
    else skip_missing d q (record r { wait_cnt = r.wait_cnt + 1 })

-- There the next file is tried at most once a second.
unfoldable pub next_file_timed : Disk → Queue → ℕ → Reader → Run Reader
next_file_timed d q current_t r = if r.timer == current_t then ok r else (do
  r' ← open_id d q (record r { timer = current_t }) (add64 r.input.cp.id 1)
  unless_opened_anew d q r')

-- How the two kinds of threads go on to the next file.
pub data Pace : Type 0 where
  every_round : Pace
  once_a_second : ℕ → Pace

unfoldable pub go_on : Disk → Queue → Pace → Reader → Run Reader
go_on d q every_round r = next_file d q r
go_on d q (once_a_second current_t) r = next_file_timed d q current_t r

unfoldable pub unless_found : Disk → Queue → Pace → Reader → Option Message → Run Reader
unless_found d q pace r (some _) = ok r
unless_found d q pace r none = if is_at_end q r then go_on d q pace r else ok r

-- The branch of a round in which a file is open and no message is waiting.
unfoldable pub follow : Framing → Disk → Queue → Pace → ℕ → Reader → Handle → Run Reader
follow fr d q pace most r fh = do
  r' ← find_or_read fr d most r fh
  unless_found d q pace r' r'.found
