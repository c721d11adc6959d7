-- ===== src/Logger.antt =====
-- include/utils/Logger.h and src/utils/Logger.cpp: the two buffers of the logger, the thread that
-- writes them out, and the file that it rolls. Each locked section is a function. The bytes that
-- `snprintf` and `vsnprintf` format are arguments, and so is whether the file opens again. Sizes are
-- far below 2^31, so that the difference that becomes the int `msg_len` is negative exactly where the
-- one here is 0.
pub mod Ordering
pub mod Turns
pub mod Writer
use user_center.Base.{
  ℕ, ◌+◌, ◌-◌, ◌++◌, List, [], ◌∷◌, Option, none, some, Bool, true, false, Bytes, codes, ltb, leb,
  length, take, not, if◌then◌else◌,
}

pub data LogLevel : Type 0 where
  debug info warn error fatal : LogLevel

abbrev pub level_number : LogLevel → ℕ
level_number debug = 0
level_number info = 1
level_number warn = 2
level_number error = 3
level_number fatal = 4

unfoldable pub level2_str : LogLevel → Bytes
level2_str debug = codes "DEBUG"
level2_str info = codes "INFO"
level2_str warn = codes "WARN"
level2_str error = codes "ERROR"
level2_str fatal = codes "FATAL"

-- Where the writer's bytes go: the log file, or `std::cerr` while no file is open; `console_end` is the
-- `std::endl` behind a batch on the console.
pub data Sink : Type 0 where
  to_file to_console console_end : Sink

pub record AsyncLogger : Type 0 where
  pub is_running : Bool
  pub current_level : LogLevel
  pub dropped_count : ℕ
  pub buffer_size : ℕ
  pub current : Bytes
  pub next : Bytes
  pub is_open : Bool
  pub file_size : ℕ
  pub output : List (Sink × Bytes)

-- MAX_FILE_SIZE, 100 MB
abbrev pub max_file_size : ℕ
max_file_size = 104857600

abbrev pub is_empty : Bytes → Bool
is_empty [] = true
is_empty (_ ∷ _) = false

unfoldable pub new_logger : AsyncLogger
new_logger = record {
  is_running = false;
  current_level = debug;
  dropped_count = 0;
  buffer_size = 8388608;
  current = [];
  next = [];
  is_open = false;
  file_size = 0;
  output = [];
}

-- The old file is closed and put away, and a new one is opened, or not.
unfoldable pub roll_file : Bool → AsyncLogger → AsyncLogger
roll_file opens l = record l { is_open = opens; file_size = 0 }

unfoldable pub init : ℕ → Bool → AsyncLogger → AsyncLogger
unfolding roll_file
init size opens l = record (roll_file opens (record l { buffer_size = size })) { is_running = true }

unfoldable pub set_level : LogLevel → AsyncLogger → AsyncLogger
set_level level l = record l { current_level = level }

-- What `vsnprintf` left in `msg_buf`: nothing after an error, else at most 1023 bytes.
unfoldable pub message_of : Option Bytes → Bytes
message_of none = []
message_of (some text) = take 1023 text

-- The message of a line that is longer than a buffer is cut.
unfoldable pub cut_message : ℕ → Bytes → Bytes → Bytes
cut_message size header message =
    if ltb size (length header + length message + 1)
    then take (size - length header - 1) message
    else message

unfoldable pub need_length : ℕ → Bytes → Bytes → ℕ
need_length size header message =
    if ltb size (length header + length message + 1)
    then size
    else length header + length message + 1

unfoldable pub line_of : ℕ → Bytes → Bytes → Bytes
unfolding cut_message
line_of size header message = header ++ cut_message size header message ++ 10 ∷ []

unfoldable pub insert_line : Bytes → AsyncLogger → AsyncLogger
insert_line line l = record l { current = l.current ++ line }

-- The buffers change places when the next one is empty; else the line is dropped.
unfoldable pub make_room : Bytes → AsyncLogger → AsyncLogger
unfolding insert_line
make_room line l =
    if is_empty l.next
    then insert_line line (record l { current = l.next; next = l.current })
    else record l { dropped_count = l.dropped_count + 1 }

-- The locked section of `log`.
unfoldable pub log_line : Bytes → Bytes → AsyncLogger → AsyncLogger
unfolding need_length line_of make_room insert_line
log_line header message l =
    let line = line_of l.buffer_size header message in
    if ltb l.buffer_size (length l.current + need_length l.buffer_size header message)
    then make_room line l
    else insert_line line l

-- The guards come before the lock.
unfoldable pub log : LogLevel → Bytes → Option Bytes → AsyncLogger → AsyncLogger
unfolding log_line message_of
log level header text l =
    if not l.is_running
    then l
    else if ltb (level_number level) (level_number l.current_level)
    then l
    else log_line header (message_of text) l

-- The writer's locked section, from an empty write buffer.
unfoldable pub take_buffer : AsyncLogger → Bytes × AsyncLogger
take_buffer l =
    if not (is_empty l.next)
    then (l.next, record l { next = [] })
    else if not (is_empty l.current)
    then (l.current, record l { current = l.next; next = [] })
    else ([], l)

unfoldable pub roll_if_full : Bool → Bytes → AsyncLogger → AsyncLogger
unfolding roll_file
roll_if_full opens bytes l =
    if leb max_file_size (l.file_size + length bytes) then roll_file opens l else l

unfoldable pub put_out : Bytes → AsyncLogger → AsyncLogger
put_out bytes l =
    if l.is_open
    then record l {
      output = l.output ++ (to_file, bytes) ∷ [];
      file_size = l.file_size + length bytes;
    }
    else record l { output = l.output ++ (to_console, bytes) ∷ (console_end, 10 ∷ []) ∷ [] }

unfoldable pub write_buffer : Bool → Bytes → AsyncLogger → AsyncLogger
unfolding roll_if_full put_out
write_buffer opens bytes l =
    if not (is_empty bytes) then put_out bytes (roll_if_full opens bytes l) else l

-- The locked section of `writeWhenExit`: both buffers, the older one first.
unfoldable pub take_all : AsyncLogger → Bytes × AsyncLogger
take_all l = (l.next ++ l.current, record l { next = []; current = [] })

-- The last bytes go to the file only.
unfoldable pub put_last : Bytes → AsyncLogger → AsyncLogger
put_last bytes l = if l.is_open then record l { output = l.output ++ (to_file, bytes) ∷ [] } else l

unfoldable pub write_when_exit : Bool → AsyncLogger → AsyncLogger
unfolding take_all roll_if_full put_last
write_when_exit opens l =
    let taken = take_all l in
    if not (is_empty taken.0)
    then put_last taken.0 (roll_if_full opens taken.0 taken.1)
    else taken.1

-- The writer then leaves its loop, and is joined.
unfoldable pub shutdown : AsyncLogger → AsyncLogger
shutdown l = record l { is_running = false }
