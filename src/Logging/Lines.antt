-- ===== src/Logging/Lines.antt =====
-- starry/base/log/include/logging.h and starry/base/log/src/logging.cpp: one line of the log, from the
-- macro to `g_output`. The texts of the time, of the thread, of an errno and of a number are the C++
-- library's and are arguments; texts are bytes.
pub mod Texts
mod Tests
use starry.Common.{
  ℕ, ◌*◌, ◌≡◌, Bool, true, false, List, [], ◌∷◌, ◌++◌, ◌==◌, leb, if◌then◌else◌, Outcome, ok, err,
  fatal,
}
use starry.Logging.{Bytes, append_stream}

pub data LogLevel : Type 0 where
  trace debug info warn error fatal_level : LogLevel

abbrev pub small_buffer : ℕ
small_buffer = 4 * 1024

-- The order of the enumeration.
abbrev pub level_number : LogLevel → ℕ
level_number trace = 0
level_number debug = 1
level_number info = 2
level_number warn = 3
level_number error = 4
level_number fatal_level = 5

unfoldable pub level_to_string : LogLevel → Bytes
level_to_string trace = b'T' ∷ b'R' ∷ b'A' ∷ b'C' ∷ b'E' ∷ b' ' ∷ []
level_to_string debug = b'D' ∷ b'E' ∷ b'B' ∷ b'U' ∷ b'G' ∷ b' ' ∷ []
level_to_string info = b'I' ∷ b'N' ∷ b'F' ∷ b'O' ∷ b' ' ∷ []
level_to_string warn = b'W' ∷ b'A' ∷ b'R' ∷ b'N' ∷ b' ' ∷ []
level_to_string error = b'E' ∷ b'R' ∷ b'R' ∷ b'O' ∷ b'R' ∷ b' ' ∷ []
level_to_string fatal_level = b'F' ∷ b'A' ∷ b'T' ∷ b'A' ∷ b'L' ∷ b' ' ∷ []

-- Whether the macro of a level makes a Logger, by the level of the log.
unfoldable pub is_logged : LogLevel → LogLevel → Bool
is_logged global trace = leb (level_number global) 0
is_logged global debug = leb (level_number global) 1
is_logged global info = leb (level_number global) 2
is_logged global warn = true
is_logged global error = true
is_logged global fatal_level = true

-- Where a line is logged, and the texts of the library at that moment.
pub record Place : Type 0 where
  pub time : Bytes
  pub thread_id : Bytes
  pub file_name : Bytes
  pub line : Bytes

-- `filename.substr(filename.find_last_of('/') + 1)`
unfoldable pub has_slash : Bytes → Bool
has_slash [] = false
has_slash (c ∷ path) = if c == b'/' then true else has_slash path

unfoldable pub after_slash : Bytes → Bytes
unfolding has_slash
after_slash [] = []
after_slash (c ∷ path) =
    let rest = after_slash path in if has_slash (c ∷ path) then rest else c ∷ path

abbrev pub put_all : Bytes → List Bytes → Bytes
put_all stream [] = stream
put_all stream (text ∷ texts) = put_all (append_stream small_buffer stream text) texts

-- The texts that the two constructors put into the stream, and those of `finish`.
unfoldable pub prefix_texts : LogLevel → Place → List Bytes
unfolding level_to_string
prefix_texts level p =
    p.time ∷ (b'[' ∷ []) ∷ p.thread_id ∷ (b']' ∷ b' ' ∷ []) ∷ level_to_string level ∷ []

unfoldable pub errno_texts : ℕ → Bytes → Bytes → List Bytes
errno_texts errno message number =
    if errno == 0
    then []
    else message
      ∷ (b' ' ∷ b'(' ∷ b'e' ∷ b'r' ∷ b'r' ∷ b'n' ∷ b'o' ∷ b'=' ∷ [])
      ∷ number
      ∷ (b')' ∷ b' ' ∷ [])
      ∷ []

unfoldable pub finish_texts : Place → List Bytes
unfolding after_slash
finish_texts p =
    (b' ' ∷ b'-' ∷ b' ' ∷ []) ∷ after_slash p.file_name ∷ (b':' ∷ []) ∷ p.line ∷ (10 ∷ []) ∷ []

-- What `g_output` was given, whether `g_flush` was called, and how it ends: FATAL aborts.
pub record Sink : Type 0 where
  pub written : List Bytes
  pub flushed : Bool

unfoldable pub is_fatal : LogLevel → Bool
is_fatal level = level_number level == 5

-- The destructor of a Logger with what is in its stream.
unfoldable pub close_logger : LogLevel → Bytes → Sink → Sink × Outcome (Unit {0})
unfolding is_fatal
close_logger level line s = (
  record {
    written = s.written ++ (line ∷ []);
    flushed = if is_fatal level then true else s.flushed;
  },
  if is_fatal level then err fatal else ok tt,
)

-- A whole statement `LOG_X << a << b;`. The errno is 0 for the macros without one.
unfoldable pub log :
    LogLevel → LogLevel → ℕ → Bytes → Bytes → Place → List Bytes → Sink → Sink × Outcome (Unit {0})
unfolding is_logged prefix_texts errno_texts finish_texts close_logger
log global level errno message number p texts s =
    if is_logged global level
    then close_logger level
        (put_all
          (put_all (put_all (put_all [] (prefix_texts level p)) (errno_texts errno message number))
            texts)
          (finish_texts p))
        s
    else (s, ok tt)
