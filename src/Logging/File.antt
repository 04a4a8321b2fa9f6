-- ===== src/Logging/File.antt =====
-- starry/base/log/include/log_file.h and starry/base/log/src/log_file.cpp. Times are nanoseconds
-- since the epoch; each reading of the clock and the result of each `open` is an argument: `none`
-- when it fails, and the size that the file has already when it does not. The name of a file tells the
-- second of the roll, so that a roll in the same second opens the same file again, at its end. `closed` holds what was
-- put into the files before this one, `start` the size of this one when it was opened.
pub mod Bounds
use starry.Common.{
  ℕ, ◌+◌, ◌-◌, ◌*◌, ◌/◌, ◌≡◌, Bool, true, false, not, ◌&&◌, List, [], ◌∷◌, ◌++◌, Option, none, some,
  length, ltb, leb, ◌==◌, if◌then◌else◌, Outcome, ok, err, ◌>>=◌, ◌>>◌, assert,
}

pub record LogFile : Type 0 where
  pub roll_size : ℕ
  pub flush_interval : ℕ
  pub check_every : ℕ
  pub count : ℕ
  pub last_roll : ℕ
  pub last_flush : ℕ
  pub is_open : Bool
  pub start : ℕ
  pub file : List ℕ
  pub flushed : ℕ
  pub closed : List (List ℕ)

abbrev pub second : ℕ
second = 1000000000

abbrev pub roll_per_seconds : ℕ
roll_per_seconds = 60 * 60 * 24

-- What one `append` learns of the world: the clock in it, the clock in `rollFile`, and the `open`.
pub record Reading : Type 0 where
  pub now : ℕ
  pub roll_now : ℕ
  pub opened : Option ℕ

-- `file_ << text`, which does nothing when no file is open.
unfoldable pub put_text : LogFile → List ℕ → LogFile
put_text l text = if l.is_open then record l { file = l.file ++ text } else l

-- `tellp`, which is -1 when no file is open, against the size.
unfoldable pub is_too_long : LogFile → Bool
is_too_long l = l.is_open && ltb l.roll_size (l.start + length l.file)

unfoldable pub flush : LogFile → LogFile
flush l = record l { flushed = length l.file }

-- Whether `getLogFileName` gives the name of the file that is open.
abbrev pub is_same_name : LogFile → ℕ → Bool
is_same_name l now = (l.last_roll / second == now / second) && l.is_open

-- `close` and `open`, of the same file or of another.
unfoldable pub reopen : LogFile → Bool → Option ℕ → LogFile
reopen l same opened =
    let l' = record l { closed = l.closed ++ (l.file ∷ []); file = []; flushed = 0 } in
    elim opened [
      | none ↦ record l' { is_open = false; start = 0 }
      | some n ↦ record l' { is_open = true; start = if same then l.start + length l.file else n }
    ]

unfoldable pub roll_file : LogFile → ℕ → Option ℕ → LogFile
roll_file l now opened =
    if ltb l.last_roll now
    then reopen (record l { last_roll = now; last_flush = now }) (is_same_name l now) opened
    else l

-- When enough lines have been counted.
unfoldable pub check_age : LogFile → Reading → LogFile
check_age l r =
    if ltb roll_per_seconds ((r.now - l.last_roll) / second)
    then roll_file l r.roll_now r.opened
    else if ltb (l.flush_interval * second) (r.now - l.last_flush)
    then flush (record l { last_flush = r.now })
    else l

-- `append_unlocked` after the text is put.
unfoldable pub check_roll : LogFile → Reading → LogFile
check_roll l r =
    if is_too_long l
    then roll_file l r.roll_now r.opened
    else if leb l.check_every (l.count + 1)
    then check_age (record l { count = 0 }) r
    else record l { count = l.count + 1 }

unfoldable pub append_unlocked : LogFile → List ℕ → Reading → LogFile
append_unlocked l text r = check_roll (put_text l text) r

-- `basename != "." && basename != ".."` and not empty.
abbrev pub is_name : List ℕ → Bool
is_name [] = false
is_name (a ∷ []) = not (a == 46)
is_name (a ∷ b ∷ []) = not (a == 46 && b == 46)
is_name (a ∷ b ∷ c ∷ rest) = true

-- The constructor; the first two readings of the clock are those of its initializers.
unfoldable pub open_log : List ℕ → ℕ → ℕ → ℕ → ℕ → ℕ → ℕ → Option ℕ → Outcome LogFile
open_log name roll_size flush_interval check_every now1 now2 now3 opened = do
  assert (is_name name)
  let l : LogFile = record {
    roll_size = roll_size;
    flush_interval = flush_interval;
    check_every = check_every;
    count = 0;
    last_roll = now1;
    last_flush = now2;
    is_open = false;
    start = 0;
    file = [];
    flushed = 0;
    closed = [];
  }
  ok (roll_file l now3 opened)

unfoldable pub append_all : LogFile → List (List ℕ × Reading) → LogFile
append_all l [] = l
append_all l ((text, r) ∷ rest) = append_all (append_unlocked l text r) rest
