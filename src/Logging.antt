-- ===== src/Logging.antt =====
-- starry/base/log/include/log_stream.h and starry/base/log/src/async_logger.cpp: the buffers of the
-- log and its two sides, `append` and the writer's thread. A LogStream is the list of its bytes up to `cur_`; `size` is
-- its template argument, `kLargeBuffer` for these buffers. A unique_ptr is `none` when it is null.
-- `accepted` and `dropped` are the bytes that were taken and the buffers that were thrown away so far.
pub mod Steps
pub mod Appends
pub mod Writer
pub mod Kept
pub mod File
pub mod Lines
mod Tests
use starry.Common.{
  ℕ, ◌+◌, ◌-◌, ◌*◌, Bool, true, false, List, [], ◌∷◌, ◌++◌, Option, none, some, length, take, min,
  ltb, if◌then◌else◌, Outcome, ok, err, undefined, ◌>>=◌, ◌>>◌,
}

abbrev pub large_buffer : ℕ
large_buffer = 4 * 1024 * 1024

abbrev pub Bytes : Type 0
Bytes = List ℕ

-- Where the writer is in its loop: before the test of `running_`, inside `wait_for`, after the
-- swap, and past the loop.
pub data Phase : Type 0 where
  testing waiting writing finished : Phase

pub record AsyncLogging : Type 0 where
  pub running : Bool
  pub current : Option Bytes
  pub next : Option Bytes
  pub buffers : List (Option Bytes)
  pub phase : Phase
  pub new1 : Option Bytes
  pub new2 : Option Bytes
  pub to_write : List (Option Bytes)
  pub output : Bytes
  pub accepted : Bytes
  pub dropped : ℕ

-- The object that a unique_ptr points to.
abbrev pub deref : Option Bytes → Outcome Bytes
deref none = err undefined
deref (some b) = ok b

-- `back()` with the elements before it.
unfoldable pub split_back : List (Option Bytes) → Outcome (List (Option Bytes) × Option Bytes)
split_back [] = err undefined
split_back (b ∷ []) = ok ([], b)
split_back (b ∷ c ∷ rest) = split_back (c ∷ rest) >>= λ r. ok (b ∷ r.0, r.1)

-- `start`
unfoldable pub start : AsyncLogging
start = record {
  running = true;
  current = some [];
  next = some [];
  buffers = [];
  phase = testing;
  new1 = some [];
  new2 = some [];
  to_write = [];
  output = [];
  accepted = [];
  dropped = 0;
}

unfoldable pub stop : AsyncLogging → AsyncLogging
stop l = record l { running = false }

module _ (size : ℕ) where
  -- LogStream's `avail` and `append`.
  unfoldable pub avail : Bytes → ℕ
  avail b = size - length b

  unfoldable pub append_stream : Bytes → Bytes → Bytes
  append_stream b str = b ++ take (min (length str) (avail b)) str

  -- The buffer that `append` goes on with when the current one is full: the next one, or a new one.
  unfoldable pub spare : Option Bytes → Option Bytes
  spare (some b) = some b
  spare none = some []

  -- AsyncLogging's `append`.
  unfoldable pub append : AsyncLogging → Bytes → Outcome AsyncLogging
  append l line = do
    b ← deref l.current
    let l' = record l { accepted = l.accepted ++ take size line }
    if ltb (length line) (avail b)
        then ok (record l' { current = some (append_stream b line) })
        else (deref (spare l.next) >>= λ c. ok (record l' {
          buffers = l.buffers ++ (l.current ∷ []);
          next = none;
          current = some (append_stream c line);
        }))

  -- The block of `threadFunc` under the mutex, after the wait.
  unfoldable pub swap : AsyncLogging → AsyncLogging
  swap l =
      let swapped = record l {
        phase = writing;
        current = l.new1;
        new1 = none;
        to_write = l.buffers ++ (l.current ∷ []);
        buffers = l.to_write;
      } in
      elim l.next [ none ↦ record swapped { next = l.new2; new2 = none } | some b ↦ swapped ]

  -- More than 25 buffers: all but two are dropped.
  unfoldable pub drop_excess : AsyncLogging → AsyncLogging
  drop_excess l =
      if ltb 25 (length l.to_write)
      then record l { to_write = take 2 l.to_write; dropped = l.dropped + (length l.to_write - 2) }
      else l

  unfoldable pub write_buffers : List (Option Bytes) → Bytes → Outcome Bytes
  write_buffers [] output = ok output
  write_buffers (p ∷ rest) output = do b ← deref p; write_buffers rest (output ++ b)

  -- A null spare takes the last buffer, cleared; gives the spare and the buffers that are left.
  unfoldable pub refill :
      Option Bytes → List (Option Bytes) → Outcome (Option Bytes × List (Option Bytes))
  refill (some b) to_write = ok (some b, to_write)
  refill none to_write = do (rest, p) ← split_back to_write; b ← deref p; ok (some [], rest)

  -- The rest of the loop's body.
  unfoldable pub write : AsyncLogging → Outcome AsyncLogging
  write l = do
    let l1 = drop_excess l
    output ← write_buffers l1.to_write l1.output
    let kept = if ltb 2 (length l1.to_write) then take 2 l1.to_write else l1.to_write
    (new1, kept1) ← refill l1.new1 kept
    (new2, kept2) ← refill l1.new2 kept1
    ok (record l1 { phase = testing; output = output; new1 = new1; new2 = new2; to_write = [] })
