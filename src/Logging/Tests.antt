-- ===== src/Logging/Tests.antt =====
-- Runs of the two sides of the log, with buffers of four bytes, and of a log file.
use starry.Common.{ℕ, ◌*◌, ◌≡◌, refl, inl, true, List, [], ◌∷◌, ◌++◌, some, Outcome, ok, err, arith}
use starry.Logging.{
  Bytes, AsyncLogging, start, stop, append, swap, write, drop_excess, write_buffers, refill,
  split_back, avail, append_stream, spare,
}
use starry.Logging.Steps.{
  Event, line, ask_stop, writer, run, step, writer_from, data_of, bytes_of, Inv,
}
use starry.Logging.Kept.{taken, run-ordered, run-IsEnded, IsEnded}
use starry.Logging.File.{LogFile, Reading, second, append_all, open_log}
use starry.Logging.File.Bounds.{IsFine, all_bytes, texts, append_all_lem, open_log-same_time}

abbrev events : List Event
events =
    line (1 ∷ 2 ∷ [])
    ∷ writer
    ∷ line (3 ∷ 4 ∷ 5 ∷ [])
    ∷ writer
    ∷ line (6 ∷ [])
    ∷ writer
    ∷ ask_stop
    ∷ []

abbrev after : Outcome AsyncLogging → Bytes × Bytes
after (err f) = ([], [])
after (ok l) = (l.output, bytes_of l.current)

-- What is logged after the last swap before `stop` is not written.
run-loses : after (run 4 events start) ≡ (1 ∷ 2 ∷ 3 ∷ 4 ∷ 5 ∷ [], 6 ∷ [])
unfolding run step writer_from start stop append swap write drop_excess write_buffers refill
    split_back avail append_stream spare
run-loses = refl

run-ordered_example :
    (l : AsyncLogging) × (run 4 events start ≡ ok l)
    × (l.dropped ≡ 0
        → l.output ++ (data_of l.to_write ++ (data_of l.buffers ++ bytes_of l.current))
          ≡ taken 4 events)
run-ordered_example = run-ordered 4 events

abbrev stopped : AsyncLogging
stopped = stop start

stopped-Inv : Inv stopped
unfolding stop start
stopped-Inv = record {
  current = ([], refl);
  buffers = tt;
  next = inl refl;
  spares = (refl, refl, refl);
  ordered = λ h. refl;
}

stopped-IsEnded : IsEnded 4 stopped
unfolding stop start
stopped-IsEnded = (refl, inl refl)

run-IsEnded_example :
    (l' : AsyncLogging) × (run 4 events stopped ≡ ok l')
    × (l'.output ≡ stopped.output)
    × IsEnded 4 l'
run-IsEnded_example = run-IsEnded 4 events stopped stopped-Inv stopped-IsEnded

abbrev log_file : LogFile
log_file = record {
  roll_size = 4;
  flush_interval = 3;
  check_every = 2;
  count = 0;
  last_roll = 7 * second;
  last_flush = 7 * second;
  is_open = true;
  start = 0;
  file = [];
  flushed = 0;
  closed = [];
}

log_file-IsFine : IsFine log_file
log_file-IsFine = record { opened = refl; counted = omega arith; bounded = omega arith }

abbrev at_second : ℕ → Reading
at_second n = record { now = n * second; roll_now = n * second; opened = some 0 }

abbrev lines : List (List ℕ × Reading)
lines = (1 ∷ 2 ∷ 3 ∷ [], at_second 8) ∷ (4 ∷ 5 ∷ [], at_second 9) ∷ (6 ∷ [], at_second 14) ∷ []

append_all_lem_example :
    IsFine (append_all log_file lines)
    × (all_bytes (append_all log_file lines) ≡ all_bytes log_file ++ texts lines)
append_all_lem_example = append_all_lem lines log_file (7 * second) log_file-IsFine (omega arith) (
  (omega arith, (0, refl, omega arith)),
  ((omega arith, (0, refl, omega arith)), ((omega arith, (0, refl, omega arith)), tt)),
)

open_log-same_time_example :
    (l : LogFile) × (open_log (97 ∷ []) 4 3 1024 second second second (some 0) ≡ ok l)
    × (all_bytes (append_all l lines) ≡ [])
open_log-same_time_example =
    open_log-same_time (97 ∷ []) 4 3 1024 second second second (some 0) lines refl (omega arith)
      (omega arith)
