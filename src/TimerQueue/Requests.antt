-- ===== src/TimerQueue/Requests.antt =====
-- `runAt`, `runAfter`, `runEvery` and `cancel` of starry/net/src/eventloop.cpp, with the constructor of
-- a Timer. A number of seconds, a double in the source, is a whole number of nanoseconds; `clock` is
-- what `Clock::now()` gives to the loop and `now` what it gives to the queue.
use starry.Common.{
  ℕ, ◌+◌, ◌*◌, ◌/◌, ◌<◌, ◌≡◌, ap, ◌∙◌, Bool, false, List, Option, ltb, lt→ltb, if◌then◌else◌,
  Outcome, arith,
}
use starry.TimerQueue.Timerfd.{TimerDescriptor}
use starry.TimerQueue.{Timer, TimerQueue, TimerAct, restart, add_timer, cancel_in_loop}

-- `static_cast<int64_t>(interval * 1000)`, and `interval > 0`
unfoldable pub interval_of : ℕ → ℕ
interval_of nanoseconds = nanoseconds / 1000000

unfoldable pub repeats : ℕ → Bool
repeats nanoseconds = ltb 0 nanoseconds

module _ (k : TimerDescriptor) {F : Type 0} (alloc : List (ℕ × Timer F) → Option ℕ)
    (effects : F → List (TimerAct F)) where
  unfoldable pub run_at : TimerQueue k.State F → F → ℕ → ℕ → Outcome (TimerQueue k.State F × ℕ × ℕ)
  run_at q callback time now = add_timer k alloc effects q callback time 0 false now

  unfoldable pub run_after :
      TimerQueue k.State F → F → ℕ → ℕ → ℕ → Outcome (TimerQueue k.State F × ℕ × ℕ)
  unfolding run_at
  run_after q callback delay clock now = run_at q callback (clock + delay) now

  unfoldable pub run_every :
      TimerQueue k.State F → F → ℕ → ℕ → ℕ → Outcome (TimerQueue k.State F × ℕ × ℕ)
  unfolding interval_of repeats
  run_every q callback interval clock now =
      add_timer k alloc effects q callback (clock + interval) (interval_of interval)
        (repeats interval) now

unfoldable pub cancel :
    (k : TimerDescriptor) {F : Type 0}
    → TimerQueue k.State F
    → ℕ
    → ℕ
    → Outcome (TimerQueue k.State F)
cancel k q timer sequence = cancel_in_loop k q timer sequence

-- A timer that is to repeat after a number of whole seconds, a thousand times a thousand
-- microseconds each, is set again after as many milliseconds.
pub restart-interval_of :
    {F : Type 0} (t : Timer F) (seconds now : ℕ)
    → 0 < seconds
    → t.interval ≡ interval_of (seconds * 1000000000)
    → t.repeat ≡ repeats (seconds * 1000000000)
    → (restart t now).expiration ≡ now + seconds * 1000000
unfolding restart interval_of repeats
restart-interval_of t seconds now h e r =
    ap
      (λ b.
        (if b
          then record t { expiration = now + 1000 * t.interval }
          else record t { expiration = 0 }).expiration)
      (r ∙ lt→ltb 0 (seconds * 1000000000) (omega arith))
    ∙ omega arith
