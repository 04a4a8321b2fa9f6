-- ===== src/TimerQueue.antt =====
-- starry/net/include/timer.h, starry/net/src/timer.cpp, starry/net/include/timer_queue.h and
-- starry/net/src/timer_queue.cpp, in the loop's own thread. `heap` holds the Timer objects that are
-- not deleted, by address; a Timestamp, nanoseconds since the epoch in an int64_t, is that number
-- plus 2 ^ 63, so that `Timestamp::min()` is 0. A callback is known by what it does to the queue,
-- and `alloc` is the address that `new Timer` gives, `none` when it throws. The readings of the clock are arguments.
pub mod Sets
pub mod SetLaws
pub mod Timerfd
pub mod Inv
pub mod Removal
pub mod Expired
pub mod Frame
pub mod Safety
pub mod Faults
pub mod Requests
mod Tests
use Sets.{Entry, has, insert_entry, erase_entry, below, from}
use Timerfd.{TimerDescriptor, reset_timerfd}
use starry.Common.{
  ℕ, zero, suc, ◌+◌, ◌-◌, ◌*◌, ◌^◌, ◌<◌, ◌≡◌, Bool, true, false, not, ◌&&◌, ◌||◌, List, [], ◌∷◌,
  ◌++◌, Option, none, some, length, ltb, ◌==◌, if◌then◌else◌, lookup, put, erase, Outcome, ok, err,
  assertion, fatal, undefined, no_memory, ◌>>=◌, ◌>>◌, assert,
}

-- `interval` is `interval_`, which `restart` reads as microseconds.
pub record Timer (F : Type 0) : Type 0 where
  pub callback : F
  pub expiration : ℕ
  pub interval : ℕ
  pub repeat : Bool
  pub sequence : ℕ

pub record TimerQueue (S F : Type 0) : Type 0 where
  pub heap : List (ℕ × Timer F)
  pub timers : List Entry
  pub active : List Entry
  pub canceling : List Entry
  pub calling : Bool
  pub created : ℕ
  pub descriptor : S

-- What a callback may do to the queue: `addTimer`, with the clock's reading at that time, and
-- `cancel`.
pub data TimerAct (F : Type 0) : Type 0 where
  add : F → ℕ → ℕ → Bool → ℕ → TimerAct F
  cancel : ℕ → ℕ → TimerAct F

-- The default of a Timestamp, the epoch, and `UINTPTR_MAX`.
abbrev pub epoch : ℕ
epoch = 2 ^ 63

abbrev pub last_address : ℕ
last_address = 2 ^ 64 - 1

unfoldable pub restart : {F : Type 0} → Timer F → ℕ → Timer F
restart t now =
    if t.repeat
    then record t { expiration = now + 1000 * t.interval }
    else record t { expiration = 0 }

-- `it == timers_.end() || when < it->first`, at the beginning of a set.
unfoldable pub is_later : ℕ → List Entry → Bool
is_later when [] = true
is_later when ((e, a) ∷ rest) = ltb when e

module _ (k : TimerDescriptor) {F : Type 0} where
  unfoldable pub init : k.State → TimerQueue k.State F
  init s = record {
    heap = [];
    timers = [];
    active = [];
    canceling = [];
    calling = false;
    created = 0;
    descriptor = s;
  }

  -- The Timer that a pointer points to.
  unfoldable pub get : TimerQueue k.State F → ℕ → Outcome (Timer F)
  get q a = elim (lookup a q.heap) [ none ↦ err undefined | some t ↦ ok t ]

  unfoldable pub insert : TimerQueue k.State F → ℕ → Outcome (TimerQueue k.State F × Bool)
  insert q a = do
    assert (length q.timers == length q.active)
    t ← get q a
    assert (not (has (t.expiration, a) q.timers))
    assert (not (has (a, t.sequence) q.active))
    let timers = insert_entry (t.expiration, a) q.timers
    let active = insert_entry (a, t.sequence) q.active
    assert (length timers == length active)
    ok (record q { timers = timers; active = active }, is_later t.expiration q.timers)

  unfoldable pub set_descriptor : TimerQueue k.State F → ℕ → ℕ → Outcome (TimerQueue k.State F)
  set_descriptor q expiration now = do
    s ← reset_timerfd k q.descriptor expiration now
    ok (record q { descriptor = s })

  unfoldable pub add_timer_in_loop : TimerQueue k.State F → ℕ → ℕ → Outcome (TimerQueue k.State F)
  add_timer_in_loop q a now = do
    (q1, earliest_changed) ← insert q a
    t ← get q1 a
    if earliest_changed then set_descriptor q1 t.expiration now else ok q1

  -- The set of the active timers at work in `cancelInLoop`.
  unfoldable pub drop_timer : TimerQueue k.State F → ℕ → ℕ → Outcome (TimerQueue k.State F)
  drop_timer q a sequence = do
    t ← get q a
    assert (has (t.expiration, a) q.timers)
    ok (record q {
      timers = erase_entry (t.expiration, a) q.timers;
      heap = erase a q.heap;
      active = erase_entry (a, sequence) q.active;
    })

  unfoldable pub cancel_in_loop : TimerQueue k.State F → ℕ → ℕ → Outcome (TimerQueue k.State F)
  cancel_in_loop q a sequence = do
    assert (length q.timers == length q.active)
    q1 ←
        if has (a, sequence) q.active
        then drop_timer q a sequence
        else ok (
            if q.calling
            then record q { canceling = insert_entry (a, sequence) q.canceling }
            else q)
    assert (length q1.timers == length q1.active)
    ok q1

  -- The loop of `getExpired` over the set of the active timers.
  unfoldable pub erase_active : List Entry → TimerQueue k.State F → Outcome (TimerQueue k.State F)
  erase_active [] q = ok q
  erase_active ((e, a) ∷ rest) q = do
    t ← get q a
    assert (has (a, t.sequence) q.active)
    erase_active rest (record q { active = erase_entry (a, t.sequence) q.active })

  unfoldable pub get_expired :
      TimerQueue k.State F → ℕ → Outcome (TimerQueue k.State F × List Entry)
  get_expired q now = do
    assert (length q.timers == length q.active)
    let expired = below (now, last_address) q.timers
    let rest = from (now, last_address) q.timers
    assert (is_later now rest)
    q1 ← erase_active expired (record q { timers = rest })
    assert (length q1.timers == length q1.active)
    ok (q1, expired)

  -- The loop of `reset`.
  unfoldable pub reset_timer : TimerQueue k.State F → ℕ → ℕ → Outcome (TimerQueue k.State F)
  reset_timer q a now = do
    t ← get q a
    if t.repeat && not (has (a, t.sequence) q.canceling)
        then (insert (record q { heap = put a (restart t now) q.heap }) a >>= λ r. ok r.0)
        else ok (record q { heap = erase a q.heap })

  unfoldable pub reset_all : List Entry → TimerQueue k.State F → ℕ → Outcome (TimerQueue k.State F)
  reset_all [] q now = ok q
  reset_all ((e, a) ∷ rest) q now = do q1 ← reset_timer q a now; reset_all rest q1 now

  unfoldable pub next_expire : TimerQueue k.State F → List Entry → Outcome ℕ
  next_expire q [] = ok epoch
  next_expire q ((e, a) ∷ rest) = do t ← get q a; ok t.expiration

  -- `later` is the clock's reading in `resetTimerfd`.
  unfoldable pub reset : List Entry → TimerQueue k.State F → ℕ → ℕ → Outcome (TimerQueue k.State F)
  reset expired q now later = do
    q1 ← reset_all expired q now
    next ← next_expire q1 q1.timers
    if next == 0 then ok q1 else set_descriptor q1 next later

  module _ (alloc : List (ℕ × Timer F) → Option ℕ) (effects : F → List (TimerAct F)) where
    unfoldable pub new_address : List (ℕ × Timer F) → Outcome ℕ
    new_address h = elim (alloc h) [ none ↦ err no_memory | some a ↦ ok a ]

    -- The address and the sequence of the TimerId are given back too.
    unfoldable pub add_timer :
        TimerQueue k.State F → F → ℕ → ℕ → Bool → ℕ → Outcome (TimerQueue k.State F × ℕ × ℕ)
    add_timer q callback when interval repeat now = do
      a ← new_address q.heap
      let sequence = q.created + 1
      let t : Timer F = record {
        callback = callback;
        expiration = when;
        interval = interval;
        repeat = repeat;
        sequence = sequence;
      }
      q1 ← add_timer_in_loop (record q { heap = put a t q.heap; created = sequence }) a now
      ok (q1, a, sequence)

    unfoldable pub perform :
        List (TimerAct F) → TimerQueue k.State F → Outcome (TimerQueue k.State F)
    perform [] q = ok q
    perform (add callback when interval repeat now ∷ acts) q =
        add_timer q callback when interval repeat now >>= λ r. perform acts r.0
    perform (cancel a sequence ∷ acts) q = cancel_in_loop q a sequence >>= λ q1. perform acts q1

    -- The callbacks of the expired timers.
    unfoldable pub run_all : List Entry → TimerQueue k.State F → Outcome (TimerQueue k.State F)
    run_all [] q = ok q
    run_all ((e, a) ∷ rest) q = do t ← get q a; q1 ← perform (effects t.callback) q; run_all rest q1

    unfoldable pub handle_read : TimerQueue k.State F → ℕ → ℕ → Outcome (TimerQueue k.State F)
    handle_read q now later = do
      (q1, expired) ← get_expired q now
      q2 ← run_all expired (record q1 { calling = true; canceling = [] })
      reset expired (record q2 { calling = false }) now later
