-- ===== src/TimerQueue/Tests.antt =====
-- Runs of the timer queue, with a descriptor that only remembers the time it is set for.
use starry.Common.{
  ℕ, zero, suc, ◌+◌, ◌-◌, ◌*◌, ◌≤◌, ◌<◌, ◌≡◌, refl, ap, Bool, true, false, List, [], ◌∷◌, ◌++◌,
  Option, none, some, ltb, ◌==◌, if◌then◌else◌, max, ◌⊎◌, inl, inr, lt→ltb, ltb→lt, ne→==_false,
  lookup, put, erase, Outcome, ok, err, fatal, arith,
}
use starry.TimerQueue.Sets.{Entry, has, insert_entry, erase_entry, below, from}
use starry.TimerQueue.Timerfd.{
  ℤ, pos, negsuc, TimerDescriptor, IsNegative, per_second, reset_timerfd, how_much_time_from_now,
}
use starry.TimerQueue.Inv.{Inv, init-Inv}
use starry.TimerQueue.Expired.{AreHeld, get_expired_lem}
use starry.TimerQueue.Frame.{IsSound}
use starry.TimerQueue.Safety.{Allocates, add_timer-IsSound, handle_read-IsSound}
use starry.TimerQueue.Faults.{add_timer-past, handle_read-last}
use starry.TimerQueue.{
  Timer, TimerQueue, TimerAct, add, cancel, epoch, last_address, init, is_later, get, insert,
  set_descriptor, add_timer_in_loop, cancel_in_loop, get_expired, new_address, add_timer,
  handle_read, erase_active, run_all, perform, reset, reset_all, reset_timer, next_expire, restart,
  drop_timer,
}

abbrev set_fields : ℤ → ℤ → Option (Option ℕ)
set_fields (pos n) (pos m) =
    if ltb m per_second
    then some (if n * per_second + m == 0 then none else some (n * per_second + m))
    else none
set_fields (negsuc n) m = none
set_fields (pos n) (negsuc m) = none

set_fields-refuses : (x y : ℤ) → IsNegative x ⊎ IsNegative y → set_fields x y ≡ none
set_fields-refuses (negsuc n) m h = refl
set_fields-refuses (pos n) (negsuc m) h = refl
set_fields-refuses (pos n) (pos m) (inl h) = absurd h
set_fields-refuses (pos n) (pos m) (inr h) = absurd h

set_fields-takes :
    (n m : ℕ)
    → m < per_second
    → set_fields (pos n) (pos m)
      ≡ some (if n * per_second + m == 0 then none else some (n * per_second + m))
set_fields-takes n m h = rw (lt→ltb m per_second h) refl

abbrev test_descriptor : TimerDescriptor
test_descriptor = record {
  State = Option ℕ;
  settime = λ s t. set_fields t.seconds t.nanoseconds;
  fires = λ s. s;
  refuses = λ s t h. set_fields-refuses t.seconds t.nanoseconds h;
  takes = λ s n m h. (
    if n * per_second + m == 0 then none else some (n * per_second + m),
    set_fields-takes n m h,
    refl,
  );
}

abbrev t0 : ℕ
t0 = epoch + 5 * per_second

-- Callback 1 adds a timer and cancels the one that it belongs to, all others do nothing.
abbrev effects : ℕ → List (TimerAct ℕ)
effects zero = []
effects (suc zero) = add 0 (t0 + 9 * per_second) 0 false (t0 + per_second) ∷ cancel 1 1 ∷ []
effects (suc (suc n)) = []

abbrev highest : List (ℕ × Timer ℕ) → ℕ
highest [] = 0
highest ((a, t) ∷ h) = max a (highest h)

above-highest : (a : ℕ) (h : List (ℕ × Timer ℕ)) → highest h < a → lookup a h ≡ none
unfolding lookup
above-highest a [] l = refl
above-highest a ((b, t) ∷ h) l =
    rw (ne→==_false b a (λ e. omega arith)) (above-highest a h (omega arith))

abbrev alloc : List (ℕ × Timer ℕ) → Option ℕ
alloc h = if ltb (highest h + 1) last_address then some (highest h + 1) else none

some-cond : (b : Bool) (x a : ℕ) → (if b then some x else none) ≡ some a → (b ≡ true) × (x ≡ a)
some-cond true x a h = (refl, ap (λ o. elim o [ none ↦ 0 | some y ↦ y ]) h)
some-cond false x a h = absurd (cc)

alloc-Allocates : Allocates test_descriptor alloc effects
alloc-Allocates = record {
  fresh = λ h a m.
      let c = some-cond (ltb (highest h + 1) last_address) (highest h + 1) a m in
      above-highest a h (omega (arith, c.1));
  below_last = λ h a m.
      let c = some-cond (ltb (highest h + 1) last_address) (highest h + 1) a m in
      omega (arith, c.1, ltb→lt (highest h + 1) last_address c.0);
}

abbrev empty : TimerQueue (Option ℕ) ℕ
empty = init test_descriptor none

-- A repeating timer at address 1 is added.
abbrev one : TimerQueue (Option ℕ) ℕ
one = elim (add_timer test_descriptor alloc effects empty 1 (t0 + per_second) 5000 true t0) [
  | err f ↦ empty
  | ok r ↦ r.0
]

one-Inv : Inv test_descriptor one
unfolding init add_timer new_address add_timer_in_loop insert get is_later set_descriptor
    reset_timerfd how_much_time_from_now lookup put erase has insert_entry erase_entry
one-Inv =
    (add_timer-IsSound test_descriptor alloc effects alloc-Allocates empty 1 (t0 + per_second) 5000
      true t0 (init-Inv test_descriptor none)).0

handle_read-IsSound_example :
    IsSound
      (Inv test_descriptor)
      (handle_read test_descriptor alloc effects one (t0 + per_second) (t0 + per_second + 1))
handle_read-IsSound_example =
    handle_read-IsSound test_descriptor alloc effects alloc-Allocates one (t0 + per_second)
      (t0 + per_second + 1) one-Inv

get_expired_lem_example :
    (q' : TimerQueue (Option ℕ) ℕ) × (expired : List Entry) × (get_expired test_descriptor one
        (t0 + 2 * per_second)
      ≡ ok (q', expired))
    × (expired ++ q'.timers ≡ one.timers)
    × ((e a : ℕ) → has (e, a) expired ≡ true → e ≤ t0 + 2 * per_second)
    × ((e a : ℕ) → has (e, a) q'.timers ≡ true → t0 + 2 * per_second < e)
    × Inv test_descriptor q'
    × AreHeld test_descriptor q' expired
get_expired_lem_example = get_expired_lem test_descriptor one (t0 + 2 * per_second) one-Inv

is_later-empty : is_later t0 empty.timers ≡ true
unfolding init is_later
is_later-empty = refl

add_timer-past_example :
    add_timer test_descriptor alloc effects empty 0 t0 0 false (t0 + 1) ≡ err fatal
unfolding init
add_timer-past_example =
    add_timer-past test_descriptor alloc effects alloc-Allocates empty 1 0 t0 0 false (t0 + 1) refl
      (init-Inv test_descriptor none) is_later-empty (omega arith)

abbrev last : TimerQueue (Option ℕ) ℕ
last = elim (add_timer test_descriptor alloc effects empty 0 (t0 + per_second) 0 false t0) [
  | err f ↦ empty
  | ok r ↦ r.0
]

abbrev last_timer : Timer ℕ
last_timer = record {
  callback = 0;
  expiration = t0 + per_second;
  interval = 0;
  repeat = false;
  sequence = 1;
}

last_live : lookup 1 last.heap ≡ some last_timer
unfolding init add_timer new_address add_timer_in_loop insert get is_later set_descriptor
    reset_timerfd how_much_time_from_now lookup put erase has insert_entry erase_entry
last_live = refl

last_timers : last.timers ≡ (last_timer.expiration, 1) ∷ []
unfolding init add_timer new_address add_timer_in_loop insert get is_later set_descriptor
    reset_timerfd how_much_time_from_now lookup put erase has insert_entry erase_entry
last_timers = refl

last_active : last.active ≡ (1, last_timer.sequence) ∷ []
unfolding init add_timer new_address add_timer_in_loop insert get is_later set_descriptor
    reset_timerfd how_much_time_from_now lookup put erase has insert_entry erase_entry
last_active = refl

-- A repeating timer fires, its callback cancels it and adds another, which the descriptor is set for.
abbrev outcome_of : Outcome (TimerQueue (Option ℕ) ℕ) → List Entry × Option ℕ
outcome_of (err f) = ([], none)
outcome_of (ok q) = (q.timers, q.descriptor)

handle_read-sets :
    outcome_of
      (handle_read test_descriptor alloc effects one (t0 + per_second) (t0 + per_second + 1))
    ≡ ((t0 + 9 * per_second, 2) ∷ [], some (8 * per_second - 1))
unfolding init add_timer new_address add_timer_in_loop insert get is_later set_descriptor
    reset_timerfd how_much_time_from_now lookup put erase has insert_entry erase_entry handle_read
    get_expired erase_active below from run_all perform reset reset_all reset_timer next_expire
    restart cancel_in_loop drop_timer
handle_read-sets = refl

handle_read-last_example :
    handle_read test_descriptor alloc effects last (t0 + per_second) (t0 + per_second + 1)
    ≡ err fatal
handle_read-last_example =
    handle_read-last test_descriptor alloc effects last 1 last_timer (t0 + per_second)
      (t0 + per_second + 1) last_live last_timers last_active (omega arith) (omega arith) refl refl
      (omega arith)
