-- ===== src/TimerQueue/Faults.antt =====
-- Where the queue ends the process: `resetTimerfd` refuses a time that has passed.
use starry.Common.{
  ℕ, ◌+◌, ◌≤◌, ◌<◌, ◌≡◌, refl, Bool, true, false, List, [], ◌∷◌, Option, some, lookup, erase, ok,
  err, fatal, arith,
}
use starry.TimerQueue.Sets.{has, before, below, from, erase_entry, same_refl}
use starry.TimerQueue.Timerfd.{TimerDescriptor, reset_timerfd-past}
use starry.TimerQueue.Inv.{Inv}
use starry.TimerQueue.Frame.{Inv-same, placed, placed-live, insert-placed}
use starry.TimerQueue.Safety.{get-live, Allocates, fresh-IsOut}
use starry.TimerQueue.{
  Timer, TimerQueue, TimerAct, epoch, get, is_later, last_address, set_descriptor,
  add_timer_in_loop, get_expired, erase_active, reset_timer, reset_all, next_expire, reset,
  new_address, add_timer, perform, run_all, handle_read,
}

module _ (k : TimerDescriptor) {F : Type 0} where
  set_descriptor-past :
      (q : TimerQueue k.State F) (expiration now : ℕ)
      → expiration < now
      → set_descriptor k q expiration now ≡ err fatal
  unfolding set_descriptor
  set_descriptor-past q expiration now h =
      rw (set_descriptor, reset_timerfd-past k q.descriptor expiration now h) refl

  abbrev emptied : TimerQueue k.State F → TimerQueue k.State F
  emptied q = record q { timers = []; active = [] }

  get_expired-last :
      (q : TimerQueue k.State F) (a : ℕ) (t : Timer F) (now : ℕ)
      → lookup a q.heap ≡ some t
      → q.timers ≡ (t.expiration, a) ∷ []
      → q.active ≡ (a, t.sequence) ∷ []
      → a < last_address
      → t.expiration ≤ now
      → get_expired k q now ≡ ok (emptied q, (t.expiration, a) ∷ [])
  unfolding get_expired erase_active below from get has erase_entry is_later
  get_expired-last q a t now l p s r n =
      rw
        (
          get_expired,
          p,
          s,
          below,
          from,
          first t.expiration a now last_address r n,
          erase_active,
          get,
          l,
          has,
          same_refl (a, t.sequence),
        )
        refl
    where
      first : (e a now last : ℕ) → a < last → e ≤ now → before (e, a) (now, last) ≡ true
      first e a now last r n = ground arith

  module _ (alloc : List (ℕ × Timer F) → Option ℕ) (effects : F → List (TimerAct F)) where
    -- `addTimer` of a timer that is earlier than all others, and whose time has passed when
    -- `resetTimerfd` reads the clock, ends the process.
    pub add_timer-past :
        Allocates k alloc effects
        → (q : TimerQueue k.State F) (a : ℕ) (callback : F) (when interval : ℕ) (repeat : Bool)
          (now : ℕ)
        → alloc q.heap ≡ some a
        → Inv k q
        → is_later when q.timers ≡ true
        → when < now
        → add_timer k alloc effects q callback when interval repeat now ≡ err fatal
    unfolding add_timer new_address add_timer_in_loop
    add_timer-past new q a callback when interval repeat now m i e h =
        let q0 = record q { created = q.created + 1 } in
        let t : Timer F = record {
          callback = callback;
          expiration = when;
          interval = interval;
          repeat = repeat;
          sequence = q.created + 1;
        } in
        let p =
          insert-placed k q0 a t (Inv-same k q q.calling q.canceling (q.created + 1) q.descriptor i)
            (fresh-IsOut k alloc effects q a (new.fresh q.heap a m) i)
            (new.below_last q.heap a m) in
        rw
          (
            add_timer,
            new_address,
            m,
            add_timer_in_loop,
            p.0,
            get-live k (placed k q0 a t) a t (placed-live k q0 a t),
            e,
            set_descriptor-past (placed k q0 a t) when now h,
          )
          refl

    -- When the only timer fires, is not a repeating one and its callback adds none, `reset` sets
    -- the descriptor for the epoch, and with a clock that is past it the process ends.
    pub handle_read-last :
        (q : TimerQueue k.State F) (a : ℕ) (t : Timer F) (now later : ℕ)
        → lookup a q.heap ≡ some t
        → q.timers ≡ (t.expiration, a) ∷ []
        → q.active ≡ (a, t.sequence) ∷ []
        → a < last_address
        → t.expiration ≤ now
        → t.repeat ≡ false
        → effects t.callback ≡ []
        → epoch < later
        → handle_read k alloc effects q now later ≡ err fatal
    unfolding handle_read run_all perform reset_all reset_timer reset next_expire
    handle_read-last q a t now later l p s r n c x e =
        let q1 : TimerQueue k.State F = record q {
          timers = [];
          active = [];
          canceling = [];
          calling = true;
        } in
        let q2 : TimerQueue k.State F = record q1 { calling = false } in
        rw
          (
            handle_read,
            get_expired-last q a t now l p s r n,
            run_all,
            get-live k q1 a t l,
            x,
            reset,
            reset_all,
            reset_timer,
            get-live k q2 a t l,
            c,
            next_expire,
          )
          (set_descriptor-past (record q2 { heap = erase a q.heap }) epoch later e)
