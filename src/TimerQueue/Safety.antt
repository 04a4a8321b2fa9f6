-- ===== src/TimerQueue/Safety.antt =====
-- The whole of `handleRead` and `addTimer`, whatever the callbacks do.
use starry.Common.{
  ℕ, ◌+◌, ◌<◌, ◌≡◌, ◌≢◌, refl, sym, ap, ◌∙◌, inl, inr, Bool, true, false, not, ◌&&◌, ◌||◌, List, [],
  ◌∷◌, Option, none, some, ◌==◌, Bool-cases, if_ind, Option-cases, lookup, put, erase, ok, ◌>>=◌,
}
use starry.TimerQueue.Sets.{Entry, has, same_refl}
use starry.TimerQueue.Timerfd.{TimerDescriptor}
use starry.TimerQueue.Inv.{Inv, IsOut}
use starry.TimerQueue.Removal.{heap-Inv, erase-IsElsewhere}
use starry.TimerQueue.Expired.{IsHeld, AreHeld, get_expired_lem}
use starry.TimerQueue.Frame.{
  IsSound, map-IsSound, bind-IsSound, Inv-same, Keeps, AreHeld-but, AreHeld-map, placed,
  placed-live, insert-placed, set_descriptor-IsSound, cancel_in_loop_lem,
}
use starry.TimerQueue.{
  Timer, TimerQueue, TimerAct, add, cancel, epoch, restart, get, is_later, last_address,
  set_descriptor, add_timer_in_loop, reset_timer, reset_all, next_expire, reset, new_address,
  add_timer, perform, run_all, handle_read,
}

module _ (k : TimerDescriptor) {F : Type 0} where
  pub get-live :
      (q : TimerQueue k.State F) (a : ℕ) (t : Timer F) → lookup a q.heap ≡ some t → get k q a ≡ ok t
  unfolding get
  get-live q a t l = rw (get, l) refl

  -- The end of `addTimerInLoop`, for a timer that is put at an address in neither set.
  add_timer_in_loop-IsSound :
      (q : TimerQueue k.State F) (a : ℕ) (t : Timer F) (now : ℕ)
      → Inv k q
      → IsOut k q a
      → a < last_address
      → IsSound
          (λ q'. Inv k q' × ((b : ℕ) → a ≢ b → IsHeld k q b → IsHeld k q' b))
          (add_timer_in_loop k (record q { heap = put a t q.heap }) a now)
  unfolding add_timer_in_loop
  add_timer_in_loop-IsSound q a t now i o r =
      let p = insert-placed k q a t i o r in
      rw (add_timer_in_loop, p.0, get-live (placed k q a t) a t (placed-live k q a t))
        (if_ind (IsSound After) (is_later t.expiration q.timers) (set p.1 p.2) (p.1, p.2))
    where
      After : TimerQueue k.State F → Type 0
      After q' = Inv k q' × ((b : ℕ) → a ≢ b → IsHeld k q b → IsHeld k q' b)

      set :
          Inv k (placed k q a t)
          → ((b : ℕ) → a ≢ b → IsHeld k q b → IsHeld k (placed k q a t) b)
          → IsSound After (set_descriptor k (placed k q a t) t.expiration now)
      set j f =
          map-IsSound (Keeps k (placed k q a t)) After
            (set_descriptor k (placed k q a t) t.expiration now)
            (λ q' h. (h.0, λ b n m. h.1 b (f b n m)))
            (set_descriptor-IsSound k (placed k q a t) t.expiration now j)

  -- `reset` for one timer: it waits again, or it is deleted.
  reset_timer_lem :
      (q : TimerQueue k.State F) (a now : ℕ)
      → Inv k q
      → IsHeld k q a
      → (q' : TimerQueue k.State F) × (reset_timer k q a now ≡ ok q')
        × Inv k q'
        × ((b : ℕ) → a ≢ b → IsHeld k q b → IsHeld k q' b)
  unfolding reset_timer
  reset_timer_lem q a now i ((t, l), o, r) =
      elim (Bool-cases (t.repeat && not (has (a, t.sequence) q.canceling))) [
        | inl c ↦
            let p = insert-placed k q a (restart t now) i o r in
            (
              placed k q a (restart t now),
              rw (reset_timer, get-live q a t l, c, p.0) refl,
              p.1,
              p.2,
            )
        | inr c ↦ (
          record q { heap = erase a q.heap },
          rw (reset_timer, get-live q a t l, c) refl,
          heap-Inv k q (erase a q.heap) a (erase-IsElsewhere k q.heap a) o i,
          λ b n h. ((h.0.0, erase-IsElsewhere k q.heap a b n ∙ h.0.1), h.1, h.2),
        )
      ]

  reset_all_lem :
      (es : List Entry) (q : TimerQueue k.State F) (now : ℕ)
      → Inv k q
      → AreHeld k q es
      → (q' : TimerQueue k.State F) × (reset_all k es q now ≡ ok q') × Inv k q'
  unfolding reset_all
  reset_all_lem [] q now i h = (q, refl, i)
  reset_all_lem ((e, a) ∷ es) q now i (h, n, hs) =
      let r = reset_timer_lem q a now i h in
      let s = reset_all_lem es r.0 now r.2 (AreHeld-but k a q r.0 es r.3 n hs) in
      (s.0, rw (reset_all, r.1, s.1) refl, s.2)

  next_expire_lem :
      (q : TimerQueue k.State F) (es : List Entry)
      → Inv k q
      → q.timers ≡ es
      → (n : ℕ) × (next_expire k q es ≡ ok n)
  unfolding next_expire has
  next_expire_lem q [] i h = (epoch, refl)
  next_expire_lem q ((e, a) ∷ es) i h =
      let m : has (e, a) q.timers ≡ true =
        ap (has (e, a)) h ∙ ap (λ b. b || has (e, a) es) (same_refl (e, a)) in
      let w = i.timers_wait e a m in
      (w.1.timer.expiration, rw (next_expire, get-live q a w.1.timer w.1.live) refl)

  pub reset-IsSound :
      (es : List Entry) (q : TimerQueue k.State F) (now later : ℕ)
      → Inv k q
      → AreHeld k q es
      → IsSound (Inv k) (reset k es q now later)
  unfolding reset
  reset-IsSound es q now later i h =
      let r = reset_all_lem es q now i h in
      let n = next_expire_lem r.0 r.0.timers r.2 refl in
      rw (reset, r.1, n.1)
        (if_ind (IsSound (Inv k)) (n.0 == 0) r.2 (
          map-IsSound (Keeps k r.0) (Inv k) (set_descriptor k r.0 n.0 later) (λ q' m. m.0)
            (set_descriptor-IsSound k r.0 n.0 later r.2)))

  abbrev pub KeepsAfter : TimerQueue k.State F → TimerQueue k.State F × ℕ × ℕ → Type 0
  KeepsAfter q r = Keeps k q r.0

  module _ (alloc : List (ℕ × Timer F) → Option ℕ) (effects : F → List (TimerAct F)) where
    -- `new` gives an address of no live object, below the last, or throws.
    pub record Allocates : Type 0 where
      pub fresh : (h : List (ℕ × Timer F)) (a : ℕ) → alloc h ≡ some a → lookup a h ≡ none
      pub below_last : (h : List (ℕ × Timer F)) (a : ℕ) → alloc h ≡ some a → a < last_address

    none_ne_some : {t : Timer F} → none ≡ some t → ⊥
    none_ne_some h = cc

    pub fresh-IsOut :
        (q : TimerQueue k.State F) (a : ℕ) → lookup a q.heap ≡ none → Inv k q → IsOut k q a
    fresh-IsOut q a n i s = elim (Bool-cases (has (a, s) q.active)) [
      | inr p ↦ p
      | inl p ↦ absurd (none_ne_some (sym n ∙ (i.active_wait a s p).1.live))
    ]

    module _ (new : Allocates) where
      -- `addTimer` from the loop's thread.
      pub add_timer-IsSound :
          (q : TimerQueue k.State F) (callback : F) (when interval : ℕ) (repeat : Bool) (now : ℕ)
          → Inv k q
          → IsSound (KeepsAfter q) (add_timer k alloc effects q callback when interval repeat now)
      unfolding add_timer new_address
      add_timer-IsSound q callback when interval repeat now i = elim (Option-cases (alloc q.heap)) [
        | inl n ↦ rw (add_timer, new_address, n) tt
        | inr (a, m) ↦
            let t : Timer F = record {
              callback = callback;
              expiration = when;
              interval = interval;
              repeat = repeat;
              sequence = q.created + 1;
            } in
            rw (add_timer, new_address, m)
              (added a t (new.fresh q.heap a m) (new.below_last q.heap a m))
      ]
        where
          added :
              (a : ℕ) (t : Timer F)
              → lookup a q.heap ≡ none
              → a < last_address
              → IsSound (KeepsAfter q) (
                  add_timer_in_loop k
                    (record q { heap = put a t q.heap; created = q.created + 1 })
                    a
                    now
                  >>= λ q1. ok (q1, a, q.created + 1))
          added a t n l =
              bind-IsSound (λ q'. Inv k q' × ((b : ℕ) → a ≢ b → IsHeld k q b → IsHeld k q' b))
                (KeepsAfter q)
                (add_timer_in_loop k (record q { heap = put a t q.heap; created = q.created + 1 }) a
                  now)
                (λ q1. ok (q1, a, q.created + 1))
                (add_timer_in_loop-IsSound (record q { created = q.created + 1 }) a t now
                  (Inv-same k q q.calling q.canceling (q.created + 1) q.descriptor i)
                  (fresh-IsOut q a n i) l)
                (λ q1 p. (
                  p.0,
                  λ b h. p.1 b (λ e. none_ne_some (sym n ∙ ap (λ x. lookup x q.heap) e ∙ h.0.1)) h,
                ))

      -- Code that runs in the loop's thread, whatever it adds and cancels.
      perform-IsSound :
          (acts : List (TimerAct F)) (q : TimerQueue k.State F)
          → Inv k q
          → IsSound (Keeps k q) (perform k alloc effects acts q)
      unfolding perform
      perform-IsSound [] q i = (i, λ b h. h)
      perform-IsSound (add callback when interval repeat now ∷ acts) q i =
          bind-IsSound (KeepsAfter q) (Keeps k q)
            (add_timer k alloc effects q callback when interval repeat now)
            (λ r. perform k alloc effects acts r.0)
            (add_timer-IsSound q callback when interval repeat now i)
            (λ r p.
              map-IsSound (Keeps k r.0) (Keeps k q) (perform k alloc effects acts r.0)
                (λ q' h. (h.0, λ b m. h.1 b (p.1 b m))) (perform-IsSound acts r.0 p.0))
      perform-IsSound (cancel a s ∷ acts) q i =
          let c = cancel_in_loop_lem k q a s i in
          rw (perform, c.1)
            (map-IsSound (Keeps k c.0) (Keeps k q) (perform k alloc effects acts c.0)
              (λ q' h. (h.0, λ b m. h.1 b (c.2.1 b m))) (perform-IsSound acts c.0 c.2.0))

      run_all-IsSound :
          (es : List Entry) (q : TimerQueue k.State F)
          → Inv k q
          → AreHeld k q es
          → IsSound (Keeps k q) (run_all k alloc effects es q)
      unfolding run_all
      run_all-IsSound [] q i h = (i, λ b m. m)
      run_all-IsSound ((e, a) ∷ es) q i (((t, l), o, r), n, hs) =
          rw (run_all, get-live q a t l)
            (bind-IsSound (Keeps k q) (Keeps k q) (perform k alloc effects (effects t.callback) q)
              (λ q1. run_all k alloc effects es q1) (perform-IsSound (effects t.callback) q i)
              (λ q1 p.
                map-IsSound (Keeps k q1) (Keeps k q) (run_all k alloc effects es q1)
                  (λ q' m. (m.0, λ b x. m.1 b (p.1 b x)))
                  (run_all-IsSound es q1 p.0 (AreHeld-map k q q1 es p.1 hs))))

      -- `handleRead` never fails an assertion and never reads a deleted Timer.
      pub handle_read-IsSound :
          (q : TimerQueue k.State F) (now later : ℕ)
          → Inv k q
          → IsSound (Inv k) (handle_read k alloc effects q now later)
      unfolding handle_read
      handle_read-IsSound q now later i =
          let g = get_expired_lem k q now i in
          let q1 : TimerQueue k.State F = record g.0 { calling = true; canceling = [] } in
          let held : AreHeld k q1 g.1 = AreHeld-map k g.0 q1 g.1 (λ b h. h) g.7 in
          rw (handle_read, g.2)
            (bind-IsSound (Keeps k q1) (Inv k) (run_all k alloc effects g.1 q1)
              (λ q2. reset k g.1 (record q2 { calling = false }) now later)
              (run_all-IsSound g.1 q1 (Inv-same k g.0 true [] g.0.created g.0.descriptor g.6) held)
              (λ q2 p.
                reset-IsSound g.1 (record q2 { calling = false }) now later
                  (Inv-same k q2 false q2.canceling q2.created q2.descriptor p.0)
                  (AreHeld-map k q1 (record q2 { calling = false }) g.1 p.1 held)))
