-- ===== src/TimerQueue/Frame.antt =====
-- What `insert`, `addTimer` and `cancelInLoop` leave as it was: the invariant, and the timers whose callbacks are yet to run.
use starry.Common.{
  ℕ, ◌<◌, ◌≡◌, ◌≢◌, refl, ap, ◌∙◌, inl, inr, Bool, false, List, [], ◌∷◌, some, length, ==_refl,
  Bool-cases, Option-cases, lookup, put, erase, lookup-put, Outcome, ok, err, Fault, assertion,
  fatal, undefined, too_long, no_memory, ◌>>=◌,
}
use starry.TimerQueue.Sets.{Entry, has, insert_entry}
use starry.TimerQueue.SetLaws.{has-either, same-first_ne}
use starry.TimerQueue.Timerfd.{TimerDescriptor, how_much_time_from_now, reset_timerfd}
use starry.TimerQueue.Inv.{Waits, Inv, IsOut, inserted, inserted-Inv, insert_lem}
use starry.TimerQueue.Removal.{
  removed, removed-Inv, removed-IsOut, heap-Inv, erase-IsElsewhere, put-IsElsewhere,
}
use starry.TimerQueue.Expired.{IsHeld, IsNotIn, AreHeld, IsOut-removed}
use starry.TimerQueue.{
  Timer, TimerQueue, get, insert, is_later, last_address, set_descriptor, drop_timer,
  cancel_in_loop,
}

-- LOG_FATAL and the exception of `new`: neither a failed assertion nor undefined behaviour.
abbrev pub IsEnd : Fault → Type 0
IsEnd assertion = ⊥
IsEnd fatal = Unit {0}
IsEnd undefined = ⊥
IsEnd too_long = ⊥
IsEnd no_memory = Unit {0}

-- The run ends in one of these two ways, or with a result of which `P` holds.
abbrev pub IsSound : {A : Type 0} → (A → Type 0) → Outcome A → Type 0
IsSound P (err fault) = IsEnd fault
IsSound P (ok a) = P a

pub map-IsSound :
    {A : Type 0} (P Q : A → Type 0) (m : Outcome A)
    → ((a : A) → P a → Q a)
    → IsSound P m
    → IsSound Q m
map-IsSound P Q (err fault) f h = h
map-IsSound P Q (ok a) f h = f a h

pub bind-IsSound :
    {A B : Type 0} (P : A → Type 0) (Q : B → Type 0) (m : Outcome A) (next : A → Outcome B)
    → IsSound P m
    → ((a : A) → P a → IsSound Q (next a))
    → IsSound Q (m >>= next)
bind-IsSound P Q (err fault) next h f = h
bind-IsSound P Q (ok a) next h f = f a h

reset_timerfd-IsSound :
    (k : TimerDescriptor) (s : k.State) (expiration now : ℕ)
    → IsSound (λ _. Unit {0}) (reset_timerfd k s expiration now)
unfolding reset_timerfd
reset_timerfd-IsSound k s expiration now =
    elim (Option-cases (k.settime s (how_much_time_from_now expiration now))) [
      | inl p ↦ rw (reset_timerfd, p) tt
      | inr p ↦ rw (reset_timerfd, p.1) tt
    ]

module _ (k : TimerDescriptor) {F : Type 0} where
  -- Only fields that the invariant does not mention are different.
  pub Inv-same :
      (q : TimerQueue k.State F) (calling : Bool) (canceling : List Entry) (created : ℕ)
      (descriptor : k.State)
      → Inv k q
      → Inv k (record q {
        calling = calling;
        canceling = canceling;
        created = created;
        descriptor = descriptor;
      })
  Inv-same q calling canceling created descriptor i = record {
    sizes = i.sizes;
    sorted_timers = i.sorted_timers;
    sorted_active = i.sorted_active;
    timers_wait = λ e a h. let w = i.timers_wait e a h in (w.0, again e a w.0 w.1);
    active_wait = λ a s h. let w = i.active_wait a s h in (w.0, again w.0 a s w.1);
  }
    where
      again :
          (e a s : ℕ)
          → Waits k q e a s
          → Waits k
              (record q {
                calling = calling;
                canceling = canceling;
                created = created;
                descriptor = descriptor;
              })
              e
              a
              s
      again e a s w = record {
        timer = w.timer;
        live = w.live;
        expires = w.expires;
        numbered = w.numbered;
        in_timers = w.in_timers;
        in_active = w.in_active;
        in_range = w.in_range;
      }

  -- The invariant holds, and the timers that were held are.
  abbrev pub Keeps : TimerQueue k.State F → TimerQueue k.State F → Type 0
  Keeps q q' = Inv k q' × ((b : ℕ) → IsHeld k q b → IsHeld k q' b)

  pub AreHeld-but :
      (a : ℕ) (q q' : TimerQueue k.State F) (es : List Entry)
      → ((b : ℕ) → a ≢ b → IsHeld k q b → IsHeld k q' b)
      → IsNotIn a es
      → AreHeld k q es
      → AreHeld k q' es
  AreHeld-but a q q' [] f n h = tt
  AreHeld-but a q q' ((e, b) ∷ es) f (p, n) (h, m, r) = (f b p h, m, AreHeld-but a q q' es f n r)

  pub AreHeld-map :
      (q q' : TimerQueue k.State F) (es : List Entry)
      → ((b : ℕ) → IsHeld k q b → IsHeld k q' b)
      → AreHeld k q es
      → AreHeld k q' es
  AreHeld-map q q' [] f h = tt
  AreHeld-map q q' ((e, b) ∷ es) f (h, m, r) = (f b h, m, AreHeld-map q q' es f r)

  abbrev pub placed : TimerQueue k.State F → ℕ → Timer F → TimerQueue k.State F
  placed q a t = inserted k (record q { heap = put a t q.heap }) a t

  pub placed-live :
      (q : TimerQueue k.State F) (a : ℕ) (t : Timer F) → lookup a (put a t q.heap) ≡ some t
  placed-live q a t = rw (lookup-put a a t q.heap, ==_refl a) refl

  -- A timer that is put at an address in neither set, and inserted.
  pub insert-placed :
      (q : TimerQueue k.State F) (a : ℕ) (t : Timer F)
      → Inv k q
      → IsOut k q a
      → a < last_address
      → (insert k (record q { heap = put a t q.heap }) a
          ≡ ok (placed q a t, is_later t.expiration q.timers))
        × Inv k (placed q a t)
        × ((b : ℕ) → a ≢ b → IsHeld k q b → IsHeld k (placed q a t) b)
  insert-placed q a t i o r =
      let i0 = heap-Inv k q (put a t q.heap) a (put-IsElsewhere k q.heap a t) o i in
      (
        insert_lem k (record q { heap = put a t q.heap }) a t i0 o (placed-live q a t),
        inserted-Inv k (record q { heap = put a t q.heap }) a t i0 o (placed-live q a t) r,
        λ b n h. ((h.0.0, put-IsElsewhere k q.heap a t b n ∙ h.0.1), λ s. out b n h.1 s, h.2),
      )
    where
      out :
          (b : ℕ)
          → a ≢ b
          → IsOut k q b
          → (s : ℕ) → has (b, s) (insert_entry (a, t.sequence) q.active) ≡ false
      out b n o s = elim (Bool-cases (has (b, s) (insert_entry (a, t.sequence) q.active))) [
        | inr p ↦ p
        | inl p ↦ elim (has-either (a, t.sequence) (b, s) q.active p) [
          | inl e ↦ absurd (cc (e, same-first_ne a t.sequence b s n))
          | inr e ↦ absurd (cc (o s, e))
        ]
      ]

  pub set_descriptor-IsSound :
      (q : TimerQueue k.State F) (expiration now : ℕ)
      → Inv k q
      → IsSound (Keeps q) (set_descriptor k q expiration now)
  unfolding set_descriptor
  set_descriptor-IsSound q expiration now i =
      bind-IsSound (λ _. Unit {0}) (Keeps q) (reset_timerfd k q.descriptor expiration now)
        (λ s. ok (record q { descriptor = s }))
        (reset_timerfd-IsSound k q.descriptor expiration now)
        (λ s u. (Inv-same q q.calling q.canceling q.created s i, λ b h. h))

  -- `cancelInLoop` of a timer that waits deletes it and takes it out of both sets; of any other it
  -- only notes the pair, and that only while callbacks run. No assertion fails.
  pub cancel_in_loop_lem :
      (q : TimerQueue k.State F) (a s : ℕ)
      → Inv k q
      → (q' : TimerQueue k.State F) × (cancel_in_loop k q a s ≡ ok q')
        × Keeps q q'
        × (has (a, s) q'.active ≡ false)
  unfolding cancel_in_loop drop_timer get
  cancel_in_loop_lem q a s i = elim (Bool-cases (has (a, s) q.active)) [
    | inl p ↦
        let w = i.active_wait a s p in
        let r = removed k q w.0 a s in
        let j = removed-Inv k q w.0 a s i w.1 in
        let o = removed-IsOut k q w.0 a s i w.1 in
        (
          record r { heap = erase a q.heap },
          rw
              (
                cancel_in_loop,
                drop_timer,
                get,
                i.sizes,
                ==_refl (length q.active),
                p,
                w.1.live,
                w.1.expires,
                w.1.in_timers,
                j.sizes,
                ==_refl (length r.active),
              )
              refl,
          (
            heap-Inv k r (erase a q.heap) a (erase-IsElsewhere k q.heap a) o j,
            λ b h.
                let n : a ≢ b = λ e. cc (h.1 s, ap (λ x. has (x, s) q.active) e, p) in
                (
                  (h.0.0, erase-IsElsewhere k q.heap a b n ∙ h.0.1),
                  IsOut-removed k q w.0 a s b i h.1,
                  h.2,
                ),
          ),
          o s,
        )
    | inr p ↦ elim (Bool-cases q.calling) [
      | inl c ↦ (
        record q { canceling = insert_entry (a, s) q.canceling },
        rw
            (
              cancel_in_loop,
              i.sizes,
              ==_refl (length q.active),
              p,
              c,
              i.sizes,
              ==_refl (length q.active),
            )
            refl,
        (Inv-same q q.calling (insert_entry (a, s) q.canceling) q.created q.descriptor i, λ b h. h),
        p,
      )
      | inr c ↦ (
        q,
        rw
            (
              cancel_in_loop,
              i.sizes,
              ==_refl (length q.active),
              p,
              c,
              i.sizes,
              ==_refl (length q.active),
            )
            refl,
        (i, λ b h. h),
        p,
      )
    ]
  ]
