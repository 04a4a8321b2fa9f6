-- ===== src/TimerQueue/Inv.antt =====
-- The invariant of TimerQueue: the two sets describe the same timers, and these are not deleted.
use starry.Common.{
  ℕ, ◌+◌, ◌<◌, ◌≡◌, refl, sym, ap, subst, ◌∙◌, inl, inr, true, false, some, length, ==_refl,
  Bool-cases, lookup, ok,
}
use starry.TimerQueue.Sets.{has, insert_entry, IsSorted, same-eq, same_refl}
use starry.TimerQueue.SetLaws.{
  insert_entry-IsSorted, length-insert_entry, has-same, has-kept, has-either,
}
use starry.TimerQueue.Timerfd.{TimerDescriptor}
use starry.TimerQueue.{Timer, TimerQueue, init, get, insert, is_later, last_address}

module _ (k : TimerDescriptor) {F : Type 0} where
  -- The Timer at address `a` waits in both sets, with the expiration `e` and the sequence `s`.
  pub record Waits (q : TimerQueue k.State F) (e a s : ℕ) : Type 0 where
    pub timer : Timer F
    pub live : lookup a q.heap ≡ some timer
    pub expires : timer.expiration ≡ e
    pub numbered : timer.sequence ≡ s
    pub in_timers : has (e, a) q.timers ≡ true
    pub in_active : has (a, s) q.active ≡ true
    pub in_range : a < last_address

  pub record Inv (q : TimerQueue k.State F) : Type 0 where
    pub sizes : length q.timers ≡ length q.active
    pub sorted_timers : IsSorted q.timers
    pub sorted_active : IsSorted q.active
    pub timers_wait : (e a : ℕ) → has (e, a) q.timers ≡ true → (s : ℕ) × Waits q e a s
    pub active_wait : (a s : ℕ) → has (a, s) q.active ≡ true → (e : ℕ) × Waits q e a s

  -- The address is in neither set.
  abbrev pub IsOut : TimerQueue k.State F → ℕ → Type 0
  IsOut q a = (s : ℕ) → has (a, s) q.active ≡ false

  abbrev pub inserted : TimerQueue k.State F → ℕ → Timer F → TimerQueue k.State F
  inserted q a t = record q {
    timers = insert_entry (t.expiration, a) q.timers;
    active = insert_entry (a, t.sequence) q.active;
  }

  IsOut-timers :
      (q : TimerQueue k.State F) (a e : ℕ) → Inv q → IsOut q a → has (e, a) q.timers ≡ false
  IsOut-timers q a e i o = elim (Bool-cases (has (e, a) q.timers)) [
    | inr p ↦ p
    | inl p ↦ let w = i.timers_wait e a p in absurd (cc (w.1.in_active, o w.0))
  ]

  inserted-sizes :
      (q : TimerQueue k.State F) (a : ℕ) (t : Timer F)
      → Inv q
      → IsOut q a
      → length (inserted q a t).timers ≡ length (inserted q a t).active
  inserted-sizes q a t i o =
      length-insert_entry (t.expiration, a) q.timers (IsOut-timers q a t.expiration i o)
      ∙ ap (λ n. n + 1) i.sizes
      ∙ sym (length-insert_entry (a, t.sequence) q.active (o t.sequence))

  inserted-kept :
      (q : TimerQueue k.State F) (a : ℕ) (t : Timer F) (e b s : ℕ)
      → Waits q e b s
      → Waits (inserted q a t) e b s
  inserted-kept q a t e b s w = record {
    timer = w.timer;
    live = w.live;
    expires = w.expires;
    numbered = w.numbered;
    in_timers = has-kept (t.expiration, a) (e, b) q.timers w.in_timers;
    in_active = has-kept (a, t.sequence) (b, s) q.active w.in_active;
    in_range = w.in_range;
  }

  inserted_lem :
      (q : TimerQueue k.State F) (a : ℕ) (t : Timer F)
      → lookup a q.heap ≡ some t
      → a < last_address
      → Waits (inserted q a t) t.expiration a t.sequence
  inserted_lem q a t l r = record {
    timer = t;
    live = l;
    expires = refl;
    numbered = refl;
    in_timers = has-same (t.expiration, a) (t.expiration, a) q.timers (same_refl (t.expiration, a));
    in_active = has-same (a, t.sequence) (a, t.sequence) q.active (same_refl (a, t.sequence));
    in_range = r;
  }

  pub inserted-Inv :
      (q : TimerQueue k.State F) (a : ℕ) (t : Timer F)
      → Inv q
      → IsOut q a
      → lookup a q.heap ≡ some t
      → a < last_address
      → Inv (inserted q a t)
  inserted-Inv q a t i o l r = record {
    sizes = inserted-sizes q a t i o;
    sorted_timers = insert_entry-IsSorted (t.expiration, a) q.timers i.sorted_timers;
    sorted_active = insert_entry-IsSorted (a, t.sequence) q.active i.sorted_active;
    timers_wait = λ e b h. elim (has-either (t.expiration, a) (e, b) q.timers h) [
      | inl p ↦
          subst (λ x. (s : ℕ) × Waits (inserted q a t) x.0 x.1 s)
            (same-eq (t.expiration, a) (e, b) p) (t.sequence, inserted_lem q a t l r)
      | inr p ↦ let w = i.timers_wait e b p in (w.0, inserted-kept q a t e b w.0 w.1)
    ];
    active_wait = λ b s h. elim (has-either (a, t.sequence) (b, s) q.active h) [
      | inl p ↦
          subst (λ x. (e : ℕ) × Waits (inserted q a t) e x.0 x.1) (same-eq (a, t.sequence) (b, s) p)
            (t.expiration, inserted_lem q a t l r)
      | inr p ↦ let w = i.active_wait b s p in (w.0, inserted-kept q a t w.0 b s w.1)
    ];
  }

  -- `insert` of a live timer that is in neither set puts it into both; no assertion fails.
  pub insert_lem :
      (q : TimerQueue k.State F) (a : ℕ) (t : Timer F)
      → Inv q
      → IsOut q a
      → lookup a q.heap ≡ some t
      → insert k q a ≡ ok (inserted q a t, is_later t.expiration q.timers)
  unfolding insert get
  insert_lem q a t i o l =
      rw
        (
          insert,
          i.sizes,
          ==_refl (length q.active),
          get,
          l,
          IsOut-timers q a t.expiration i o,
          o t.sequence,
          inserted-sizes q a t i o,
          ==_refl (length (inserted q a t).active),
        )
        refl

  -- The queue that the constructor makes.
  pub init-Inv : (s : k.State) → Inv (init k s)
  unfolding init has
  init-Inv s = record {
    sizes = refl;
    sorted_timers = tt;
    sorted_active = tt;
    timers_wait = λ e a h. absurd (cc);
    active_wait = λ a s h. absurd (cc);
  }
