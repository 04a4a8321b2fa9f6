-- ===== src/TimerQueue/Removal.antt =====
-- Taking a timer out of both sets, and changes of the heap at an address that neither set has.
use starry.Common.{
  ℕ, ◌≡◌, ◌≢◌, refl, sym, ap, subst, ◌∙◌, inl, inr, true, false, List, Option, none, some,
  ne→==_false, Bool-cases, lookup, put, erase, lookup-put, lookup-erase, arith,
}
use starry.TimerQueue.Sets.{same, has, erase_entry, same_refl}
use starry.TimerQueue.SetLaws.{
  erase_entry-IsSorted, length-erase_entry, has-dropped, has-undropped, same-second_ne,
  same-first_ne,
}
use starry.TimerQueue.Timerfd.{TimerDescriptor}
use starry.TimerQueue.Inv.{Waits, Inv, IsOut}
use starry.TimerQueue.{Timer, TimerQueue}

module _ (k : TimerDescriptor) {F : Type 0} where
  -- The heap differs at the address `a` only.
  abbrev pub IsElsewhere : List (ℕ × Timer F) → List (ℕ × Timer F) → ℕ → Type 0
  IsElsewhere h h' a = (b : ℕ) → a ≢ b → lookup b h' ≡ lookup b h

  pub erase-IsElsewhere : (h : List (ℕ × Timer F)) (a : ℕ) → IsElsewhere h (erase a h) a
  erase-IsElsewhere h a b n = rw (lookup-erase a b h, ne→==_false a b n) refl

  pub put-IsElsewhere : (h : List (ℕ × Timer F)) (a : ℕ) (t : Timer F) → IsElsewhere h (put a t h) a
  put-IsElsewhere h a t b n = rw (lookup-put a b t h, ne→==_false a b n) refl

  pub heap-Waits :
      (q : TimerQueue k.State F) (h : List (ℕ × Timer F)) (a e b s : ℕ)
      → IsElsewhere q.heap h a
      → a ≢ b
      → Waits k q e b s
      → Waits k (record q { heap = h }) e b s
  heap-Waits q h a e b s f n w = record {
    timer = w.timer;
    live = f b n ∙ w.live;
    expires = w.expires;
    numbered = w.numbered;
    in_timers = w.in_timers;
    in_active = w.in_active;
    in_range = w.in_range;
  }

  IsOut-ne :
      (q : TimerQueue k.State F) (a b s : ℕ) → IsOut k q a → has (b, s) q.active ≡ true → a ≢ b
  IsOut-ne q a b s o h e = cc (o s, ap (λ x. has (x, s) q.active) e, h)

  -- A change of the heap at an address that is in neither set.
  pub heap-Inv :
      (q : TimerQueue k.State F) (h : List (ℕ × Timer F)) (a : ℕ)
      → IsElsewhere q.heap h a
      → IsOut k q a
      → Inv k q
      → Inv k (record q { heap = h })
  heap-Inv q h a f o i = record {
    sizes = i.sizes;
    sorted_timers = i.sorted_timers;
    sorted_active = i.sorted_active;
    timers_wait = λ e b m.
        let w = i.timers_wait e b m in
        (w.0, heap-Waits q h a e b w.0 f (IsOut-ne q a b w.0 o w.1.in_active) w.1);
    active_wait = λ b s m.
        let w = i.active_wait b s m in (w.0, heap-Waits q h a w.0 b s f (IsOut-ne q a b s o m) w.1);
  }

  abbrev pub removed : TimerQueue k.State F → ℕ → ℕ → ℕ → TimerQueue k.State F
  removed q e a s = record q {
    timers = erase_entry (e, a) q.timers;
    active = erase_entry (a, s) q.active;
  }

  -- A timer at the same address is the same timer.
  Waits-unique :
      (q : TimerQueue k.State F) (e e' a s s' : ℕ)
      → Waits k q e a s
      → Waits k q e' a s'
      → (e ≡ e') × (s ≡ s')
  Waits-unique q e e' a s s' w v =
      let same_timer : some w.timer ≡ some v.timer = sym w.live ∙ v.live in
      (
        cc (ap (field_of (λ t. t.expiration)) same_timer, w.expires, v.expires),
        cc (ap (field_of (λ t. t.sequence)) same_timer, w.numbered, v.numbered),
      )
    where
      field_of : (Timer F → ℕ) → Option (Timer F) → ℕ
      field_of f none = 0
      field_of f (some t) = f t

  removed-Waits :
      (q : TimerQueue k.State F) (e a s e' b s' : ℕ)
      → Inv k q
      → a ≢ b
      → Waits k q e' b s'
      → Waits k (removed q e a s) e' b s'
  removed-Waits q e a s e' b s' i n w = record {
    timer = w.timer;
    live = w.live;
    expires = w.expires;
    numbered = w.numbered;
    in_timers =
        has-undropped (e, a) (e', b) q.timers i.sorted_timers (same-second_ne e a e' b n)
          w.in_timers;
    in_active =
        has-undropped (a, s) (b, s') q.active i.sorted_active (same-first_ne a s b s' n)
          w.in_active;
    in_range = w.in_range;
  }

  -- What is left in either set is at another address.
  left-timers :
      (q : TimerQueue k.State F) (e a s e' b s' : ℕ)
      → Waits k q e a s
      → Waits k q e' b s'
      → same (e, a) (e', b) ≡ false
      → a ≢ b
  left-timers q e a s e' b s' w v h p =
      let v' = subst (λ x. Waits k q e' x s') (sym p) v in
      let u = Waits-unique q e e' a s s' w v' in
      cc (ap (λ x. same (e, a) (x, b)) u.0, ap (λ x. same (e, a) (e, x)) p, same_refl (e, a), h)

  left-active :
      (q : TimerQueue k.State F) (e a s e' b s' : ℕ)
      → Waits k q e a s
      → Waits k q e' b s'
      → same (a, s) (b, s') ≡ false
      → a ≢ b
  left-active q e a s e' b s' w v h p =
      let v' = subst (λ x. Waits k q e' x s') (sym p) v in
      let u = Waits-unique q e e' a s s' w v' in
      cc (ap (λ x. same (a, s) (b, x)) u.1, ap (λ x. same (a, s) (x, s)) p, same_refl (a, s), h)

  pub removed-IsOut :
      (q : TimerQueue k.State F) (e a s : ℕ)
      → Inv k q
      → Waits k q e a s
      → IsOut k (removed q e a s) a
  removed-IsOut q e a s i w s' = elim (Bool-cases (has (a, s') (removed q e a s).active)) [
    | inr p ↦ p
    | inl p ↦
        let d = has-dropped (a, s) (a, s') q.active i.sorted_active p in
        let v = i.active_wait a s' d.1 in absurd (left-active q e a s v.0 a s' w v.1 d.0 refl)
  ]

  pub removed-Inv :
      (q : TimerQueue k.State F) (e a s : ℕ) → Inv k q → Waits k q e a s → Inv k (removed q e a s)
  removed-Inv q e a s i w = record {
    sizes = omega (
      arith,
      i.sizes,
      length-erase_entry (e, a) q.timers w.in_timers,
      length-erase_entry (a, s) q.active w.in_active,
    );
    sorted_timers = erase_entry-IsSorted (e, a) q.timers i.sorted_timers;
    sorted_active = erase_entry-IsSorted (a, s) q.active i.sorted_active;
    timers_wait = λ e' b m.
        let d = has-dropped (e, a) (e', b) q.timers i.sorted_timers m in
        let v = i.timers_wait e' b d.1 in
        (v.0, removed-Waits q e a s e' b v.0 i (left-timers q e a s e' b v.0 w v.1 d.0) v.1);
    active_wait = λ b s' m.
        let d = has-dropped (a, s) (b, s') q.active i.sorted_active m in
        let v = i.active_wait b s' d.1 in
        (v.0, removed-Waits q e a s v.0 b s' i (left-active q e a s v.0 b s' w v.1 d.0) v.1);
  }
