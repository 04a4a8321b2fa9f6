-- ===== src/TimerQueue/Expired.antt =====
-- What `getExpired` takes out of the two sets.
use starry.Common.{
  ℕ, ◌≤◌, ◌<◌, ◌≡◌, ◌≢◌, refl, sym, ap, subst, ◌∙◌, inl, inr, Bool, true, false, ◌||◌, List, [],
  ◌∷◌, ◌++◌, some, length, if◌then◌else◌, ==_refl, Bool-cases, lt→ltb, lookup, ok, arith,
}
use starry.TimerQueue.Sets.{Entry, same, before, has, below, from, erase_entry, same_refl}
use starry.TimerQueue.SetLaws.{below-from, has-below, has-from, has-dropped}
use starry.TimerQueue.Timerfd.{TimerDescriptor}
use starry.TimerQueue.Inv.{Inv, IsOut}
use starry.TimerQueue.Removal.{removed, removed-Inv, removed-IsOut}
use starry.TimerQueue.{Timer, TimerQueue, get, is_later, last_address, erase_active, get_expired}

or_true : (c : Bool) → (c || true) ≡ true
or_true c = ground arith

has-append_left : (e : Entry) (xs ys : List Entry) → has e xs ≡ true → has e (xs ++ ys) ≡ true
unfolding has
has-append_left e [] ys h = absurd (cc)
has-append_left e (x ∷ xs) ys h = elim (Bool-cases (same x e)) [
  | inl p ↦ rw p refl
  | inr p ↦ rw p (has-append_left e xs ys (rw p at h))
]

abbrev pub IsNotIn : ℕ → List Entry → Type 0
IsNotIn a [] = Unit {0}
IsNotIn a ((e, b) ∷ es) = (a ≢ b) × IsNotIn a es

has-append_right : (e : Entry) (xs ys : List Entry) → has e ys ≡ true → has e (xs ++ ys) ≡ true
unfolding has
has-append_right e [] ys h = h
has-append_right e (x ∷ xs) ys h =
    ap (λ b. same x e || b) (has-append_right e xs ys h) ∙ or_true (same x e)

is_later_lem :
    (now : ℕ) (xs : List Entry)
    → ((e a : ℕ) → has (e, a) xs ≡ true → now < e)
    → is_later now xs ≡ true
unfolding is_later has
is_later_lem now [] f = refl
is_later_lem now ((e, a) ∷ xs) f =
    lt→ltb now e (f e a (ap (λ b. b || has (e, a) xs) (same_refl (e, a))))

not_before : (e a now last : ℕ) → a < last → before (e, a) (now, last) ≡ false → now < e
not_before e a now last h p = ground arith

before-le : (e a now last : ℕ) → before (e, a) (now, last) ≡ true → e ≤ now
before-le e a now last p = ground arith

module _ (k : TimerDescriptor) {F : Type 0} where
  -- A Timer that is not deleted, and in neither set.
  abbrev pub IsHeld : TimerQueue k.State F → ℕ → Type 0
  IsHeld q a = ((t : Timer F) × (lookup a q.heap ≡ some t)) × IsOut k q a × (a < last_address)

  -- The timers of a list are all held, and each is there once.
  abbrev pub AreHeld : TimerQueue k.State F → List Entry → Type 0
  AreHeld q [] = Unit {0}
  AreHeld q ((e, a) ∷ es) = IsHeld q a × IsNotIn a es × AreHeld q es

  -- `q'` has the heap of `q`, and the sets without the timers `es`.
  pub record Taken (q : TimerQueue k.State F) (es rest : List Entry) (active : List Entry)
      : Type 0 where
    pub taken :
        erase_active k es (record q { timers = rest })
        ≡ ok (record q { timers = rest; active = active })
    pub inv : Inv k (record q { timers = rest; active = active })
    pub held : AreHeld (record q { timers = rest; active = active }) es
    pub out : (a : ℕ) → IsOut k q a → IsOut k (record q { timers = rest; active = active }) a

  IsNotIn-out :
      (q : TimerQueue k.State F) (a : ℕ) (es : List Entry)
      → Inv k q
      → IsOut k q a
      → ((x : Entry) → has x es ≡ true → has x q.timers ≡ true)
      → IsNotIn a es
  unfolding has
  IsNotIn-out q a [] i o f = tt
  IsNotIn-out q a ((e, b) ∷ es) i o f =
      let w = i.timers_wait e b (f (e, b) (ap (λ x. x || has (e, b) es) (same_refl (e, b)))) in
      (
        λ p. cc (o w.0, ap (λ x. has (x, w.0) q.active) p, w.1.in_active),
        IsNotIn-out q a es i o
            (λ x h. f x (ap (λ y. same (e, b) x || y) h ∙ or_true (same (e, b) x))),
      )

  pub IsOut-removed :
      (q : TimerQueue k.State F) (e a s b : ℕ)
      → Inv k q
      → IsOut k q b
      → IsOut k (removed k q e a s) b
  IsOut-removed q e a s b i o s' = elim (Bool-cases (has (b, s') (removed k q e a s).active)) [
    | inr p ↦ p
    | inl p ↦ absurd (cc (o s', (has-dropped (a, s) (b, s') q.active i.sorted_active p).1))
  ]

  -- The first timer leaves both sets.
  first_removed :
      (q : TimerQueue k.State F) (e a s : ℕ) (xs : List Entry)
      → removed k (record q { timers = (e, a) ∷ xs }) e a s
        ≡ record q { timers = xs; active = erase_entry (a, s) q.active }
  unfolding erase_entry
  first_removed q e a s xs =
      ap
        (λ b. record q {
          timers = if b then xs else (e, a) ∷ erase_entry (e, a) xs;
          active = erase_entry (a, s) q.active;
        })
        (same_refl (e, a))

  erase_active-cons :
      (e a s : ℕ) (es : List Entry) (q : TimerQueue k.State F) (t : Timer F)
      → lookup a q.heap ≡ some t
      → t.sequence ≡ s
      → has (a, s) q.active ≡ true
      → erase_active k ((e, a) ∷ es) q
        ≡ erase_active k es (record q { active = erase_entry (a, s) q.active })
  unfolding erase_active get
  erase_active-cons e a s es q t l n h = rw (erase_active, get, l, n, h) refl

  -- The loop of `getExpired`, when the sets with `es` still among the timers describe the same.
  erase_active-Taken :
      (es rest : List Entry) (q : TimerQueue k.State F)
      → Inv k (record q { timers = es ++ rest })
      → (active : List Entry) × Taken q es rest active
  unfolding erase_active get has
  erase_active-Taken [] rest q i =
      (q.active, record { taken = refl; inv = i; held = tt; out = λ a o. o })
  erase_active-Taken ((e, a) ∷ es) rest q i =
      let w = i.timers_wait e a (ap (λ x. x || has (e, a) (es ++ rest)) (same_refl (e, a))) in
      let before = record q { timers = (e, a) ∷ (es ++ rest) } in
      let q1 : TimerQueue k.State F = record q { active = erase_entry (a, w.0) q.active } in
      let step = first_removed q e a w.0 (es ++ rest) in
      let i1 = subst (Inv k) step (removed-Inv k before e a w.0 i w.1) in
      let o1 = subst (λ x. IsOut k x a) step (removed-IsOut k before e a w.0 i w.1) in
      let r = erase_active-Taken es rest q1 i1 in
      (
        r.0,
        record {
          taken =
              erase_active-cons e a w.0 es (record q { timers = rest }) w.1.timer w.1.live
                w.1.numbered w.1.in_active
              ∙ r.1.taken;
          inv = r.1.inv;
          held = (
            ((w.1.timer, w.1.live), r.1.out a o1, w.1.in_range),
            IsNotIn-out (record q1 { timers = es ++ rest }) a es i1 o1
                (λ x h. has-append_left x es rest h),
            r.1.held,
          );
          out =
              λ b o. r.1.out b (subst (λ x. IsOut k x b) step (IsOut-removed before e a w.0 b i o));
        },
      )

  -- `getExpired` takes the timers whose time has come out of both sets, in order, and leaves the
  -- others; those it takes are not deleted.
  pub get_expired_lem :
      (q : TimerQueue k.State F) (now : ℕ)
      → Inv k q
      → (q' : TimerQueue k.State F) × (expired : List Entry) × (get_expired k q now
          ≡ ok (q', expired))
        × (expired ++ q'.timers ≡ q.timers)
        × ((e a : ℕ) → has (e, a) expired ≡ true → e ≤ now)
        × ((e a : ℕ) → has (e, a) q'.timers ≡ true → now < e)
        × Inv k q'
        × AreHeld q' expired
  unfolding get_expired
  get_expired_lem q now i =
      let expired = below (now, last_address) q.timers in
      let rest = from (now, last_address) q.timers in
      let whole = below-from (now, last_address) q.timers in
      let r =
        erase_active-Taken expired rest q
          (subst (λ x. Inv k (record q { timers = x })) (sym whole) i) in
      let after = λ (e a : ℕ). λ (h : has (e, a) rest ≡ true).
        not_before e a now last_address
          (i.timers_wait e a (
            subst (λ x. has (e, a) x ≡ true) whole
              (has-append_right (e, a) expired rest h))).1.in_range
          (has-from (now, last_address) (e, a) q.timers i.sorted_timers h) in
      let q1 : TimerQueue k.State F = record q { timers = rest; active = r.0 } in
      (
        q1,
        expired,
        rw
            (
              get_expired,
              i.sizes,
              ==_refl (length q.active),
              is_later_lem now rest after,
              r.1.taken,
              r.1.inv.sizes,
              ==_refl (length r.0),
            )
            refl,
        whole,
        λ e a h. before-le e a now last_address (has-below (now, last_address) (e, a) q.timers h),
        after,
        r.1.inv,
        r.1.held,
      )
