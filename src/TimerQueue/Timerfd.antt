-- ===== src/TimerQueue/Timerfd.antt =====
-- The descriptor of the timer: how `howMuchTimeFromNow` and `resetTimerfd` set it.
use starry.Common.{
  ℕ, ◌+◌, ◌-◌, ◌*◌, ◌/◌, ◌%◌, ◌≤◌, ◌<◌, ◌≡◌, refl, false, Option, none, some, leb, ◌==◌,
  if◌then◌else◌, Outcome, ok, err, fatal, ◌⊎◌, inl, inr, lt→leb_false, le→leb, ne→==_false, ==_iff,
  Bool-cases, ◌∙◌, arith,
}

-- `negsuc n` is -(n + 1).
pub data ℤ : Type 0 where
  pos : ℕ → ℤ
  negsuc : ℕ → ℤ

-- `a - b`, as an integer.
abbrev pub sub_ℕ : ℕ → ℕ → ℤ
sub_ℕ a b = if leb b a then pos (a - b) else negsuc (b - a - 1)

-- `-n`
abbrev pub minus : ℕ → ℤ
minus n = if n == 0 then pos 0 else negsuc (n - 1)

abbrev pub per_second : ℕ
per_second = 1000000000

pub record TimeSpec : Type 0 where
  pub seconds : ℤ
  pub nanoseconds : ℤ

-- Division and remainder round towards zero.
abbrev pub seconds_of : ℤ → ℤ
seconds_of (pos n) = pos (n / per_second)
seconds_of (negsuc n) = minus ((n + 1) / per_second)

abbrev pub nanoseconds_of : ℤ → ℤ
nanoseconds_of (pos n) = pos (n % per_second)
nanoseconds_of (negsuc n) = minus ((n + 1) % per_second)

-- `now` is what `Clock::now()` gives in it.
unfoldable pub how_much_time_from_now : ℕ → ℕ → TimeSpec
how_much_time_from_now when now = record {
  seconds = seconds_of (sub_ℕ when now);
  nanoseconds = nanoseconds_of (sub_ℕ when now);
}

abbrev pub IsNegative : ℤ → Type 0
IsNegative (pos n) = ⊥
IsNegative (negsuc n) = Unit {0}

-- timerfd_settime(2), relative, without an interval; `none` is a result other than 0. The laws are
-- the documented ones: a negative number of seconds or nanoseconds is refused, and a time with
-- both at least 0 and less than a second of nanoseconds is taken. `fires` is the time from now
-- after which the descriptor becomes readable, and `none` that it is disarmed, which a time of
-- zero does.
pub record TimerDescriptor : Type 1 where
  pub State : Type 0
  pub settime : State → TimeSpec → Option State
  pub fires : State → Option ℕ
  pub refuses :
      (s : State) (t : TimeSpec)
      → IsNegative t.seconds ⊎ IsNegative t.nanoseconds
      → settime s t ≡ none
  pub takes :
      (s : State) (n m : ℕ)
      → m < per_second
      → (s' : State) × (settime s (record { seconds = pos n; nanoseconds = pos m }) ≡ some s')
        × (fires s' ≡ (if n * per_second + m == 0 then none else some (n * per_second + m)))

module _ (k : TimerDescriptor) where
  -- A refusal is a LOG_FATAL.
  unfoldable pub reset_timerfd : k.State → ℕ → ℕ → Outcome k.State
  reset_timerfd s expiration now = elim (k.settime s (how_much_time_from_now expiration now)) [
    | none ↦ err fatal
    | some s' ↦ ok s'
  ]

  remainder : (n : ℕ) → (n + 1) / per_second ≡ 0 → ((n + 1) % per_second == 0) ≡ false
  remainder n h = ne→==_false ((n + 1) % per_second) 0 (λ e. omega arith)

  past-IsNegative :
      (when now : ℕ)
      → when < now
      → IsNegative (how_much_time_from_now when now).seconds
        ⊎ IsNegative (how_much_time_from_now when now).nanoseconds
  unfolding how_much_time_from_now
  past-IsNegative when now h = rw (lt→leb_false now when h) (split (now - when - 1))
    where
      split :
          (n : ℕ)
          → IsNegative (minus ((n + 1) / per_second)) ⊎ IsNegative (minus ((n + 1) % per_second))
      split n = elim (Bool-cases ((n + 1) / per_second == 0)) [
        | inr p ↦ inl (rw p tt)
        | inl p ↦ inr (rw (remainder n ((==_iff ((n + 1) / per_second) 0).0 p)) tt)
      ]

  -- Setting the descriptor for a time that has passed ends the process.
  pub reset_timerfd-past :
      (s : k.State) (expiration now : ℕ)
      → expiration < now
      → reset_timerfd s expiration now ≡ err fatal
  unfolding reset_timerfd
  reset_timerfd-past s expiration now h =
      rw
        (
          reset_timerfd,
          k.refuses s (how_much_time_from_now expiration now) (past-IsNegative expiration now h),
        )
        refl

  -- Setting it for a time to come succeeds, and it fires exactly then; for this very moment it is
  -- disarmed instead, and does not fire.
  pub reset_timerfd_lem :
      (s : k.State) (expiration now : ℕ)
      → now ≤ expiration
      → (s' : k.State) × (reset_timerfd s expiration now ≡ ok s')
        × (k.fires s' ≡ (if expiration == now then none else some (expiration - now)))
  unfolding reset_timerfd how_much_time_from_now
  reset_timerfd_lem s expiration now h =
      let d = expiration - now in
      let r = k.takes s (d / per_second) (d % per_second) (omega arith) in
      (
        r.0,
        rw (reset_timerfd, le→leb now expiration h, r.1) refl,
        r.2 ∙ rw (whole d, zero_iff) refl,
      )
    where
      whole : (n : ℕ) → n / per_second * per_second + n % per_second ≡ n
      whole n = omega arith

      zero_iff : (expiration - now == 0) ≡ (expiration == now)
      zero_iff = ground arith
