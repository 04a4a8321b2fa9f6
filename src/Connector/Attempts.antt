-- ===== src/Connector/Attempts.antt =====
-- Starting: what becomes of a new descriptor, and the timer that comes too late.
use starry.Common.{
  ℕ, ◌+◌, ◌≡◌, refl, Bool, true, false, ◌∷◌, none, some, arith, ok, err, assertion, ◌>>=◌,
}
use starry.Connector.{
  Connector, disconnected, connecting, Attempt, in_progress, try_again, hopeless, retry, retried,
  start_connecting, connect, start_in_loop, start, stop, run_stop, run_timer,
}
use starry.Connector.Descriptors.{count, held, Accounted, retried-Accounted}

idle-each :
    (c : Connector)
    → Accounted c
    → c.state ≡ disconnected
    → (f : ℕ) → count f c.created ≡ count f c.closed + count f c.handed
idle-each c a s f = let k : held c f ≡ 0 = rw s refl in omega (arith, a.each f, k)

-- The attempt is on its way, or has failed and its descriptor can be closed.
abbrev pub can_go_on : Attempt → Bool
can_go_on in_progress = true
can_go_on (try_again closes) = closes
can_go_on hopeless = false

connect-Accounted :
    (c : Connector) (fd : ℕ) (t : Attempt)
    → Accounted c
    → c.state ≡ disconnected
    → c.channel ≡ none
    → can_go_on t ≡ true
    → (c' : Connector) × (connect c fd t ≡ ok c') × Accounted c'
unfolding connect start_connecting retry
connect-Accounted c fd in_progress a s e t =
    let i = idle-each c a s in
    (
      record c { created = fd ∷ c.created; state = connecting; channel = some fd },
      rw e refl,
      record { each = λ f. omega (arith, i f); channel = λ _. (fd, refl) },
    )
connect-Accounted c fd (try_again closes) a s e t =
    let i = idle-each c a s in
    (
      retried (record c { created = fd ∷ c.created }) fd,
      rw t refl,
      retried-Accounted (record c { created = fd ∷ c.created }) fd
          (record { each = λ f. omega (arith, i f) }),
    )
connect-Accounted c fd hopeless a s e t = absurd (cc)

start-connect :
    (c : Connector) (fd : ℕ) (t : Attempt)
    → c.state ≡ disconnected
    → start c fd t ≡ connect (record c { wanted = true }) fd t
unfolding start start_in_loop connect start_connecting retry
start-connect c fd t s = rw s refl

-- Starting a disconnected connector whose old channel is gone succeeds, unless the attempt ends the
-- process; every descriptor is accounted for.
pub start-Accounted :
    (c : Connector) (fd : ℕ) (t : Attempt)
    → Accounted c
    → c.state ≡ disconnected
    → c.channel ≡ none
    → can_go_on t ≡ true
    → (c' : Connector) × (start c fd t ≡ ok c') × Accounted c'
start-Accounted c fd t a s e h = rw (start-connect c fd t s) (
    connect-Accounted (record c { wanted = true }) fd t
      (record { each = a.each; channel = a.channel }) s e h)

-- An attempt has failed, and its retry timer is set. When the connector is then stopped and started
-- anew, before that timer fires, and the second attempt is in progress, the old timer ends the process
-- at the assertion of `startInLoop`: `stop` does not cancel it.
pub stale_timer-assertion :
    (c : Connector) (fd fd' fd'' : ℕ) (t : Attempt)
    → c.state ≡ disconnected
    → c.channel ≡ none
    → (start c fd (try_again true) >>= λ c1.
        run_stop (stop c1) true >>= λ c2. start c2 fd' in_progress >>= λ c3. run_timer c3 fd'' t)
      ≡ err assertion
unfolding stop run_stop start start_in_loop connect start_connecting retry retried run_timer
stale_timer-assertion c fd fd' fd'' t s e = rw (s, e) refl
