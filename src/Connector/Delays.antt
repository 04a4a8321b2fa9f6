-- ===== src/Connector/Delays.antt =====
-- The delays of the retries.
use native.Mathlib.Nat.{pow-suc}
use starry.Common.{
  ℕ, zero, suc, ◌*◌, ◌^◌, ◌≤◌, ◌≡◌, refl, sym, ap, ap₂, ◌∙◌, true, List, [], ◌∷◌, ◌++◌, length,
  arith,
}
use starry.Connector.{Connector, retried, min, max_retry_delay}

-- The connector after the attempts at some descriptors, the last one first, have failed.
unfoldable pub retries : Connector → List ℕ → Connector
retries c [] = c
retries c (fd ∷ fds) = retried (retries c fds) fd

-- `d`, doubled each time, and never more than 30 seconds; the last one first.
abbrev pub delays : ℕ → ℕ → List ℕ
delays d zero = []
delays d (suc n) = min (d * 2 ^ n) max_retry_delay ∷ delays d n

capped : (x : ℕ) → min (min x max_retry_delay * 2) max_retry_delay ≡ min (x * 2) max_retry_delay
capped x = ground arith

uncapped : (d : ℕ) → d ≤ max_retry_delay → d ≡ min d max_retry_delay
uncapped d h = ground arith

doubled :
    (d n : ℕ)
    → min (min (d * 2 ^ n) max_retry_delay * 2) max_retry_delay
      ≡ min (d * 2 ^ suc n) max_retry_delay
doubled d n =
    let twice : d * 2 ^ n * 2 ≡ d * 2 ^ suc n = omega arith ∙ sym (ap (λ p. d * p) (pow-suc 2 n)) in
    capped (d * 2 ^ n) ∙ ap (λ x. min x max_retry_delay) twice

-- What failed attempts leave.
pub record Retried (c : Connector) (fds : List ℕ) (c' : Connector) : Type 0 where
  pub wanted : c'.wanted ≡ true
  pub delay : c'.delay ≡ min (c.delay * 2 ^ length fds) max_retry_delay
  pub timers : c'.timers ≡ delays c.delay (length fds) ++ c.timers
  pub closed : c'.closed ≡ fds ++ c.closed

retry-Retried :
    (c : Connector) (fd : ℕ) (fds : List ℕ) (c' : Connector)
    → Retried c fds c'
    → Retried c (fd ∷ fds) (retried c' fd)
unfolding retried
retry-Retried c fd fds c' r =
    let w = r.wanted in
    rw w (record {
      wanted = refl;
      delay = ap (λ d. min (d * 2) max_retry_delay) r.delay ∙ doubled c.delay (length fds);
      timers = ap₂ (λ d ds. d ∷ ds) r.delay r.timers;
      closed = ap (λ ds. fd ∷ ds) r.closed;
    })

-- While a connection is wanted, each failed attempt closes its descriptor and sets one more timer.
-- The delays of the timers start at the connector's delay, which is at most 30 seconds, double
-- each time, and stop at 30 seconds.
pub retries-Retried :
    (c : Connector) (fds : List ℕ)
    → c.wanted ≡ true
    → c.delay ≤ max_retry_delay
    → Retried c fds (retries c fds)
unfolding retries
retries-Retried c [] w h =
    let once : c.delay ≡ c.delay * 2 ^ 0 = omega arith in
    record {
      wanted = w;
      delay = uncapped c.delay h ∙ ap (λ x. min x max_retry_delay) once;
      timers = refl;
      closed = refl;
    }
retries-Retried c (fd ∷ fds) w h =
    retry-Retried c fd fds (retries c fds) (retries-Retried c fds w h)
