-- ===== src/Connector/Tests.antt =====
-- A connector that is started, fails, and is stopped.
use starry.Common.{
  ◌≡◌, refl, true, false, [], ◌∷◌, some, arith, ok, err, assertion, fatal, ◌⊎◌, ◌>>=◌,
}
use starry.Connector.{
  Connector, SocketSays, retried, run_timer, connecting, in_progress, try_again, init, stop,
  run_stop, start, handle_write,
}
use starry.Connector.Delays.{retries}
use starry.Connector.Descriptors.{Accounted, IsFatal, handle_write-Accounted}
use starry.Connector.Attempts.{stale_timer-assertion}

abbrev wanted : Connector
wanted = record init { wanted = true }

-- Descriptor 5 is tried.
abbrev trying : Connector
trying = record init { wanted = true; state = connecting; channel = some 5; created = 5 ∷ [] }

trying-Accounted : Accounted trying
unfolding init
trying-Accounted = record { each = λ fd. omega arith; channel = λ e. (5, refl) }

retries-delays :
    (retries wanted (9 ∷ 8 ∷ 7 ∷ 6 ∷ 5 ∷ 4 ∷ 3 ∷ [])).timers
    ≡ 30000 ∷ 16000 ∷ 8000 ∷ 4000 ∷ 2000 ∷ 1000 ∷ 500 ∷ []
unfolding init retries retried
retries-delays = refl

-- The socket has no error, and is not connected to itself.
abbrev fine : SocketSays
fine = record { error = false; self_connect = some false; closes = true }

handle_write-Accounted_example :
    ((c : Connector) × (handle_write trying fine ≡ ok c) × Accounted c)
    ⊎ (IsFatal trying fine × (handle_write trying fine ≡ err fatal))
unfolding init
handle_write-Accounted_example = handle_write-Accounted trying fine trying-Accounted refl

stale_timer-assertion_example :
    (start wanted 6 (try_again true) >>= λ c1.
    run_stop (stop c1) true >>= λ c2. start c2 7 in_progress >>= λ c3. run_timer c3 8 in_progress)
    ≡ err assertion
unfolding init
stale_timer-assertion_example = stale_timer-assertion wanted 6 7 8 in_progress refl refl
