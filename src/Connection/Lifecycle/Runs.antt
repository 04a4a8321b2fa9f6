-- ===== src/Connection/Lifecycle/Runs.antt =====
-- Every connection that can be reached has told its user a legal story, and never goes back.
use starry.Common.{ℕ, ◌≤◌, ◌≡◌, ◌⊎◌, refl, subst, inl, inr, List, arith}
use starry.Connection.{
  Connection, State, disconnected, connecting, connected, disconnecting, Call, init,
}
use starry.Connection.Lifecycle.{
  Step, establish, send_some, readable, writable, hang_up, shut, force, run_force, start_read,
  stop_read, destroy, Reach, here, next, rank, Legal, IsLegal,
}
use starry.Connection.Lifecycle.Transfers.{send-Same, handle_write-Same}
use starry.Connection.Lifecycle.Reading.{start_read-Advances, stop_read-Advances, read-Advances}
use starry.Connection.Lifecycle.Changes.{
  Advances, Same-Advances, IsLive, closed-Advances, established-Advances, destroyed-Advances,
  shut-Advances, force-Advances, run_force-Advances,
}

idle_or_IsLive :
    (s : State) (events : ℕ) (calls : List Call) → Legal s events calls → (events ≡ 0) ⊎ IsLive s
idle_or_IsLive connecting events calls v = inl v.0
idle_or_IsLive connected events calls v = inr (inl refl)
idle_or_IsLive disconnecting events calls v = inr (inr refl)
idle_or_IsLive disconnected events calls v = inl v.0

Step-Advances : {c c' : Connection} → Step c c' → Advances c c'
Step-Advances (establish {c = c} {c' = c'} e) = established-Advances c c' e
Step-Advances (send_some {c = c} {c' = c'} bytes w e) =
    Same-Advances c c' (send-Same c c' bytes w e)
Step-Advances (readable {c = c} {c' = c'} r h e) = read-Advances c c' r h e
Step-Advances (writable {c = c} {c' = c'} w e) = λ v.
    Same-Advances c c' (handle_write-Same c c' w (idle_or_IsLive c.state c.events c.calls v) e) v
Step-Advances (hang_up {c = c} {c' = c'} e) = closed-Advances c c' e
Step-Advances (shut {c = c} e) = subst (Advances c) e (shut-Advances c)
Step-Advances (force {c = c} e) = subst (Advances c) e (force-Advances c)
Step-Advances (run_force {c = c} {c' = c'} e) = run_force-Advances c c' e
Step-Advances (start_read {c = c} l e) = subst (Advances c) e (start_read-Advances c l)
Step-Advances (stop_read {c = c} e) = subst (Advances c) e (stop_read-Advances c)
Step-Advances (destroy {c = c} {c' = c'} e) = destroyed-Advances c c' e

-- However the steps of a connection follow one another (operations that return; a read only while
-- the channel is interested in it; no start of reading unless it is up), its state only goes forward,
-- from connecting to connected, disconnecting and disconnected. And from a legal connection it stays
-- legal: the user is told that it is up once, then of messages, then once that it is down, and last,
-- if at all, the close callback is called, once.
pub Reach-Advances :
    {c c' : Connection} → Reach c c' → IsLegal c → (rank c.state ≤ rank c'.state) × IsLegal c'
Reach-Advances here v = (omega arith, v)
Reach-Advances (next r s) v =
    let (up, v') = Reach-Advances r v in let (on, v'') = Step-Advances s v' in (omega arith, v'')

init-IsLegal : IsLegal init
unfolding init
init-IsLegal = (refl, refl)

-- A new connection, whatever happens to it.
pub init-Reach : {c : Connection} → Reach init c → IsLegal c
init-Reach r = (Reach-Advances r init-IsLegal).1
