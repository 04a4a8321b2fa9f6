-- ===== src/Connection/Stopping.antt =====
-- `shutdown`: the sending side is shut when nothing waits.
use starry.Common.{ℕ, ◌≡◌, ◌≢◌, refl, inl, inr, Bool, true, false, List, [], Bool-cases}
use starry.Buffer.Contents.{contents}
use starry.Channel.{is_writing}
use starry.Connection.{
  Connection, State, disconnected, connected, disconnecting, Call, shutdown_in_loop, shutdown,
  is_connected,
}
use starry.Connection.Inv.{Inv, stream}

-- A connection whose output, input and wire are those of `c`.
abbrev pub moved : Connection → State → ℕ → Bool → Bool → List Call → Connection
moved c s events tied shut calls = record c {
  state = s;
  events = events;
  tied = tied;
  registered = true;
  write_shut = shut;
  calls = calls;
}

waiting_unless :
    (c : Connection)
    → Inv c
    → c.state ≢ disconnected
    → contents c.output ≢ []
    → is_writing c.events ≡ true
waiting_unless c v live h = elim (Bool-cases (is_writing c.events)) [
  | inl w ↦ w
  | inr w ↦ absurd (h (v.empty live w))
]

idle_unless : (c : Connection) → Inv c → contents c.output ≡ [] → is_writing c.events ≡ false
idle_unless c v h = elim (Bool-cases (is_writing c.events)) [
  | inl w ↦ absurd (v.pending w h)
  | inr w ↦ w
]

-- `shutdown` of a connection in use: the user can send no more, nothing of the stream is lost, and
-- the sending side is shut at once exactly when no output waits.
pub record ShutDown (c c' : Connection) : Type 0 where
  pub inv : Inv c'
  pub state : c'.state ≡ disconnecting
  pub same : stream c' ≡ stream c
  pub at_once : contents c.output ≡ [] → c'.write_shut ≡ true
  pub later : contents c.output ≢ [] → c'.write_shut ≡ false

shutdown-waits :
    (c : Connection)
    → is_connected c.state ≡ true
    → is_writing c.events ≡ true
    → shutdown c ≡ record c { state = disconnecting }
unfolding shutdown shutdown_in_loop
shutdown-waits c s w = rw (s, w) refl

shutdown-now :
    (c : Connection)
    → is_connected c.state ≡ true
    → is_writing c.events ≡ false
    → shutdown c ≡ record c { state = disconnecting; write_shut = true }
unfolding shutdown shutdown_in_loop
shutdown-now c s w = rw (s, w) refl

open-connected : (c : Connection) → Inv c → c.state ≡ connected → c.write_shut ≡ false
open-connected c v s = elim (Bool-cases c.write_shut) [
  | inl h ↦ absurd ((v.shut h).0 s)
  | inr h ↦ h
]

is_connected-eq : (s : State) → s ≡ connected → is_connected s ≡ true
is_connected-eq s e = rw e refl

-- When the user shuts a connected connection down, it can send no more, the stream it has
-- accepted is still the same, and its sending side is shut at once if no output waits and is
-- left open if some does.
pub shutdown_lem : (c : Connection) → Inv c → c.state ≡ connected → ShutDown c (shutdown c)
shutdown_lem c v s = elim (Bool-cases (is_writing c.events)) [
  | inl w ↦ rw (shutdown-waits c (is_connected-eq c.state s) w) (record {
    inv = record {
      input_valid = v.input_valid;
      output_valid = v.output_valid;
      mask = v.mask;
      pending = v.pending;
      empty = λ _ q. absurd (cc);
      closed = λ q. absurd (cc);
      shut = λ q. absurd (let h = open-connected c v s in cc);
    };
    state = refl;
    same = refl;
    at_once = λ q. absurd (v.pending w q);
    later = λ _. open-connected c v s;
  })
  | inr w ↦ rw (shutdown-now c (is_connected-eq c.state s) w) (record {
    inv = record {
      input_valid = v.input_valid;
      output_valid = v.output_valid;
      mask = v.mask;
      pending = v.pending;
      empty = λ _ _. v.empty (λ q. cc) w;
      closed = λ q. absurd (cc);
      shut = λ _. (λ q. cc, w);
    };
    state = refl;
    same = refl;
    at_once = λ _. refl;
    later = λ q. absurd (q (v.empty (λ e. cc) w));
  })
]
