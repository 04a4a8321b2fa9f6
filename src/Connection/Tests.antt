-- ===== src/Connection/Tests.antt =====
-- A connection that is established, sends, is shut down and closed.
use starry.Common.{ℕ, ◌≤◌, refl, true, [], ◌∷◌, arith}
use starry.Buffer.{Buffer}
use starry.Buffer.Append.{at_hand}
use starry.Channel.{is_writing, is_none_event, apply_interest}
use starry.Channel.Mask.{reading, both, idle}
use starry.Connection.{
  Connection, disconnected, connected, disconnecting, connection, close, wrote, init, send_in_loop,
}
use starry.Connection.{
  connect_established, force_close, run_force_close, handle_close, force_close_in_loop,
}
use starry.Connection.Lifecycle.{rank, IsLegal, Reach, here, next, establish, force, run_force}
use starry.Connection.Lifecycle.Runs.{Reach-Advances}
use starry.Connection.Inv.{Inv}
use starry.Connection.Output.{Sendable}
use starry.Connection.Sending.{Sent, send_in_loop_lem}
use starry.Connection.Closing.{Closed}

-- Six bytes of storage behind the prependable ones, the given number of them readable.
abbrev holding : ℕ → Buffer
holding n = record {
  bytes = 0 ∷ 0 ∷ 0 ∷ 0 ∷ 0 ∷ 0 ∷ 0 ∷ 0 ∷ 1 ∷ 2 ∷ 3 ∷ 4 ∷ 5 ∷ 6 ∷ [];
  reader_index = 8;
  writer_index = n;
}

-- Connected, with nothing to write.
abbrev quiet : Connection
quiet = record init {
  state = connected;
  events = 3;
  registered = true;
  tied = true;
  input = holding 8;
  output = holding 8;
}

-- Being shut down, with three bytes to write.
abbrev waiting : Connection
waiting = record init {
  state = disconnecting;
  events = 7;
  registered = true;
  tied = true;
  input = holding 8;
  output = holding 11;
}

quiet-Inv : Inv quiet
unfolding init is_writing
quiet-Inv = record {
  input_valid = record {
    ordered = omega arith;
    inside = omega arith;
    reserved = omega arith;
    small = omega arith;
  };
  output_valid = record {
    ordered = omega arith;
    inside = omega arith;
    reserved = omega arith;
    small = omega arith;
  };
  mask = reading;
  pending = λ w. absurd (cc);
  empty = λ s w. refl;
  closed = λ s. absurd (cc);
  shut = λ s. absurd (cc);
}

waiting-Inv : Inv waiting
unfolding init is_writing
waiting-Inv = record {
  input_valid = record {
    ordered = omega arith;
    inside = omega arith;
    reserved = omega arith;
    small = omega arith;
  };
  output_valid = record {
    ordered = omega arith;
    inside = omega arith;
    reserved = omega arith;
    small = omega arith;
  };
  mask = both;
  pending = λ w e. cc;
  empty = λ s w. absurd (cc);
  closed = λ s. absurd (cc);
  shut = λ s. absurd (cc);
}

quiet-Sendable : Sendable quiet
unfolding init
quiet-Sendable = record { inv = quiet-Inv; open_side = refl; live = λ e. cc }

send_in_loop_lem_example :
    Sent quiet (9 ∷ 8 ∷ 7 ∷ []) (send_in_loop quiet (9 ∷ 8 ∷ 7 ∷ []) (wrote 1))
send_in_loop_lem_example =
    send_in_loop_lem quiet (9 ∷ 8 ∷ 7 ∷ []) (wrote 1) quiet-Sendable (omega arith) (omega arith)
      (at_hand (omega arith))

-- `waiting` after `handleClose`.
abbrev gone : Connection
gone = record init {
  state = disconnected;
  registered = true;
  tied = true;
  input = holding 8;
  output = holding 11;
  calls = connection ∷ close ∷ [];
}

gone-Closed : Closed waiting gone
unfolding init is_writing is_none_event
gone-Closed = record {
  inv = record {
    input_valid = waiting-Inv.input_valid;
    output_valid = waiting-Inv.output_valid;
    mask = idle;
    pending = λ w. absurd (cc);
    empty = λ s w. absurd (s refl);
    closed = λ s. refl;
    shut = λ s. absurd (cc);
  };
  state = refl;
  quiet = refl;
  told = refl;
  same = refl;
}

-- It comes up, is asked to close, and is closed.
abbrev run_closed : Connection
run_closed = record init {
  state = disconnected;
  tied = true;
  registered = true;
  queue = force_close_in_loop ∷ [];
  calls = connection ∷ connection ∷ close ∷ [];
}

run_closed-Reach : Reach init run_closed
unfolding init connect_established force_close run_force_close handle_close apply_interest
run_closed-Reach = next (next (next here (establish refl)) (force refl)) (run_force refl)

Reach-Advances_example : (rank init.state ≤ rank run_closed.state) × IsLegal run_closed
unfolding init
Reach-Advances_example = Reach-Advances run_closed-Reach (refl, refl)
