-- ===== src/Connection/Inv.antt =====
-- What holds of a connection between two events, and the stream that it has accepted.
use starry.Common.{ℕ, ◌≡◌, ◌≢◌, refl, true, false, List, [], ◌++◌, arith}
use starry.Buffer.{initial_size}
use starry.Buffer.Contents.{contents, init-Inv, contents-init}
use starry.Buffer.Contents
use starry.Channel.{is_writing}
use starry.Channel.Mask.{IsMask, idle}
use starry.Connection.{Connection, disconnected, connected, init}

-- The channel waits for a writable socket exactly while output waits (a closed connection may
-- have some left), and the sending side is shut down only when the user can no longer send and
-- nothing waits.
pub record Inv (c : Connection) : Type 0 where
  pub input_valid : Contents.Inv c.input
  pub output_valid : Contents.Inv c.output
  pub mask : IsMask c.events
  pub pending : is_writing c.events ≡ true → contents c.output ≢ []
  pub empty : c.state ≢ disconnected → is_writing c.events ≡ false → contents c.output ≡ []
  pub closed : c.state ≡ disconnected → is_writing c.events ≡ false
  pub shut : c.write_shut ≡ true → (c.state ≢ connected) × (is_writing c.events ≡ false)

-- The bytes that have gone to the socket and those that wait, in order.
abbrev pub stream : Connection → List ℕ
stream c = c.wire ++ contents c.output

pub connection-init-Inv : Inv init
unfolding init is_writing
connection-init-Inv = record {
  input_valid = init-Inv initial_size (omega arith);
  output_valid = init-Inv initial_size (omega arith);
  mask = idle;
  pending = λ w. cc;
  empty = λ s w. contents-init initial_size;
  closed = λ s. refl;
  shut = λ s. cc;
}
