-- ===== src/Connection.antt =====
-- starry/net/src/tcp_connection.cpp: one TCP connection, in its loop's own thread.
-- `runInLoop` calls at once there; `queueInLoop` puts a functor into `queue`. What the calls of the
-- socket do is kept as `wire`, the bytes that `::write` has accepted, and `write_shut`; the user's
-- callbacks that are called are kept in `calls`. The channel's interest is `events`; the
-- poller is in Poller/World.antt. A LOG_FATAL aborts the process.
pub mod Inv
pub mod Output
pub mod Sending
pub mod Buffers
pub mod Drain
pub mod Stopping
pub mod Closing
pub mod Lifecycle
mod Tests
use starry.Common.{
  ℕ, ◌+◌, ◌-◌, ◌≡◌, Bool, true, false, not, ◌&&◌, ◌||◌, List, [], ◌∷◌, ◌++◌, length, take, drop,
  ltb, leb, ◌==◌, if◌then◌else◌, Outcome, ok, err, fatal, ◌>>=◌, ◌>>◌, assert, add_size,
}
use starry.Buffer.{
  Buffer, initial_size, readable_bytes, read_at, append, retrieve, retrieve_all,
  retrieve_all_as_string,
}
use starry.Buffer
use starry.Buffer.Contents.{contents}
use starry.Buffer.Socket.{Received, received, failed, read_fd}
use starry.Channel.{
  Interest, enable_reading, disable_reading, enable_writing, disable_writing, disable_all,
  apply_interest, is_writing, is_reading, is_none_event,
}

pub data State : Type 0 where
  disconnected connecting connected disconnecting : State

-- Functors that wait in the loop.
pub data Functor : Type 0 where
  write_complete : Functor
  high_water_mark : ℕ → Functor
  force_close_in_loop : Functor

-- The user's callbacks; `close` is the one of the server or the client.
pub data Call : Type 0 where
  connection message close : Call

-- What `::write` returns: the number of bytes taken, or an error.
pub data Wrote : Type 0 where
  wrote : ℕ → Wrote
  would_block : Wrote
  write_error : Wrote

pub record Connection : Type 0 where
  pub state : State
  pub reading : Bool
  pub tied : Bool
  pub registered : Bool
  pub events : ℕ
  pub input : Buffer
  pub output : Buffer
  pub high_water : ℕ
  pub has_write_complete : Bool
  pub has_high_water : Bool
  pub wire : List ℕ
  pub write_shut : Bool
  pub queue : List Functor
  pub calls : List Call

unfoldable pub init : Connection
init = record {
  state = connecting;
  reading = true;
  tied = false;
  registered = false;
  events = 0;
  input = Buffer.init initial_size;
  output = Buffer.init initial_size;
  high_water = 67108864;
  has_write_complete = false;
  has_high_water = false;
  wire = [];
  write_shut = false;
  queue = [];
  calls = [];
}

abbrev pub set_interest : Connection → Interest → Connection
set_interest c i = record c { events = apply_interest i c.events; registered = true }

abbrev pub queue_in_loop : Connection → Bool → Functor → Connection
queue_in_loop c test f = record c { queue = if test then c.queue ++ (f ∷ []) else c.queue }

abbrev pub is_disconnected : State → Bool
is_disconnected disconnected = true
is_disconnected connecting = false
is_disconnected connected = false
is_disconnected disconnecting = false

abbrev pub is_connected : State → Bool
is_connected disconnected = false
is_connected connecting = false
is_connected connected = true
is_connected disconnecting = false

abbrev pub is_disconnecting : State → Bool
is_disconnecting disconnected = false
is_disconnecting connecting = false
is_disconnecting connected = false
is_disconnecting disconnecting = true

abbrev pub is_connecting : State → Bool
is_connecting disconnected = false
is_connecting connecting = true
is_connecting connected = false
is_connecting disconnecting = false

-- The second half of `sendInLoop`: what was not written is queued behind the output.
unfoldable pub queue_rest : Connection → List ℕ → Outcome Connection
queue_rest c rest =
    if ltb 0 (length rest)
    then (do
      let old_len = readable_bytes c.output
      let c' =
          queue_in_loop c
            (leb c.high_water (add_size old_len (length rest))
              && ltb old_len c.high_water
              && c.has_high_water)
            (high_water_mark (add_size old_len (length rest)))
      output ← append c'.output rest
      let c'' = record c' { output = output }
      ok (if is_writing c''.events then c'' else set_interest c'' enable_writing))
    else ok c

-- The first half: nothing waits, so the bytes go to the socket at once. An error other than
-- EWOULDBLOCK is a LOG_FATAL, so that the code behind it, `faultError`, is not reached.
unfoldable pub write_now : Connection → List ℕ → Wrote → Outcome (Connection × List ℕ)
write_now c bytes (wrote n) = ok (
  queue_in_loop (record c { wire = c.wire ++ take n bytes })
      (length bytes - n == 0 && c.has_write_complete) write_complete,
  drop n bytes,
)
write_now c bytes would_block = ok (c, bytes)
write_now c bytes write_error = err fatal

unfoldable pub is_idle : Connection → Bool
is_idle c = not (is_writing c.events) && readable_bytes c.output == 0

unfoldable pub send_in_loop : Connection → List ℕ → Wrote → Outcome Connection
send_in_loop c bytes w =
    if is_disconnected c.state
    then ok c
    else ((if is_idle c then write_now c bytes w else ok (c, bytes)) >>= λ r. queue_rest r.0 r.1)

-- `send(string_view)`
unfoldable pub send : Connection → List ℕ → Wrote → Outcome Connection
send c bytes w = if is_connected c.state then send_in_loop c bytes w else ok c

-- `send(Buffer*)`
unfoldable pub send_buffer : Connection → Buffer → Wrote → Outcome (Connection × Buffer)
send_buffer c buf w =
    if is_connected c.state
    then (do
      bytes ← read_at buf.bytes buf.reader_index (readable_bytes buf)
      c' ← send_in_loop c bytes w
      ok (c', retrieve_all buf))
    else ok (c, buf)

unfoldable pub shutdown_in_loop : Connection → Connection
shutdown_in_loop c = if is_writing c.events then c else record c { write_shut = true }

unfoldable pub shutdown : Connection → Connection
shutdown c =
    if is_connected c.state then shutdown_in_loop (record c { state = disconnecting }) else c

unfoldable pub handle_close : Connection → Outcome Connection
handle_close c = do
  assert (is_connected c.state || is_disconnecting c.state)
  ok (record (set_interest (record c { state = disconnected }) disable_all) {
    calls = c.calls ++ (connection ∷ close ∷ []);
  })

unfoldable pub force_close : Connection → Connection
force_close c =
    if is_connected c.state || is_disconnecting c.state
    then queue_in_loop (record c { state = disconnecting }) true force_close_in_loop
    else c

unfoldable pub run_force_close : Connection → Outcome Connection
run_force_close c =
    if is_connected c.state || is_disconnecting c.state then handle_close c else ok c

unfoldable pub start_read_in_loop : Connection → Connection
start_read_in_loop c =
    if not c.reading || not (is_reading c.events)
    then record (set_interest c enable_reading) { reading = true }
    else c

unfoldable pub stop_read_in_loop : Connection → Connection
stop_read_in_loop c =
    if c.reading || is_reading c.events
    then record (set_interest c disable_reading) { reading = false }
    else c

unfoldable pub connect_established : Connection → Outcome Connection
connect_established c = do
  assert (is_connecting c.state)
  ok (record (set_interest c enable_reading) {
    state = connected;
    tied = true;
    calls = c.calls ++ (connection ∷ []);
  })

-- `channel_->remove()` asserts that no interest is left and that the poller knows the channel.
unfoldable pub connect_destroyed : Connection → Outcome Connection
connect_destroyed c = do
  let c' =
      if is_connected c.state
      then record (set_interest (record c { state = disconnected }) disable_all) {
        calls = c.calls ++ (connection ∷ []);
      }
      else c
  assert (is_none_event c'.events)
  assert c'.registered
  ok (record c' { registered = false })

-- The socket is empty, at its end, or at an error, which is only logged.
unfoldable pub handle_read : Connection → Received → Outcome Connection
handle_read c r = do
  (n, input) ← read_fd c.input r
  let c' = record c { input = input }
  elim n [
    | failed errno ↦ ok c'
    | received bytes ↦
        if length bytes == 0
        then handle_close c'
        else ok (record c' { calls = c'.calls ++ (message ∷ []) })
  ]

-- All output has been written.
unfoldable pub drained : Connection → Connection
drained c =
    let c' = queue_in_loop (set_interest c disable_writing) c.has_write_complete write_complete in
    if is_disconnecting c'.state then shutdown_in_loop c' else c'

unfoldable pub wrote_some : Connection → ℕ → Outcome Connection
wrote_some c n =
    if ltb 0 n
    then (do
      output ← retrieve c.output n
      let c' = record c { output = output; wire = c.wire ++ take n (contents c.output) }
      ok (if readable_bytes output == 0 then drained c' else c'))
    else err fatal

-- A result of 0 or an error, EWOULDBLOCK included, is a LOG_FATAL.
unfoldable pub handle_write : Connection → Wrote → Outcome Connection
handle_write c (wrote n) = if is_writing c.events then wrote_some c n else ok c
handle_write c would_block = if is_writing c.events then err fatal else ok c
handle_write c write_error = if is_writing c.events then err fatal else ok c
