-- ===== src/Rpc.antt =====
-- starry/net/rpc/rpc_channel.cpp and starry/net/rpc/protobuf_codec_lite.cpp over
-- starry/net/src/tcp_connection.cpp: a call from one end of a connection to the other and back.
-- The messages of the codec's library are `RpcMessage`s, through the accessors that protobuf
-- generates. What one end's socket has taken is what arrives at the other end's input buffer.
pub mod Frames
pub mod Ends
pub mod Calls
mod Samples
mod Tests
use starry.Common.{
  ℕ, ◌<◌, ◌≡◌, Bool, true, List, [], ◌∷◌, length, Option, none, some, Outcome, ok, err, ◌>>=◌,
  if◌then◌else◌,
}
use starry.Buffer.{Buffer}
use starry.Codec.Protobuf.{Library}
use starry.Codec.{Event, delivered, reported, frame_to_send, on_message}
use starry.Connection.{Connection, Wrote, is_connected, send_buffer, shutdown}
use starry.RpcChannel.{
  RpcChannel, RpcMessage, request, response, OutstandingCall, next_id, call_method, on_rpc_message,
}
use starry.RpcServer.{Name, RpcServer, done}
use starry.RpcServer

-- What the setters make and what the getters read.
pub record Accessors (l : Library) (Body : Type 0) : Type 0 where
  pub write : RpcMessage Name Body → l.Message
  pub read : l.Message → RpcMessage Name Body
  pub read-write : (m : RpcMessage Name Body) → read (write m) ≡ m

-- `ProtobufCodecLite::defaultErrorCallback`
unfoldable pub default_error_callback : Connection → Connection
default_error_callback conn = if is_connected conn.state then shutdown conn else conn

module _ (l : Library) (tag : List ℕ) where
  open l use {Message}

  -- `ProtobufCodecLite::send`
  unfoldable pub codec_send : Connection → Message → Wrote → Outcome Connection
  codec_send c m w = do buf ← frame_to_send l tag m; (c', buf') ← send_buffer c buf w; ok c'

  -- Each delivered message goes to the callback, in order, and an error to the error callback.
  unfoldable pub deliver_all :
      {S : Type 0} → (S → Message → Outcome S) → (S → S) → S → List (Event Message) → Outcome S
  deliver_all callback on_error s [] = ok s
  deliver_all callback on_error s (delivered m ∷ events) =
      callback s m >>= λ s'. deliver_all callback on_error s' events
  deliver_all callback on_error s (reported code ∷ events) =
      deliver_all callback on_error (on_error s) events

  unfoldable pub read_messages :
      {S : Type 0}
      → (S → Message → Outcome S)
      → (S → S)
      → ℕ
      → S
      → Buffer
      → Outcome (Option (S × Buffer))
  unfolding deliver_all
  read_messages callback on_error fuel s b = on_message l tag fuel b >>= λ r. elim r [
    | none ↦ ok none
    | some (events, b') ↦ deliver_all callback on_error s events >>= λ s'. ok (some (s', b'))
  ]

  module _ {Body : Type 0} (a : Accessors l Body) where
    open a use {write, read}

    -- `CallMethod` with the `send` at its end.
    unfoldable pub call :
        RpcChannel Name Body
        → Connection
        → Name
        → Name
        → Body
        → OutstandingCall
        → Wrote
        → Outcome (RpcChannel Name Body × Connection)
    unfolding codec_send
    call c conn service method body out w =
        codec_send conn (write (request (next_id c.id) service method body)) w >>= λ conn'.
        ok (call_method c service method body out, conn')

    -- `onMessage` of the caller's channel, and of the channel of a server's connection, each with
    -- the number of the connection that it is called for and the connection that the error
    -- callback shuts down.
    unfoldable pub caller_reads :
        ℕ
        → ℕ
        → RpcChannel Name Body × Connection
        → Buffer
        → Outcome (Option ((RpcChannel Name Body × Connection) × Buffer))
    unfolding read_messages
    caller_reads conn =
        read_messages (λ s m. on_rpc_message s.0 conn (read m) >>= λ c. ok (c, s.1))
          (λ s. (s.0, default_error_callback s.1))

    unfoldable pub server_reads :
        ℕ
        → ℕ
        → RpcServer Body × Connection
        → Buffer
        → Outcome (Option ((RpcServer Body × Connection) × Buffer))
    unfolding read_messages
    server_reads conn =
        read_messages (λ s m. RpcServer.on_message s.0 conn (read m) >>= λ s'. ok (s', s.1))
          (λ s. (s.0, default_error_callback s.1))

    -- `doneCallback` with the `send` at its end.
    unfoldable pub answer :
        RpcServer Body
        → ℕ
        → Connection
        → ℕ
        → ℕ
        → ℕ
        → Body
        → Wrote
        → Outcome (RpcServer Body × Connection)
    unfolding codec_send
    answer s conn c prototype_type response_type id body w = do
      s' ← done s conn prototype_type response_type id body
      c' ← codec_send c (write (response id body)) w
      ok (s', c')
