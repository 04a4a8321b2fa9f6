-- ===== src/Rpc/Calls.antt =====
-- One call, from `CallMethod` to the callback of the caller.
use starry.Common.{
  ℕ, ◌+◌, ◌^◌, ◌≤◌, ◌<◌, ◌≡◌, ap, sym, ◌∙◌, true, List, [], ◌∷◌, ◌++◌, length, some, lookup,
}
use starry.Buffer.{Buffer}
use starry.Buffer.Contents.{contents}
use starry.Buffer.Contents
use starry.Codec.Protobuf.{Library}
use starry.Codec.Frames.{frame}
use starry.Connection.{Connection, connected, Wrote}
use starry.Connection.Inv.{Inv, stream}
use starry.RpcChannel.{RpcChannel, RpcMessage, request, response, OutstandingCall}
use starry.RpcChannel.Answers.{times, call_method_lem, on_rpc_message-Inv}
use starry.RpcChannel.Answers
use starry.RpcServer.{Name, RpcServer}
use starry.RpcServer.Channels.{Offers}
use starry.Rpc.{Accessors}
use starry.Rpc.Frames.{IsShort, Accepts}
use starry.Rpc.Ends.{Called, Served, Over, call_lem, serve_lem, over_lem}

module _ (l : Library) (tag : List ℕ) (short : length tag ≤ 512) {Body : Type 0}
    (a : Accessors l Body) where
  open a use {write}

  -- What the two ends need for a call. The two connections have carried nothing yet.
  pub record IsReady (c : RpcChannel Name Body) (own : ℕ) (conn : Connection) (s : RpcServer Body)
      (name : ℕ) (ch : RpcChannel Name Body) (back : Connection) (service method : Name)
      : Type 0 where
    pub caller : Answers.Inv c
    pub own_connection : c.conn ≡ own
    pub ids : c.id + 1 < 2 ^ 63
    pub connection : Inv conn
    pub up : conn.state ≡ connected
    pub fresh : stream conn ≡ []
    pub channel : lookup name s.channels ≡ some ch
    pub channel_connection : ch.conn ≡ name
    pub offers : Offers s service method
    pub back_connection : Inv back
    pub back_up : back.state ≡ connected
    pub back_fresh : stream back ≡ []

  -- A message that fits its connection.
  pub record CanGo (conn : Connection) (m : RpcMessage Name Body) (w : Wrote) : Type 0 where
    pub short_enough : IsShort l tag short (write m)
    pub accepted : Accepts l tag short conn (write m) w

  -- What has gone from one end stands in the buffer of the other.
  pub record Arrived (b : Buffer) (m : RpcMessage Name Body) (fuel : ℕ) : Type 0 where
    pub valid : Contents.Inv b
    pub whole : contents b ≡ frame l tag (write m)
    pub enough : length (contents b) < fuel

  -- A call with a callback, over connections that are up and have carried nothing, each the one that
  -- its channel was made with, of a method that the server offers: the
  -- request is all that the caller's connection carries, the server reads it from there and calls the method; `done`, given a response of the method's type, sends
  -- the response, which is all that the server's connection carries; and the caller, who reads it from there, is told the reply, once,
  -- and waits no more. No assertion fails on the way. Needed are that the ids stay below 2 ^ 63; an
  -- initialized request and response of fewer than 256 bytes, with a tag of at most 512 bytes, that
  -- the sockets take without an error other than EWOULDBLOCK and whose rest fits into the outputs;
  -- that the bytes of each stand in one buffer at the other end; and more fuel than bytes.
  pub call-answered :
      (c : RpcChannel Name Body) (own : ℕ) (conn : Connection) (s : RpcServer Body) (name : ℕ)
      (ch : RpcChannel Name Body) (back : Connection) (service method : Name) (body reply : Body)
      (out : OutstandingCall) (w w' : Wrote) (b b' : Buffer) (fuel : ℕ)
      → IsReady c own conn s name ch back service method
      → out.has_response ≡ true
      → out.has_done ≡ true
      → CanGo conn (request (c.id + 1) service method body) w
      → CanGo back (response (c.id + 1) reply) w'
      → Arrived b (request (c.id + 1) service method body) fuel
      → Arrived b' (response (c.id + 1) reply) fuel
      → (called : Called l tag short a c conn service method body out w) × (served : Served l tag
          short a s name ch back b fuel
          (c.id + 1)
          service
          method
          body
          reply
          w')
        × (over : Over l tag short a called.caller own called.connection b' fuel (c.id + 1) reply)
        × (contents b ≡ stream called.connection)
        × (contents b' ≡ stream served.connection)
        × (over.caller.answered ≡ (c.id + 1, reply) ∷ c.answered)
  call-answered c own conn s name ch back service method body reply out w w' b b' fuel r has_r has_d
        go back_go at_server at_caller =
      let called =
        call_lem l tag short a c conn service method body out w r.caller r.ids r.connection r.up
          go.short_enough go.accepted in
      let served =
        serve_lem l tag short a s name ch back b fuel (c.id + 1) service method body reply w'
          r.channel r.channel_connection r.offers at_server.valid at_server.whole at_server.enough
          go.short_enough r.back_connection r.back_up back_go.short_enough back_go.accepted in
      let over =
        over_lem l tag short a called.caller own called.connection b' fuel (c.id + 1) reply out
          called.valid (called.own ∙ r.own_connection) called.waits has_r has_d at_caller.valid
          at_caller.whole at_caller.enough back_go.short_enough in
      (
        called,
        served,
        over,
        at_server.whole
            ∙ ap (λ x. x ++ frame l tag (write (request (c.id + 1) service method body)))
                (sym r.fresh)
            ∙ sym called.sent,
        at_caller.whole
            ∙ ap (λ x. x ++ frame l tag (write (response (c.id + 1) reply))) (sym r.back_fresh)
            ∙ sym served.sent,
        over.told ∙ ap (λ x. (c.id + 1, reply) ∷ x) called.same_answers,
      )
