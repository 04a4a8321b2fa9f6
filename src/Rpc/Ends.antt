-- ===== src/Rpc/Ends.antt =====
-- The three parts of a call: at the caller's end, at the server's, and at the caller's again.
use starry.Common.{
  ℕ, ◌+◌, ◌^◌, ◌≤◌, ◌<◌, ◌≡◌, refl, ap, sym, subst, ◌∙◌, true, List, [], ◌∷◌, ◌++◌, length, none,
  some, ok, ◌>>=◌, arith, lookup, erase, lookup-erase, ==_refl, if◌then◌else◌,
}
use starry.Buffer.{Buffer}
use starry.Buffer.Contents.{contents}
use starry.Buffer.Contents
use starry.Codec.Protobuf.{Library}
use starry.Codec.Frames.{frame}
use starry.Connection.{Connection, connected, Wrote}
use starry.Connection.Inv.{Inv, stream}
use starry.RpcChannel.{
  RpcChannel, request, response, OutstandingCall, next_id, call_method, on_response, complete,
  on_rpc_message, dispatch,
}
use starry.RpcChannel.Answers.{times, call_method_lem, on_response-Inv, on_rpc_message-own}
use starry.RpcChannel.Answers
use starry.RpcServer.{Name, RpcServer, done}
use starry.RpcServer
use starry.RpcServer.Channels.{Offers, With, on_message-answered}
use starry.Rpc.{Accessors, codec_send, call, caller_reads, server_reads, answer}
use starry.Rpc.Frames.{IsShort, Accepts, codec_send_lem, read_messages-frame}

module _ (l : Library) (tag : List ℕ) (short : length tag ≤ 512) {Body : Type 0}
    (a : Accessors l Body) where
  open a use {write, read, read-write}

  -- The caller's end after `CallMethod`: the call waits under a new id, and its frame stands in the
  -- connection.
  pub record Called (c : RpcChannel Name Body) (conn : Connection) (service method : Name)
      (body : Body) (out : OutstandingCall) (w : Wrote) : Type 0 where
    pub caller : RpcChannel Name Body
    pub connection : Connection
    pub made : call l tag a c conn service method body out w ≡ ok (caller, connection)
    pub valid : Answers.Inv caller
    pub id : caller.id ≡ c.id + 1
    pub waits : lookup (c.id + 1) caller.outstandings ≡ some out
    pub same_answers : caller.answered ≡ c.answered
    pub own : caller.conn ≡ c.conn
    pub up : connection.state ≡ connected
    pub fine : Inv connection
    pub sent :
        stream connection
        ≡ stream conn ++ frame l tag (write (request (c.id + 1) service method body))

  pub call_lem :
      (c : RpcChannel Name Body) (conn : Connection) (service method : Name) (body : Body)
      (out : OutstandingCall) (w : Wrote)
      → Answers.Inv c
      → c.id + 1 < 2 ^ 63
      → Inv conn
      → conn.state ≡ connected
      → IsShort l tag short (write (request (c.id + 1) service method body))
      → Accepts l tag short conn (write (request (c.id + 1) service method body)) w
      → Called c conn service method body out w
  unfolding call call_method
  call_lem c conn service method body out w v small vc up s acc =
      let n : next_id c.id ≡ c.id + 1 = omega arith in
      let (conn', e, vc', up', t) =
        codec_send_lem l tag short conn (write (request (c.id + 1) service method body)) w vc up s
          acc in
      let (c', e', v', _, waits, _) = call_method_lem c service method body out v small in
      record {
        caller = call_method c service method body out;
        connection = conn';
        made =
            ap
              (λ i. codec_send l tag conn (write (request i service method body)) w >>= λ x.
                ok (call_method c service method body out, x))
              n
            ∙ ap (λ r. r >>= λ x. ok (call_method c service method body out, x)) e;
        valid = subst Answers.Inv (sym e') v';
        id = n;
        waits =
            ap (λ i. lookup i (call_method c service method body out).outstandings) (sym n)
            ∙ subst (λ x. lookup x.id x.outstandings ≡ some out) (sym e') waits;
        same_answers = refl;
        own = refl;
        up = up';
        fine = vc';
        sent = t;
      }

  -- The server's end: the request is read, the method is called, and what `done` is given goes out.
  pub record Served (s : RpcServer Body) (name : ℕ) (c : RpcChannel Name Body) (conn : Connection)
      (b : Buffer) (fuel id : ℕ) (service method : Name) (body reply : Body) (w : Wrote)
      : Type 0 where
    pub asked : RpcServer Body
    pub rest : Buffer
    pub channel : RpcChannel Name Body
    pub read_it : server_reads l tag a name fuel (s, conn) b ≡ ok (some ((asked, conn), rest))
    pub nothing_left : contents rest ≡ []
    pub here : With s name channel asked
    pub invoked : channel.invoked ≡ (id, service, method, body) ∷ c.invoked
    pub answered : RpcServer Body
    pub connection : Connection
    pub replied :
        (kind : ℕ) → answer l tag a asked name conn kind kind id reply w ≡ ok (answered, connection)
    pub up : connection.state ≡ connected
    pub fine : Inv connection
    pub sent : stream connection ≡ stream conn ++ frame l tag (write (response id reply))

  pub serve_lem :
      (s : RpcServer Body) (name : ℕ) (c : RpcChannel Name Body) (conn : Connection) (b : Buffer)
      (fuel id : ℕ) (service method : Name) (body reply : Body) (w : Wrote)
      → lookup name s.channels ≡ some c
      → c.conn ≡ name
      → Offers s service method
      → Contents.Inv b
      → contents b ≡ frame l tag (write (request id service method body))
      → length (contents b) < fuel
      → IsShort l tag short (write (request id service method body))
      → Inv conn
      → conn.state ≡ connected
      → IsShort l tag short (write (response id reply))
      → Accepts l tag short conn (write (response id reply)) w
      → Served s name c conn b fuel id service method body reply w
  unfolding server_reads answer
  serve_lem s name c conn b fuel id service method body reply w has own offer vb same enough
        short_in vc up short_out acc =
      let (s1, s2, c1, c2, e1, w1, i1, e2, w2, sent2, _) =
        on_message-answered s name id c service method body reply has own offer in
      let (b', r, left) =
        read_messages-frame l tag short
          (λ (x : RpcServer Body × Connection) m.
            RpcServer.on_message x.0 name (read m) >>= λ s'. ok (s', x.1))
          (λ x. (x.0, starry.Rpc.default_error_callback x.1)) (s, conn) (s1, conn)
          (write (request id service method body)) b fuel short_in vb same enough
          (ap (λ m. RpcServer.on_message s name m >>= λ s'. ok (s', conn))
              (read-write (request id service method body))
            ∙ ap (λ o. o >>= λ s'. ok (s', conn)) e1) in
      let (conn', e, vc', up', t) =
        codec_send_lem l tag short conn (write (response id reply)) w vc up short_out acc in
      record {
        asked = s1;
        rest = b';
        channel = c1;
        read_it = r;
        nothing_left = left;
        here = w1;
        invoked = i1;
        answered = s2;
        connection = conn';
        replied = λ kind. rw (e2 kind, e) refl;
        up = up';
        fine = vc';
        sent = t;
      }

  -- The caller's end: the response is read, and the call is over.
  pub record Over (c : RpcChannel Name Body) (own : ℕ) (conn : Connection) (b : Buffer)
      (fuel id : ℕ) (reply : Body) : Type 0 where
    pub caller : RpcChannel Name Body
    pub rest : Buffer
    pub read_it : caller_reads l tag a own fuel (c, conn) b ≡ ok (some ((caller, conn), rest))
    pub nothing_left : contents rest ≡ []
    pub valid : Answers.Inv caller
    pub told : caller.answered ≡ (id, reply) ∷ c.answered
    pub once : times id caller.answered ≡ 1
    pub waits_no_more : lookup id caller.outstandings ≡ none

  response_lem :
      (c : RpcChannel Name Body) (id : ℕ) (reply : Body) (out : OutstandingCall)
      → lookup id c.outstandings ≡ some out
      → out.has_response ≡ true
      → out.has_done ≡ true
      → (on_response c id reply).answered ≡ (id, reply) ∷ c.answered
        × ((on_response c id reply).outstandings ≡ erase id c.outstandings)
  unfolding on_response
  response_lem c id reply out e r d =
      (rw (on_response, e, complete, r, d) refl, rw (on_response, e, complete, r, d) refl)

  pub over_lem :
      (c : RpcChannel Name Body) (own : ℕ) (conn : Connection) (b : Buffer) (fuel id : ℕ)
      (reply : Body) (out : OutstandingCall)
      → Answers.Inv c
      → c.conn ≡ own
      → lookup id c.outstandings ≡ some out
      → out.has_response ≡ true
      → out.has_done ≡ true
      → Contents.Inv b
      → contents b ≡ frame l tag (write (response id reply))
      → length (contents b) < fuel
      → IsShort l tag short (write (response id reply))
      → Over c own conn b fuel id reply
  unfolding caller_reads dispatch
  over_lem c own conn b fuel id reply out v mine waits r d vb same enough short_in =
      let (told, left_over) = response_lem c id reply out waits r d in
      let (b', e, left) =
        read_messages-frame l tag short
          (λ (x : RpcChannel Name Body × Connection) m.
            on_rpc_message x.0 own (read m) >>= λ c'. ok (c', x.1))
          (λ x. (x.0, starry.Rpc.default_error_callback x.1)) (c, conn)
          (on_response c id reply, conn) (write (response id reply)) b fuel short_in vb same enough
          (ap (λ m. on_rpc_message c own m >>= λ c'. ok (c', conn)) (read-write (response id reply))
            ∙ ap (λ o. o >>= λ c'. ok (c', conn))
                (on_rpc_message-own c own (response id reply) mine)) in
      record {
        caller = on_response c id reply;
        rest = b';
        read_it = e;
        nothing_left = left;
        valid = on_response-Inv c id reply v;
        told = told;
        once =
            ap (times id) told
            ∙ ap (λ t. (if t then 1 else 0) + times id c.answered) (==_refl id)
            ∙ omega (arith, v.waiting id (λ q. cc));
        waits_no_more =
            ap (lookup id) left_over
            ∙ lookup-erase id id c.outstandings
            ∙ ap (λ t. if t then none else lookup id c.outstandings) (==_refl id);
      }
