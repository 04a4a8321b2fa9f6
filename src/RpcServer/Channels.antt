-- ===== src/RpcServer/Channels.antt =====
-- What becomes of a request on a connection of the server.
use starry.Common.{
  ℕ, ◌≡◌, ◌≢◌, refl, ap, ◌∙◌, Bool, true, false, ◌∷◌, none, some, ==_refl, ne→==_false,
  if◌then◌else◌, lookup, put, erase, lookup-put, lookup-erase, ok, err, undefined, Outcome,
  assertion, Option-cases, inl, inr,
}
use starry.RpcChannel.Answers.{on_rpc_message-own}
use starry.RpcChannel.{
  RpcChannel, RpcMessage, request, response, has_method, has_null, dispatch, call_service_method,
  on_rpc_message, done_callback,
}
use starry.RpcServer.{
  Name, RpcServer, find, table, new_channel, on_connection, on_channel, on_message, done,
}

module _ {Body : Type 0} where
  -- Nobody owns the channel of a connection that went down: a service that calls `done` after
  -- that, or a message on that connection, goes through a pointer to a destroyed object.
  pub done-down :
      (s : RpcServer Body) (conn kind given id : ℕ) (body : Body) (m : RpcMessage Name Body)
      → (done (on_connection s conn false) conn kind given id body ≡ err undefined)
        × (on_message (on_connection s conn false) conn m ≡ err undefined)
  unfolding done on_message on_channel on_connection
  done-down s conn kind given id body m =
      let gone : lookup conn (erase conn s.channels) ≡ none =
        lookup-erase conn conn s.channels
        ∙ ap (λ b. if b then none else lookup conn s.channels) (==_refl conn) in
      (rw (on_channel, gone) refl, rw (on_channel, gone) refl)

  -- The state of the server in which `c` is the channel of the connection and the others are as in
  -- `s`.
  pub record With (s : RpcServer Body) (conn : ℕ) (c : RpcChannel Name Body) (s' : RpcServer Body)
      : Type 0 where
    pub same_services : s'.services ≡ s.services
    pub here : lookup conn s'.channels ≡ some c
    pub others : (other : ℕ) → conn ≢ other → lookup other s'.channels ≡ lookup other s.channels

  put-With :
      (s : RpcServer Body) (conn : ℕ) (c : RpcChannel Name Body)
      → With s conn c (record s { channels = put conn c s.channels })
  put-With s conn c = record {
    same_services = refl;
    here =
        lookup-put conn conn c s.channels
        ∙ ap (λ b. if b then some c else lookup conn s.channels) (==_refl conn);
    others = λ other h.
        lookup-put conn other c s.channels
        ∙ ap (λ b. if b then some c else lookup other s.channels) (ne→==_false conn other h);
  }

  -- The channel with the table that its pointer shows.
  abbrev pub current : RpcServer Body → RpcChannel Name Body → RpcChannel Name Body
  current s c = record c { services = some (table s.services) }

  pub on_channel_lem :
      (s : RpcServer Body) (conn : ℕ) (c : RpcChannel Name Body)
      (f : RpcChannel Name Body → Outcome (RpcChannel Name Body)) (c' : RpcChannel Name Body)
      → lookup conn s.channels ≡ some c
      → f (current s c) ≡ ok c'
      → on_channel s conn f ≡ ok (record s { channels = put conn c' s.channels })
  unfolding on_channel
  on_channel_lem s conn c f c' h e = rw (on_channel, h, e) refl

  on_connection-up :
      (s : RpcServer Body) (conn : ℕ)
      → With s conn (current s (new_channel conn)) (on_connection s conn true)
  unfolding on_connection
  on_connection-up s conn = put-With s conn (current s (new_channel conn))

  -- A service with that method is registered now.
  abbrev pub Offers : RpcServer Body → Name → Name → Type 0
  Offers s service method = has_method (some (table s.services)) service method ≡ true

  abbrev pub Ignores : RpcServer Body → Name → Name → Type 0
  Ignores s service method = has_method (some (table s.services)) service method ≡ false

  never_null :
      (s : RpcServer Body) (service : Name) → has_null (some (table s.services)) service ≡ false
  unfolding table
  never_null s service = elim (Option-cases (find service s.services)) [
    | inl e ↦ rw (has_null, e) refl
    | inr (desc, e) ↦ rw (has_null, e) refl
  ]

  request_lem :
      (s : RpcServer Body) (conn : ℕ) (c : RpcChannel Name Body) (id : ℕ) (service method : Name)
      (body : Body) (b : Bool)
      → c.conn ≡ conn
      → has_method (some (table s.services)) service method ≡ b
      → on_rpc_message (current s c) conn (request id service method body)
        ≡ ok (
            if b
            then record (current s c) { invoked = (id, service, method, body) ∷ c.invoked }
            else current s c)
  unfolding dispatch call_service_method
  request_lem s conn c id service method body b own h =
      on_rpc_message-own (current s c) conn (request id service method body) own
      ∙ rw (dispatch, call_service_method, never_null s service, h) refl

  -- A request on a connection that is up, and that is the channel's, reaches the service when the method is registered at the time of the request, before
  -- or after the connection came up, and then `done`, called while the connection is up with a response of the method's type, sends one response with the id of the request;
  -- the channels of the other connections stay as they are.
  pub on_message-answered :
      (s : RpcServer Body) (conn id : ℕ) (c : RpcChannel Name Body) (service method : Name)
      (body reply : Body)
      → lookup conn s.channels ≡ some c
      → c.conn ≡ conn
      → Offers s service method
      → (s1 s2 : RpcServer Body) × (c1 c2 : RpcChannel Name Body) × (on_message s conn
            (request id service method body)
          ≡ ok s1)
        × With s conn c1 s1
        × (c1.invoked ≡ (id, service, method, body) ∷ c.invoked)
        × ((kind : ℕ) → done s1 conn kind kind id reply ≡ ok s2)
        × With s conn c2 s2
        × (c2.sent ≡ response id reply ∷ c.sent)
        × (c2.invoked ≡ c1.invoked)
  unfolding on_message done done_callback
  on_message-answered s conn id c service method body reply h own offer =
      let c1 : RpcChannel Name Body = record (current s c) {
        invoked = (id, service, method, body) ∷ c.invoked;
      } in
      let s1 : RpcServer Body = record s { channels = put conn c1 s.channels } in
      let c2 : RpcChannel Name Body = record (current s1 c1) {
        sent = response id reply ∷ c.sent;
      } in
      let w1 = put-With s conn c1 in
      let w2 = put-With s1 conn c2 in
      (
        s1,
        record s1 { channels = put conn c2 s1.channels },
        c1,
        c2,
        on_channel_lem s conn c (λ x. on_rpc_message x conn (request id service method body)) c1 h
            (request_lem s conn c id service method body true own offer),
        w1,
        refl,
        λ kind.
            on_channel_lem s1 conn c1 (λ x. done_callback x kind kind reply id) c2 w1.here
              (rw (==_refl kind) refl),
        record {
          same_services = w2.same_services ∙ w1.same_services;
          here = w2.here;
          others = λ other k. w2.others other k ∙ w1.others other k;
        },
        refl,
        refl,
      )

  -- A request for a service or a method that is not registered is dropped: nothing is called, and nothing is
  -- sent, so that the caller, which has no way to give a call up, keeps waiting.
  pub on_message-dropped :
      (s : RpcServer Body) (conn id : ℕ) (c : RpcChannel Name Body) (service method : Name)
      (body : Body)
      → lookup conn s.channels ≡ some c
      → c.conn ≡ conn
      → Ignores s service method
      → (s' : RpcServer Body) × (on_message s conn (request id service method body) ≡ ok s')
        × With s conn (current s c) s'
  unfolding on_message
  on_message-dropped s conn id c service method body h own no_such = (
    record s { channels = put conn (current s c) s.channels },
    on_channel_lem s conn c (λ x. on_rpc_message x conn (request id service method body))
        (current s c) h (request_lem s conn c id service method body false own no_such),
    put-With s conn (current s c),
  )

  -- A response of another type than the method's stops the process.
  pub done-other_type :
      (s : RpcServer Body) (conn kind given id : ℕ) (c : RpcChannel Name Body) (body : Body)
      → lookup conn s.channels ≡ some c
      → given ≢ kind
      → done s conn kind given id body ≡ err assertion
  unfolding done on_channel done_callback
  done-other_type s conn kind given id c body h other =
      rw (on_channel, h, ne→==_false given kind other) refl
