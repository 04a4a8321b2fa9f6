-- ===== src/RpcChannel.antt =====
-- starry/net/rpc/rpc_channel.h and starry/net/rpc/rpc_channel.cpp: calls and their answers.
-- `sent` are the messages given to the codec, the last one first; `answered` the completions that
-- the callers have seen and `invoked` the methods of services that were called, the last one first.
-- A service table gives, for a service's name, a pointer to the service, `none` if it is null, and
-- which methods it has; the parsed body of a message stands for what ParseFromString makes of it.
-- A connection and a descriptor of a message type are numbers; `conn` is the connection that the
-- channel was made with or was given by `setConnection`.
pub mod Answers
mod Tests
use starry.Common.{
  ℕ, ◌+◌, ◌%◌, ◌^◌, Bool, true, false, List, [], ◌∷◌, Option, none, some, if◌then◌else◌, lookup,
  put, erase, ◌==◌, Outcome, ok, err, assertion, ◌>>=◌, ◌>>◌, assert,
}

-- `OutstandingCall`: whether a response prototype and a callback were given.
pub record OutstandingCall : Type 0 where
  pub has_response : Bool
  pub has_done : Bool

-- `++id_` of an int64_t
abbrev pub next_id : ℕ → ℕ
next_id id = (id + 1) % 2 ^ 64

abbrev pub ServiceTable : Type 0 → Type 0
ServiceTable Name = Name → Option (Option (Name → Bool))

-- Whether there is a table of services, which has a null pointer for the service.
abbrev pub has_null : {Name : Type 0} → Option (ServiceTable Name) → Name → Bool
has_null none service = false
has_null (some table) service = elim (table service) [
  | none ↦ false
  | some pointer ↦ elim pointer [ none ↦ true | some methods ↦ false ]
]

-- Whether there is a table of services, which has the service, which has the method.
abbrev pub has_method : {Name : Type 0} → Option (ServiceTable Name) → Name → Name → Bool
has_method none service method = false
has_method (some table) service method = elim (table service) [
  | none ↦ false
  | some pointer ↦ elim pointer [ none ↦ false | some methods ↦ methods method ]
]

module _ (Name Body : Type 0) where
  pub data RpcMessage : Type 0 where
    request : ℕ → Name → Name → Body → RpcMessage
    response : ℕ → Body → RpcMessage
    error : ℕ → RpcMessage

  pub record RpcChannel : Type 0 where
    pub conn : ℕ
    pub id : ℕ
    pub outstandings : List (ℕ × OutstandingCall)
    pub services : Option (ServiceTable Name)
    pub sent : List RpcMessage
    pub answered : List (ℕ × Body)
    pub invoked : List (ℕ × Name × Name × Body)

module _ {Name Body : Type 0} where
  unfoldable pub call_method :
      RpcChannel Name Body → Name → Name → Body → OutstandingCall → RpcChannel Name Body
  call_method c service method body out = record c {
    id = next_id c.id;
    outstandings = put (next_id c.id) out c.outstandings;
    sent = request (next_id c.id) service method body ∷ c.sent;
  }

  abbrev pub complete : RpcChannel Name Body → ℕ → Body → OutstandingCall → RpcChannel Name Body
  complete c id body out =
      if out.has_response
      then if out.has_done then record c { answered = (id, body) ∷ c.answered } else c
      else c

  -- The RESPONSE branch of `onRpcMessage`.
  unfoldable pub on_response : RpcChannel Name Body → ℕ → Body → RpcChannel Name Body
  on_response c id body = elim (lookup id c.outstandings) [
    | none ↦ c
    | some out ↦ complete (record c { outstandings = erase id c.outstandings }) id body out
  ]

  unfoldable pub call_service_method :
      RpcChannel Name Body → ℕ → Name → Name → Body → Outcome (RpcChannel Name Body)
  call_service_method c id service method body =
      if has_null c.services service
      then err assertion
      else ok (
          if has_method c.services service method
          then record c { invoked = (id, service, method, body) ∷ c.invoked }
          else c)

  -- `onRpcMessage` behind its assertion on the connection.
  unfoldable pub dispatch :
      RpcChannel Name Body → RpcMessage Name Body → Outcome (RpcChannel Name Body)
  dispatch c (request id service method body) = call_service_method c id service method body
  dispatch c (response id body) = ok (on_response c id body)
  dispatch c (error id) = ok c

  unfoldable pub on_rpc_message :
      RpcChannel Name Body → ℕ → RpcMessage Name Body → Outcome (RpcChannel Name Body)
  unfolding dispatch
  on_rpc_message c conn m = do assert (conn == c.conn); dispatch c m

  -- `doneCallback` with the descriptors of the prototype and of the response.
  unfoldable pub done_callback :
      RpcChannel Name Body → ℕ → ℕ → Body → ℕ → Outcome (RpcChannel Name Body)
  done_callback c prototype_type response_type body id = do
    assert (response_type == prototype_type)
    ok (record c { sent = response id body ∷ c.sent })
