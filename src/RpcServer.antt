-- ===== src/RpcServer.antt =====
-- starry/net/rpc/rpc_server.cpp and starry/net/rpc/rpc_service.cpp: the table of services, what the
-- service `RpcService` tells of it, and the channels of the connections.
-- A name is its bytes. A connection is a number; `channels` are the channels that live, each
-- owned by the context of its connection, and the message callback and the callbacks of calls hold
-- raw pointers to them. What the descriptors of protobuf say is the record `Descriptor`.
pub mod Services
pub mod Listing
pub mod Channels
mod Tests
use starry.Common.{
  ℕ, ◌≡◌, Bool, true, false, not, List, [], ◌∷◌, ◌++◌, map, Option, none, some, same_bytes,
  bytes_ltb, ◌==◌, if◌then◌else◌, lookup, put, erase, Outcome, ok, err, undefined, ◌>>=◌,
}
use starry.RpcChannel.{RpcChannel, RpcMessage, ServiceTable, on_rpc_message, done_callback}

abbrev pub Name : Type 0
Name = List ℕ

-- The names of a method, of its input and of its output; a file with its text.
pub record Method : Type 0 where
  pub name : Name
  pub full_name : Name
  pub input_type : Name
  pub output_type : Name

pub record File : Type 0 where
  pub name : Name
  pub debug_string : Name

pub record Descriptor : Type 0 where
  pub full_name : Name
  pub methods : List Method
  pub file : File
  pub dependencies : List File

-- `std::map<std::string, Service*>`, in the order of its keys.
abbrev pub ServiceMap : Type 0
ServiceMap = List (Name × Descriptor)

unfoldable pub find : Name → ServiceMap → Option Descriptor
find k [] = none
find k ((j, d) ∷ m) = if same_bytes j k then some d else find k m

-- `map[k] = v`
unfoldable pub insert : Name → Descriptor → ServiceMap → ServiceMap
insert k d [] = (k, d) ∷ []
insert k d ((j, e) ∷ m) =
    let rest = (j, e) ∷ insert k d m in
    if bytes_ltb k j then (k, d) ∷ (j, e) ∷ m else if bytes_ltb j k then rest else (j, d) ∷ m

unfoldable pub register_service : ServiceMap → Descriptor → ServiceMap
unfolding insert
register_service services desc = insert desc.full_name desc services

unfoldable pub find_method : Name → List Method → Bool
find_method k [] = false
find_method k (m ∷ ms) = if same_bytes m.name k then true else find_method k ms

pub data ErrorCode : Type 0 where
  no_error no_service no_method : ErrorCode

pub record ListRpcResponse : Type 0 where
  pub error : ErrorCode
  pub service_name : List Name
  pub method_name : List Name

pub record GetServiceResponse : Type 0 where
  pub error : ErrorCode
  pub proto_file : List Name
  pub proto_file_name : List Name

-- `full (input) : output`
unfoldable pub method_text : Method → Name
method_text m =
    m.full_name ++ (b' ' ∷ b'(' ∷ m.input_type ++ (b')' ∷ b' ' ∷ b':' ∷ b' ' ∷ m.output_type))

unfoldable pub add_method_names : Descriptor → List Name → List Name
unfolding method_text
add_method_names desc names = names ++ map method_text desc.methods

-- The loop over all services.
unfoldable pub list_services : Bool → ServiceMap → ListRpcResponse → ListRpcResponse
unfolding add_method_names
list_services list_method [] r = r
list_services list_method ((k, desc) ∷ m) r = list_services list_method m (record r {
  service_name = r.service_name ++ (k ∷ []);
  method_name = if list_method then add_method_names desc r.method_name else r.method_name;
})

unfoldable pub list_one : Name → Bool → Option Descriptor → ListRpcResponse
unfolding add_method_names
list_one name list_method none = record { error = no_method; service_name = []; method_name = [] }
list_one name list_method (some desc) = record {
  error = no_error;
  service_name = [];
  method_name = if list_method then add_method_names desc (name ∷ []) else name ∷ [];
}

unfoldable pub list_rpc : ServiceMap → Name → Bool → ListRpcResponse
unfolding list_services list_one
list_rpc services [] list_method =
    list_services list_method services
      (record { error = no_error; service_name = []; method_name = [] })
list_rpc services (c ∷ name) list_method =
    list_one (c ∷ name) list_method (find (c ∷ name) services)

unfoldable pub describe : Option Descriptor → GetServiceResponse
describe none = record { error = no_service; proto_file = []; proto_file_name = [] }
describe (some desc) = record {
  error = no_error;
  proto_file = desc.file.debug_string ∷ map (λ f. f.debug_string) desc.dependencies;
  proto_file_name = desc.file.name ∷ map (λ f. f.name) desc.dependencies;
}

unfoldable pub get_service : ServiceMap → Name → GetServiceResponse
unfolding describe
get_service services name = describe (find name services)

-- What a channel finds through its pointer to the table; `registerService` has followed each pointer,
-- so that none is null.
unfoldable pub table : ServiceMap → ServiceTable Name
unfolding find_method
table services service = elim (find service services) [
  | none ↦ none
  | some desc ↦ some (some (λ name. find_method name desc.methods))
]

module _ (Body : Type 0) where
  pub record RpcServer : Type 0 where
    pub services : ServiceMap
    pub channels : List (ℕ × RpcChannel Name Body)

module _ {Body : Type 0} where
  -- The constructor registers the service `RpcService`.
  unfoldable pub init : Descriptor → RpcServer Body
  unfolding register_service
  init meta = record { services = register_service [] meta; channels = [] }

  unfoldable pub register : RpcServer Body → Descriptor → RpcServer Body
  unfolding register_service
  register s desc = record s { services = register_service s.services desc }

  abbrev pub new_channel : ℕ → RpcChannel Name Body
  new_channel conn = record {
    conn = conn;
    id = 0;
    outstandings = [];
    services = none;
    sent = [];
    answered = [];
    invoked = [];
  }

  -- A connection comes up, or goes down: the context is set, or emptied, which destroys the channel.
  unfoldable pub on_connection : RpcServer Body → ℕ → Bool → RpcServer Body
  unfolding table
  on_connection s conn true = record s {
    channels =
        put conn (record (new_channel conn) { services = some (table s.services) }) s.channels;
  }
  on_connection s conn false = record s { channels = erase conn s.channels }

  -- A member function of the channel of a connection, called through a raw pointer. The channel
  -- sees the table as it is now.
  unfoldable pub on_channel :
      RpcServer Body
      → ℕ
      → (RpcChannel Name Body → Outcome (RpcChannel Name Body))
      → Outcome (RpcServer Body)
  unfolding table
  on_channel s conn f = elim (lookup conn s.channels) [
    | none ↦ err undefined
    | some c ↦ f (record c { services = some (table s.services) }) >>= λ c'.
        ok (record s { channels = put conn c' s.channels })
  ]

  unfoldable pub on_message : RpcServer Body → ℕ → RpcMessage Name Body → Outcome (RpcServer Body)
  unfolding on_channel
  on_message s conn m = on_channel s conn (λ c. on_rpc_message c conn m)

  -- A service calls `done`, at once or later, with a response of some type.
  unfoldable pub done : RpcServer Body → ℕ → ℕ → ℕ → ℕ → Body → Outcome (RpcServer Body)
  unfolding on_channel
  done s conn prototype_type response_type id body =
      on_channel s conn (λ c. done_callback c prototype_type response_type body id)
