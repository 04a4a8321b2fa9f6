-- ===== src/RpcServer/Tests.antt =====
-- A server with two services and one connection.
use starry.Common.{
  ℕ, ◌≡◌, ◌⊎◌, refl, true, false, List, [], ◌∷◌, none, some, lookup, ok, err, undefined,
  if◌then◌else◌,
}
use starry.RpcChannel.{RpcChannel, request, response}
use starry.RpcServer.{
  Name, Descriptor, Method, RpcServer, find, insert, register_service, find_method, table,
  on_connection, on_message, done, list_rpc, list_services, get_service, add_method_names, no_error,
  no_method, no_service, new_channel,
}
use starry.RpcServer.Services.{Sorted, listed, is_some, latest, register_all}
use starry.RpcServer.Listing.{all_methods, list_rpc-registered, list_rpc-get_service}
use starry.RpcServer.Channels.{With, current, done-down, on_message-answered, on_message-dropped}

abbrev get : Method
get = record {
  name = 103 ∷ [];
  full_name = 98 ∷ 46 ∷ 103 ∷ [];
  input_type = 105 ∷ [];
  output_type = 111 ∷ [];
}

abbrev service_b : Descriptor
service_b = record {
  full_name = 98 ∷ [];
  methods = get ∷ [];
  file = record { name = 98 ∷ []; debug_string = [] };
  dependencies = [];
}

abbrev service_a : Descriptor
service_a = record service_b { full_name = 97 ∷ []; methods = [] }

-- Registered out of order, and one of them twice.
abbrev registrations : List Descriptor
registrations = service_b ∷ service_a ∷ service_b ∷ []

in_order :
    (list_rpc (register_all [] registrations) [] false).service_name ≡ (97 ∷ []) ∷ (98 ∷ []) ∷ []
unfolding list_rpc register_all register_service insert list_services add_method_names
in_order = refl

abbrev server : RpcServer ℕ
server = record {
  services = ((97 ∷ []), service_a) ∷ ((98 ∷ []), service_b) ∷ [];
  channels = (7, new_channel 7) ∷ [];
}

list_rpc-registered_example :
    Sorted (list_rpc (register_all [] registrations) [] true).service_name
    × ((name : Name)
        → listed name (list_rpc (register_all [] registrations) [] true).service_name
          ≡ is_some (latest name registrations none))
    × ((name : Name) → find name (register_all [] registrations) ≡ latest name registrations none)
    × ((list_rpc (register_all [] registrations) [] true).method_name
        ≡ (if true then all_methods (register_all [] registrations) else []))
    × ((list_rpc (register_all [] registrations) [] true).error ≡ no_error)
list_rpc-registered_example = list_rpc-registered registrations true

list_rpc-get_service_example :
    ((is_some (find (99 ∷ []) server.services) ≡ true)
      × ((list_rpc server.services (99 ∷ []) true).error ≡ no_error)
      × ((get_service server.services (99 ∷ [])).error ≡ no_error))
    ⊎ ((is_some (find (99 ∷ []) server.services) ≡ false)
        × ((list_rpc server.services (99 ∷ []) true).error ≡ no_method)
        × ((get_service server.services (99 ∷ [])).error ≡ no_service))
list_rpc-get_service_example = list_rpc-get_service server.services 99 [] true

done-down_example :
    (done (on_connection server 7 false) 7 2 2 1 30 ≡ err undefined)
    × (on_message (on_connection server 7 false) 7 (response 1 30) ≡ err undefined)
done-down_example = done-down server 7 2 2 1 30 (response 1 30)

up_channel : lookup 7 server.channels ≡ some (new_channel 7)
unfolding lookup
up_channel = refl

on_message-answered_example :
    (s1 s2 : RpcServer ℕ) × (c1 c2 : RpcChannel Name ℕ) × (on_message server 7
        (request 4 (98 ∷ []) (103 ∷ []) 30)
      ≡ ok s1)
    × With server 7 c1 s1
    × (c1.invoked ≡ (4, 98 ∷ [], 103 ∷ [], 30) ∷ [])
    × ((kind : ℕ) → done s1 7 kind kind 4 31 ≡ ok s2)
    × With server 7 c2 s2
    × (c2.sent ≡ response 4 31 ∷ [])
    × (c2.invoked ≡ c1.invoked)
unfolding table find find_method
on_message-answered_example =
    on_message-answered server 7 4 (new_channel 7) (98 ∷ []) (103 ∷ []) 30 31 up_channel refl refl

on_message-dropped_example :
    (s' : RpcServer ℕ) × (on_message server 7 (request 4 (98 ∷ []) (104 ∷ []) 30) ≡ ok s')
    × With server 7 (current server (new_channel 7)) s'
unfolding table find find_method
on_message-dropped_example =
    on_message-dropped server 7 4 (new_channel 7) (98 ∷ []) (104 ∷ []) 30 up_channel refl refl
