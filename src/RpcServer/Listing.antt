-- ===== src/RpcServer/Listing.antt =====
-- What `listRpc` and `getService` tell of the table.
use starry.Common.{
  ℕ, ◌≡◌, ◌⊎◌, refl, ap, sym, ◌∙◌, inl, inr, Bool, true, false, List, [], ◌∷◌, ◌++◌, map, Option,
  none, some, append-nil, append_assoc, if◌then◌else◌,
}
use starry.RpcServer.{
  Name, Descriptor, ServiceMap, find, ListRpcResponse, no_error, no_method, no_service, method_text,
  add_method_names, list_services, list_one, list_rpc, describe, get_service,
}
use starry.RpcServer.Services.{
  keys, listed, Sorted, is_some, latest, register_all, register_all-find, register_all-Sorted,
  listed-keys,
}

-- The texts of all methods, service by service.
abbrev pub all_methods : ServiceMap → List Name
all_methods [] = []
all_methods ((k, d) ∷ m) = map method_text d.methods ++ all_methods m

list_services_lem :
    (b : Bool) (m : ServiceMap) (r : ListRpcResponse)
    → ((list_services b m r).service_name ≡ r.service_name ++ keys m)
      × ((list_services b m r).method_name ≡ r.method_name ++ (if b then all_methods m else []))
      × ((list_services b m r).error ≡ r.error)
unfolding list_services add_method_names
list_services_lem true [] r =
    (sym (append-nil r.service_name), sym (append-nil r.method_name), refl)
list_services_lem false [] r =
    (sym (append-nil r.service_name), sym (append-nil r.method_name), refl)
list_services_lem true ((k, d) ∷ m) r =
    let r' : ListRpcResponse = record r {
      service_name = r.service_name ++ (k ∷ []);
      method_name = r.method_name ++ map method_text d.methods;
    } in
    let (x, y, z) = list_services_lem true m r' in
    (
      x ∙ append_assoc r.service_name (k ∷ []) (keys m),
      y ∙ append_assoc r.method_name (map method_text d.methods) (all_methods m),
      z,
    )
list_services_lem false ((k, d) ∷ m) r =
    let r' : ListRpcResponse = record r { service_name = r.service_name ++ (k ∷ []) } in
    let (x, y, z) = list_services_lem false m r' in
    (x ∙ append_assoc r.service_name (k ∷ []) (keys m), y, z)

-- Whatever descriptors were registered, in whatever order: `listRpc` without a name tells exactly the names
-- that were registered, in increasing order and none twice, and with `list_method` the methods of
-- the services in the same order, else none; and of each name the descriptor registered last is found.
pub list_rpc-registered :
    (ds : List Descriptor) (list_method : Bool)
    → Sorted (list_rpc (register_all [] ds) [] list_method).service_name
      × ((name : Name)
          → listed name (list_rpc (register_all [] ds) [] list_method).service_name
            ≡ is_some (latest name ds none))
      × ((name : Name) → find name (register_all [] ds) ≡ latest name ds none)
      × ((list_rpc (register_all [] ds) [] list_method).method_name
          ≡ (if list_method then all_methods (register_all [] ds) else []))
      × ((list_rpc (register_all [] ds) [] list_method).error ≡ no_error)
unfolding list_rpc find
list_rpc-registered ds b =
    let services : ServiceMap = register_all [] ds in
    let (x, y, z) =
      list_services_lem b services
        (record { error = no_error; service_name = []; method_name = [] }) in
    (
      rw x (register_all-Sorted [] ds tt),
      λ name.
          ap (listed name) x
          ∙ listed-keys name services
          ∙ ap is_some (register_all-find name [] ds),
      λ name. register_all-find name [] ds,
      y,
      z,
    )

-- For a name that is not empty `listRpc` and `getService` find a service or miss it together, but
-- tell a miss by different codes: NO_METHOD and NO_SERVICE.
pub list_rpc-get_service :
    (services : ServiceMap) (c : ℕ) (name : Name) (list_method : Bool)
    → ((is_some (find (c ∷ name) services) ≡ true)
        × ((list_rpc services (c ∷ name) list_method).error ≡ no_error)
        × ((get_service services (c ∷ name)).error ≡ no_error))
      ⊎ ((is_some (find (c ∷ name) services) ≡ false)
          × ((list_rpc services (c ∷ name) list_method).error ≡ no_method)
          × ((get_service services (c ∷ name)).error ≡ no_service))
unfolding list_rpc list_one get_service describe
list_rpc-get_service services c name b = by_find (find (c ∷ name) services)
  where
    by_find :
        (o : Option Descriptor)
        → ((is_some o ≡ true)
            × ((list_one (c ∷ name) b o).error ≡ no_error)
            × ((describe o).error ≡ no_error))
          ⊎ ((is_some o ≡ false)
              × ((list_one (c ∷ name) b o).error ≡ no_method)
              × ((describe o).error ≡ no_service))
    by_find none = inr (refl, refl, refl)
    by_find (some d) = inl (refl, refl, refl)
