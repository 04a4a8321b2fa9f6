-- ===== src/TcpClient/Retry.antt =====
-- What a client does when its connection is closed.
use starry.Common.{
  ℕ, ◌≡◌, refl, Bool, true, false, [], ◌∷◌, ◌++◌, none, some, ==_refl, ok, err, undefined,
}
use starry.TcpClient.{
  TcpClient, start_connector, destroy, call, use_connector, connect, stop, remove_connection,
  drop_client,
}

-- With `retry` and a connection wanted, `removeConnection` has the connection destroyed and starts
-- no other: the connector is gone, and a later `connect` or `stop`, or the destructor, uses a null pointer.
pub remove_connection-retry :
    (c : TcpClient) (id : ℕ) (unique : Bool)
    → c.has_connector ≡ true
    → c.connection ≡ some id
    → c.retry ≡ true
    → c.connect_wanted ≡ true
    → (c' : TcpClient) × (remove_connection c id ≡ ok c')
      × (c'.calls ≡ c.calls ++ (destroy id ∷ []))
      × (c'.connection ≡ none)
      × (connect c' ≡ err undefined)
      × (stop c' ≡ err undefined)
      × (drop_client unique c' ≡ err undefined)
unfolding remove_connection call use_connector connect stop drop_client
remove_connection-retry c id unique h e r w = (
  record c { connection = none; calls = c.calls ++ (destroy id ∷ []); has_connector = false },
  rw (remove_connection, use_connector, h, e, ==_refl id, r, w) refl,
  refl,
  refl,
  refl,
  refl,
  refl,
)

-- Without `retry` the connector is kept, and the client can connect again.
pub remove_connection-kept :
    (c : TcpClient) (id : ℕ)
    → c.has_connector ≡ true
    → c.connection ≡ some id
    → c.retry ≡ false
    → (c' c'' : TcpClient) × (remove_connection c id ≡ ok c') × (connect c' ≡ ok c'')
unfolding remove_connection call use_connector connect
remove_connection-kept c id h e r =
    let c1 : TcpClient = record c { connection = none; calls = c.calls ++ (destroy id ∷ []) } in
    (
      c1,
      record c1 { connect_wanted = true; calls = c1.calls ++ (start_connector ∷ []) },
      rw (remove_connection, e, ==_refl id, r) refl,
      rw (connect, use_connector, h) refl,
    )
