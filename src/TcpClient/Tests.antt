-- ===== src/TcpClient/Tests.antt =====
-- A client that retries, with its first connection.
use starry.Common.{◌≡◌, refl, true, false, [], ◌∷◌, ◌++◌, none, some, ok, err, undefined}
use starry.TcpClient.{TcpClient, establish, destroy, connect, stop, remove_connection, drop_client}
use starry.TcpClient.Retry.{remove_connection-retry}

abbrev connected : TcpClient
connected = record {
  has_connector = true;
  retry = true;
  connect_wanted = true;
  next_conn_id = 2;
  connection = some 1;
  calls = establish 1 ∷ [];
}

remove_connection-retry_example :
    (c' : TcpClient) × (remove_connection connected 1 ≡ ok c')
    × (c'.calls ≡ connected.calls ++ (destroy 1 ∷ []))
    × (c'.connection ≡ none)
    × (connect c' ≡ err undefined)
    × (stop c' ≡ err undefined)
    × (drop_client false c' ≡ err undefined)
remove_connection-retry_example = remove_connection-retry connected 1 false refl refl refl refl
