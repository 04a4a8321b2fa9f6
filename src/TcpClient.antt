-- ===== src/TcpClient.antt =====
-- starry/net/include/tcp_client.h and starry/net/src/tcp_client.cpp, in the thread of its loop. A
-- connection is known by its number. `has_connector` is whether `connector_` is not null, and `calls`
-- holds the calls of the connector, of the connections and of the loop, in order. The log is at
-- the level INFO, the default, where `removeConnection` reads the address of the connector.
pub mod Retry
mod Tests
use starry.Common.{
  ℕ, ◌+◌, ◌≡◌, Bool, true, false, ◌&&◌, List, [], ◌∷◌, ◌++◌, Option, none, some, ◌==◌,
  if◌then◌else◌, Outcome, ok, err, undefined, ◌>>=◌, ◌>>◌, check, assert,
}

-- `start` and `stop` of the connector, and `shutdown`, `forceClose`, `setCloseCallback` with the
-- callback of the destructor, `connectEstablished` and `connectDestroyed` of a connection.
pub data Call : Type 0 where
  start_connector stop_connector : Call
  shut_down force_close set_close_callback establish destroy : ℕ → Call

pub record TcpClient : Type 0 where
  pub has_connector : Bool
  pub retry : Bool
  pub connect_wanted : Bool
  pub next_conn_id : ℕ
  pub connection : Option ℕ
  pub calls : List Call

abbrev pub is_connection : Option ℕ → ℕ → Bool
is_connection none id = false
is_connection (some c) id = c == id

unfoldable pub init : TcpClient
init = record {
  has_connector = true;
  retry = false;
  connect_wanted = true;
  next_conn_id = 1;
  connection = none;
  calls = [];
}

unfoldable pub call : TcpClient → Call → TcpClient
call c f = record c { calls = c.calls ++ (f ∷ []) }

-- A use of what `connector_` points to.
unfoldable pub use_connector : TcpClient → Outcome (Unit {0})
use_connector c = check c.has_connector undefined

unfoldable pub enable_retry : TcpClient → TcpClient
enable_retry c = record c { retry = true }

unfoldable pub connect : TcpClient → Outcome TcpClient
connect c = do use_connector c; ok (call (record c { connect_wanted = true }) start_connector)

unfoldable pub disconnect : TcpClient → TcpClient
disconnect c =
    let c' = record c { connect_wanted = false } in
    elim c.connection [ none ↦ c' | some id ↦ call c' (shut_down id) ]

unfoldable pub stop : TcpClient → Outcome TcpClient
stop c = do use_connector c; ok (call (record c { connect_wanted = false }) stop_connector)

unfoldable pub new_connection : TcpClient → TcpClient
new_connection c =
    let id = c.next_conn_id in
    call (record c { next_conn_id = id + 1; connection = some id }) (establish id)

unfoldable pub remove_connection : TcpClient → ℕ → Outcome TcpClient
remove_connection c id = do
  assert (is_connection c.connection id)
  let c' = call (record c { connection = none }) (destroy id)
  if c'.retry && c'.connect_wanted
      then (use_connector c' >> ok (record c' { has_connector = false }))
      else ok c'

-- The destructor; `unique` is whether the client held the only pointer to the connection.
unfoldable pub drop_client : Bool → TcpClient → Outcome TcpClient
drop_client unique c = elim c.connection [
  | none ↦ use_connector c >> ok (call c stop_connector)
  | some id ↦
      let c' = call c (set_close_callback id) in
      ok (if unique then call c' (force_close id) else c')
]
