-- ===== src/TcpServer.antt =====
-- starry/net/include/tcp_server.h and starry/net/src/tcp_server.cpp, in the thread of the acceptor's
-- loop. The names of the connections of a server differ in their numbers only, and a name is its
-- number. `jobs` holds what was given to the loops of the connections, in order.
pub mod Table
mod Tests
use starry.Common.{
  ℕ, ◌+◌, ◌≡◌, Bool, true, false, not, List, [], ◌∷◌, ◌++◌, Option, none, some, lookup, put, erase,
  if◌then◌else◌, Outcome, ok, err, ◌>>=◌, ◌>>◌, assert,
}
use starry.LoopPool.{LoopPool, get_next_loop}
use starry.LoopPool

pub record Conn : Type 0 where
  pub name : ℕ
  pub fd : ℕ
  pub io_loop : ℕ

-- `connectEstablished` and `connectDestroyed` of a connection, in its loop.
pub data Job : Type 0 where
  establish destroy : ℕ → ℕ → Job

pub record TcpServer : Type 0 where
  pub thread_pool : LoopPool
  pub started : Bool
  pub listening : Bool
  pub next_conn_id : ℕ
  pub connections : List (ℕ × Conn)
  pub jobs : List Job

abbrev pub is_some : Option Conn → Bool
is_some none = false
is_some (some c) = true

unfoldable pub init : ℕ → TcpServer
init loop = record {
  thread_pool = LoopPool.init loop;
  started = false;
  listening = false;
  next_conn_id = 1;
  connections = [];
  jobs = [];
}

unfoldable pub start : (ℕ → ℕ) → Bool → TcpServer → Outcome TcpServer
start start_loop has_callback s =
    if s.started
    then ok s
    else (LoopPool.start start_loop has_callback s.thread_pool >>= λ pool.
        assert (not s.listening)
        >> ok (record s { started = true; thread_pool = pool; listening = true }))

unfoldable pub new_connection : TcpServer → ℕ → Outcome TcpServer
new_connection s fd = do
  (io_loop, pool) ← get_next_loop s.thread_pool
  let id = s.next_conn_id
  let conn : Conn = record { name = id; fd = fd; io_loop = io_loop }
  ok (record s {
    thread_pool = pool;
    next_conn_id = id + 1;
    connections = put id conn s.connections;
    jobs = s.jobs ++ (establish io_loop id ∷ []);
  })

unfoldable pub remove_connection_in_loop : TcpServer → Conn → Outcome TcpServer
remove_connection_in_loop s conn = do
  assert (is_some (lookup conn.name s.connections))
  ok (record s {
    connections = erase conn.name s.connections;
    jobs = s.jobs ++ (destroy conn.io_loop conn.name ∷ []);
  })

-- The destructor.
unfoldable pub destroy_all : List (ℕ × Conn) → List Job
destroy_all [] = []
destroy_all ((id, conn) ∷ rest) = destroy conn.io_loop conn.name ∷ destroy_all rest

unfoldable pub drop_server : TcpServer → List Job
drop_server s = s.jobs ++ destroy_all s.connections
