-- ===== src/TcpServer/Tests.antt =====
-- A server without threads that has made one connection.
use starry.Common.{
  ℕ, ◌≡◌, ◌≢◌, refl, ◌⊎◌, true, [], ◌∷◌, ◌++◌, lookup, none, ok, err, assertion, arith,
}
use starry.LoopPool.{LoopPool}
use starry.TcpServer.{TcpServer, Conn, destroy, remove_connection_in_loop}
use starry.TcpServer.Table.{Inv, new_connection_lem, remove_connection_lem}

abbrev pool : LoopPool
pool = record {
  base_loop = 1;
  started = true;
  num_threads = 0;
  next = 0;
  loops = [];
  initialized = [];
}

abbrev empty : TcpServer
empty = record {
  thread_pool = pool;
  started = true;
  listening = true;
  next_conn_id = 1;
  connections = [];
  jobs = [];
}

empty-Inv : Inv empty
unfolding lookup
empty-Inv = record {
  ready = record { started = refl; inside = λ e. absurd (cc) };
  unused = λ id h. (refl, refl);
  once = λ id. omega arith;
  balance = λ id. refl;
}

abbrev one : TcpServer
one = (new_connection_lem empty 7 empty-Inv).0

abbrev conn : Conn
conn = (new_connection_lem empty 7 empty-Inv).1

one-Inv : Inv one
one-Inv = (new_connection_lem empty 7 empty-Inv).3

remove_connection_lem_example :
    ((lookup conn.name one.connections ≡ none)
      × (remove_connection_in_loop one conn ≡ err assertion))
    ⊎ ((s' : TcpServer) × (remove_connection_in_loop one conn ≡ ok s')
        × Inv s'
        × (s'.jobs ≡ one.jobs ++ (destroy conn.io_loop conn.name ∷ []))
        × (lookup conn.name s'.connections ≡ none)
        × ((id : ℕ) → conn.name ≢ id → lookup id s'.connections ≡ lookup id one.connections))
remove_connection_lem_example = remove_connection_lem one conn one-Inv
