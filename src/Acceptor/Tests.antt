-- ===== src/Acceptor/Tests.antt =====
-- An acceptor on descriptor 3 with 4 in reserve, and two connections.
use starry.Common.{ℕ, ◌≡◌, refl, true, false, List, [], ◌∷◌, some, ok, err, fatal}
use starry.Address.{InetAddress, zero_addr6}
use starry.Sockets.{success, failure, refused}
use starry.Sockets
use starry.TcpServer.{TcpServer}
use starry.Acceptor.{Acceptor, Answers, handle_read, take_connection, handle_accepted}
use starry.Acceptor
use starry.Acceptor.Accepts.{server_callback, handle_read-fatal}

abbrev listening : Acceptor
listening = record {
  fd = 3;
  idle_fd = some 4;
  listening = true;
  events = 3;
  registered = true;
  closed = [];
}

abbrev out_of_files : Answers
out_of_files = record {
  accept4 = refused 24;
  close = success 0;
  accept = some 4;
  open_null = some 4;
}

abbrev server : TcpServer
server = record {
  thread_pool = record {
    base_loop = 1;
    started = true;
    num_threads = 0;
    next = 0;
    loops = [];
    initialized = [];
  };
  started = true;
  listening = true;
  next_conn_id = 1;
  connections = [];
  jobs = [];
}

abbrev two : List (ℕ × InetAddress × Answers)
two = (7, zero_addr6, out_of_files) ∷ (8, zero_addr6, out_of_files) ∷ []

made :
    Acceptor.init (success 3) (some 4) true (success 0) (success 0)
    ≡ ok (record listening { listening = false; events = 0; registered = false })
unfolding Acceptor.init Sockets.create_non_blocking_or_die Sockets.set_reuse_port
    Sockets.bind_or_die
made = refl

handle_read-fatal_example : handle_read server_callback listening server out_of_files ≡ err fatal
handle_read-fatal_example = handle_read-fatal server_callback listening server out_of_files 24 refl
