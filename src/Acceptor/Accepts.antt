-- ===== src/Acceptor/Accepts.antt =====
-- What becomes of the connections that the kernel hands out, with the server as the one that has
-- set the callback.
use starry.Common.{
  ℕ, ◌+◌, ◌≡◌, refl, List, [], ◌∷◌, Option, some, lookup, Outcome, ok, err, fatal, ◌>>=◌,
}
use starry.Address.{InetAddress}
use starry.Sockets.{Ret, Accepted, accepted, refused}
use starry.Sockets
use starry.TcpServer.{Conn, TcpServer, new_connection}
use starry.Acceptor.{Acceptor, Answers, handle_read}

-- Whatever error `accept4` gives, the LOG_FATAL in `sockets::accept` ends the process: the reserved
-- descriptor of the acceptor is never given up, and no error is passed over.
pub handle_read-fatal :
    {S : Type 0} (callback : Option (S → ℕ → InetAddress → Outcome S)) (a : Acceptor) (s : S)
    (k : Answers) (errno : ℕ)
    → k.accept4 ≡ refused errno
    → handle_read callback a s k ≡ err fatal
unfolding handle_read Sockets.accept
handle_read-fatal callback a s k errno e = rw e refl

-- `TcpServer` sets `newConnection` as the callback.
unfoldable pub server_callback : Option (TcpServer → ℕ → InetAddress → Outcome TcpServer)
server_callback = some (λ s fd peer. new_connection s fd)

-- Several events of the listening descriptor, each with a connection.
unfoldable pub handle_reads :
    Acceptor → TcpServer → List (ℕ × InetAddress × Answers) → Outcome (Acceptor × TcpServer)
handle_reads a s [] = ok (a, s)
handle_reads a s ((fd, peer, k) ∷ rest) =
    handle_read server_callback a s (record k { accept4 = accepted fd peer }) >>= λ r.
    handle_reads r.0 r.1 rest

-- The connections stand in the table one behind another, from the number `n` on.
abbrev pub Entered : ℕ → List (ℕ × InetAddress × Answers) → TcpServer → Type 0
Entered n [] s = Unit
Entered n ((fd, peer, k) ∷ rest) s =
    ((conn : Conn) × (lookup n s.connections ≡ some conn) × (conn.fd ≡ fd)) × Entered (n + 1) rest s
