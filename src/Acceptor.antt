-- ===== src/Acceptor.antt =====
-- starry/net/include/acceptor.h and starry/net/src/acceptor.cpp, in the thread of its loop: the
-- descriptor that listens, its channel's interest, and the descriptor that is kept in reserve.
-- `closed` are the descriptors that were closed, in order. The state of whoever set the callback is
-- passed through `handle_read`.
pub mod Accepts
mod Tests
use starry.Common.{
  ℕ, ◌≡◌, Bool, true, false, List, [], ◌∷◌, ◌++◌, Option, none, some, ◌==◌, if◌then◌else◌, Outcome,
  ok, err, ◌>>=◌, ◌>>◌, assert,
}
use starry.Address.{InetAddress}
use starry.Channel.{enable_reading, disable_all, apply_interest}
use starry.Sockets.{
  Ret, Accepted, accepted, refused, create_non_blocking_or_die, bind_or_die, listen_or_die,
  set_reuse_port,
}
use starry.Sockets

pub record Acceptor : Type 0 where
  pub fd : ℕ
  pub idle_fd : Option ℕ
  pub listening : Bool
  pub events : ℕ
  pub registered : Bool
  pub closed : List ℕ

abbrev pub has_idle : Option ℕ → Bool
has_idle none = false
has_idle (some fd) = true

-- What the kernel answers: to `socket`, `open`, `setsockopt` for the port, and `bind`.
unfoldable pub init : Ret → Option ℕ → Bool → Ret → Ret → Outcome Acceptor
init socket idle reuseport port_option bind = do
  fd ← create_non_blocking_or_die socket
  assert (has_idle idle)
  set_reuse_port reuseport port_option
  bound ← bind_or_die bind
  ok (record {
    fd = fd;
    idle_fd = idle;
    listening = false;
    events = 0;
    registered = false;
    closed = [];
  })

unfoldable pub listen : Acceptor → Ret → Outcome Acceptor
listen a r = do
  done ← listen_or_die r
  ok (record a {
    listening = true;
    events = apply_interest enable_reading a.events;
    registered = true;
  })

-- `::close`, also of -1
abbrev pub close_fd : Acceptor → Option ℕ → Acceptor
close_fd a none = a
close_fd a (some fd) = record a { closed = a.closed ++ (fd ∷ []) }

-- What the kernel answers while one event is handled: to `accept4`, to the close of what was
-- accepted, and to `accept` and `open` for the reserve.
pub record Answers : Type 0 where
  pub accept4 : Accepted
  pub close : Ret
  pub accept : Option ℕ
  pub open_null : Option ℕ

-- With no descriptor left the reserve is given up for one connection, which is closed at once.
unfoldable pub drop_one : Acceptor → Answers → Acceptor
drop_one a k =
    let a' = close_fd a a.idle_fd in record (close_fd a' k.accept) { idle_fd = k.open_null }

module _ {S : Type 0} where
  unfoldable pub take_connection :
      Option (S → ℕ → InetAddress → Outcome S)
      → Acceptor
      → S
      → Answers
      → ℕ
      → InetAddress
      → Outcome (Acceptor × S)
  take_connection (some callback) a s k fd peer = callback s fd peer >>= λ s'. ok (a, s')
  take_connection none a s k fd peer =
      Sockets.close k.close >>= λ done. ok (record a { closed = a.closed ++ (fd ∷ []) }, s)

  unfoldable pub handle_accepted :
      Option (S → ℕ → InetAddress → Outcome S)
      → Acceptor
      → S
      → Answers
      → Accepted
      → Outcome (Acceptor × S)
  handle_accepted callback a s k (accepted fd peer) = take_connection callback a s k fd peer
  handle_accepted callback a s k (refused errno) =
      ok (if errno == Sockets.Errno.emfile then drop_one a k else a, s)

  unfoldable pub handle_read :
      Option (S → ℕ → InetAddress → Outcome S) → Acceptor → S → Answers → Outcome (Acceptor × S)
  unfolding handle_accepted
  handle_read callback a s k =
      Sockets.accept k.accept4 >>= λ connection. handle_accepted callback a s k connection

-- The destructor; the socket is a member and is closed behind it. `disableAll` registers a channel
-- that was never registered, so that `remove` finds it.
unfoldable pub drop_acceptor : Acceptor → Ret → Outcome Acceptor
drop_acceptor a r = do
  done ← Sockets.close r
  ok (record (close_fd (close_fd a a.idle_fd) (some a.fd)) {
    events = apply_interest disable_all a.events;
    registered = false;
  })
