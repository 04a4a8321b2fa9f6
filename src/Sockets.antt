-- ===== src/Sockets.antt =====
-- starry/net/src/sockets_ops.cpp and starry/net/src/socket.cpp: the system calls on sockets, by what
-- the kernel answers. LOG_FATAL aborts the process, so that nothing behind it is run.
pub mod Errno
use starry.Common.{
  ℕ, ◌≡◌, Bool, true, false, ◌&&◌, ◌||◌, ◌==◌, if◌then◌else◌, Option, none, some, Outcome, ok, err,
  fatal, ◌>>=◌, ◌>>◌, assert,
}
use starry.Address.{InetAddress}

-- A number that is not negative, or -1 and errno.
pub data Ret : Type 0 where
  success : ℕ → Ret
  failure : ℕ → Ret

abbrev pub log_fatal : Outcome (Unit {0})
log_fatal = err fatal

-- The calls that must not fail: `socket`, `bind`, `listen`, `close` and `shutdown`.
unfoldable pub or_die : Ret → Outcome ℕ
or_die (success n) = ok n
or_die (failure errno) = log_fatal >> ok 0

unfoldable pub create_non_blocking_or_die : Ret → Outcome ℕ
unfolding or_die
create_non_blocking_or_die r = or_die r

unfoldable pub bind_or_die : Ret → Outcome ℕ
unfolding or_die
bind_or_die r = or_die r

unfoldable pub listen_or_die : Ret → Outcome ℕ
unfolding or_die
listen_or_die r = or_die r

unfoldable pub close : Ret → Outcome ℕ
unfolding or_die
close r = or_die r

unfoldable pub shutdown_write : Ret → Outcome ℕ
unfolding or_die
shutdown_write r = or_die r

-- What `accept4` gives: a descriptor and the peer's address, or an error.
pub data Accepted : Type 0 where
  accepted : ℕ → InetAddress → Accepted
  refused : ℕ → Accepted

-- The errors after which `accept` means to return -1.
unfoldable pub is_transient : ℕ → Bool
is_transient errno =
    errno == Errno.eagain
    || errno == Errno.econnaborted
    || errno == Errno.eintr
    || errno == Errno.eproto
    || errno == Errno.eperm
    || errno == Errno.emfile

unfoldable pub accept : Accepted → Outcome Accepted
unfolding is_transient
accept (accepted fd peer) = ok (accepted fd peer)
accept (refused errno) =
    log_fatal
    >> (if is_transient errno then ok (refused errno) else (log_fatal >> ok (refused errno)))

-- What getsockopt writes, or its errno.
unfoldable pub get_socket_error : Ret → ℕ
get_socket_error (success optval) = optval
get_socket_error (failure errno) = errno

unfoldable pub set_reuse_port : Bool → Ret → Outcome (Unit {0})
set_reuse_port on (success n) = ok tt
set_reuse_port on (failure errno) = if on then log_fatal else ok tt
