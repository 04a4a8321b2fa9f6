-- ===== src/Sockets/Errno.antt =====
-- <errno.h> on Linux.
use starry.Common.{ℕ}

abbrev pub eperm : ℕ
eperm = 1

abbrev pub eintr : ℕ
eintr = 4

abbrev pub eagain : ℕ
eagain = 11

abbrev pub emfile : ℕ
emfile = 24

abbrev pub eproto : ℕ
eproto = 71

abbrev pub econnaborted : ℕ
econnaborted = 103
