-- ===== src/Connector.antt =====
-- starry/net/include/connector.h and starry/net/src/connector.cpp: connecting, with retries.
-- All calls are made in the loop's own thread; `runInLoop` calls at once. What the calls of the
-- system do is kept: the descriptors that were `created`, `closed` and `handed` on by the callback,
-- and the delays of the timers that were asked for, the last one first; `waiting` of these timers have
-- not fired yet. Whether `::close` succeeds is an argument: `sockets::close` ends the process if not.
pub mod Delays
pub mod Descriptors
pub mod Attempts
mod Tests
use starry.Common.{
  ℕ, zero, suc, ◌*◌, Bool, true, false, List, [], ◌∷◌, ◌++◌, Option, none, some, ltb, if◌then◌else◌,
  Outcome, ok, err, assertion, fatal, undefined, ◌>>=◌, ◌>>◌, assert,
}

pub data State : Type 0 where
  disconnected connecting connected : State

-- Functors that wait in the loop.
pub data Functor : Type 0 where
  stop_in_loop reset_channel : Functor

-- What `::connect` does: the connection is on its way; the attempt failed, and the descriptor is
-- closed; or the error, also that no socket can be made, ends the process.
pub data Attempt : Type 0 where
  in_progress : Attempt
  try_again : Bool → Attempt
  hopeless : Attempt

-- What the socket says when it becomes writable: whether it has an error; whether both its ends are
-- the same, `none` if getsockname or getpeername fails; and whether it can be closed.
pub record SocketSays : Type 0 where
  pub error : Bool
  pub self_connect : Option Bool
  pub closes : Bool

abbrev pub max_retry_delay : ℕ
max_retry_delay = 30000

abbrev pub init_retry_delay : ℕ
init_retry_delay = 500

-- `channel` is the descriptor of the channel.
pub record Connector : Type 0 where
  pub wanted : Bool
  pub state : State
  pub channel : Option ℕ
  pub delay : ℕ
  pub created : List ℕ
  pub closed : List ℕ
  pub handed : List ℕ
  pub timers : List ℕ
  pub waiting : ℕ
  pub queue : List Functor

unfoldable pub init : Connector
init = record {
  wanted = false;
  state = disconnected;
  channel = none;
  delay = init_retry_delay;
  created = [];
  closed = [];
  handed = [];
  timers = [];
  waiting = 0;
  queue = [];
}

abbrev pub is_connecting : State → Bool
is_connecting disconnected = false
is_connecting connecting = true
is_connecting connected = false

abbrev pub is_disconnected : State → Bool
is_disconnected disconnected = true
is_disconnected connecting = false
is_disconnected connected = false

abbrev pub has_channel : Connector → Bool
has_channel c = elim c.channel [ none ↦ false | some fd ↦ true ]

abbrev pub min : ℕ → ℕ → ℕ
min a b = if ltb b a then b else a

-- `retry`, when the descriptor could be closed: a timer for `startInLoop` is set.
unfoldable pub retried : Connector → ℕ → Connector
retried c fd =
    let c' = record c { closed = fd ∷ c.closed; state = disconnected } in
    if c'.wanted
    then record c' {
      timers = c'.delay ∷ c'.timers;
      waiting = suc c'.waiting;
      delay = min (c'.delay * 2) max_retry_delay;
    }
    else c'

unfoldable pub retry : Connector → ℕ → Bool → Outcome Connector
retry c fd closes = if closes then ok (retried c fd) else err fatal

-- `connecting`
unfoldable pub start_connecting : Connector → ℕ → Outcome Connector
start_connecting c fd =
    if has_channel c then err assertion else ok (record c { state = connecting; channel = some fd })

-- `connect`: `fd` is the new descriptor. The two groups of errors that close it are a LOG_FATAL first.
unfoldable pub connect : Connector → ℕ → Attempt → Outcome Connector
connect c fd in_progress = start_connecting (record c { created = fd ∷ c.created }) fd
connect c fd (try_again closes) = retry (record c { created = fd ∷ c.created }) fd closes
connect c fd hopeless = err fatal

unfoldable pub start_in_loop : Connector → ℕ → Attempt → Outcome Connector
start_in_loop c fd a =
    if is_disconnected c.state then if c.wanted then connect c fd a else ok c else err assertion

unfoldable pub start : Connector → ℕ → Attempt → Outcome Connector
start c fd a = start_in_loop (record c { wanted = true }) fd a

unfoldable pub restart : Connector → ℕ → Attempt → Outcome Connector
restart c fd a =
    start_in_loop (record c { state = disconnected; delay = init_retry_delay; wanted = true }) fd a

-- `removeAndResetChannel` gives the descriptor; without a channel it would follow a null pointer.
unfoldable pub remove_and_reset_channel : Connector → Outcome (ℕ × Connector)
remove_and_reset_channel c = elim c.channel [
  | none ↦ err undefined
  | some fd ↦ ok (fd, record c { queue = c.queue ++ (reset_channel ∷ []) })
]

unfoldable pub stop : Connector → Connector
stop c = record c { wanted = false; queue = c.queue ++ (stop_in_loop ∷ []) }

unfoldable pub run_stop : Connector → Bool → Outcome Connector
run_stop c closes =
    if is_connecting c.state
    then remove_and_reset_channel (record c { state = connected }) >>= (λ r. retry r.1 r.0 closes)
    else ok c

unfoldable pub run_reset : Connector → Connector
run_reset c = record c { channel = none }

-- A timer that has not fired yet fires, if there is one: it calls `startInLoop`.
unfoldable pub run_timer : Connector → ℕ → Attempt → Outcome Connector
run_timer c fd a = elim c.waiting [
  | zero ↦ ok c
  | suc n ↦ start_in_loop (record c { waiting = n }) fd a
]

unfoldable pub hand_on : Connector → ℕ → Bool → Outcome Connector
hand_on c fd closes =
    if c.wanted
    then ok (record c { handed = fd ∷ c.handed })
    else if closes
    then ok (record c { closed = fd ∷ c.closed })
    else err fatal

-- `handleWrite` behind the test of the socket's error.
unfoldable pub check_self : Connector → ℕ → SocketSays → Outcome Connector
check_self c fd a = elim a.self_connect [
  | none ↦ err fatal
  | some self ↦
      if self then retry c fd a.closes else hand_on (record c { state = connected }) fd a.closes
]

unfoldable pub handle_write : Connector → SocketSays → Outcome Connector
handle_write c a =
    if is_connecting c.state
    then remove_and_reset_channel c
      >>= (λ r. if a.error then retry r.1 r.0 a.closes else check_self r.1 r.0 a)
    else if is_disconnected c.state
    then ok c
    else err assertion

unfoldable pub handle_error : Connector → Bool → Outcome Connector
handle_error c closes =
    if is_connecting c.state
    then remove_and_reset_channel c >>= (λ r. retry r.1 r.0 closes)
    else ok c
