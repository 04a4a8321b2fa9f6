-- ===== src/Connection/Lifecycle.antt =====
-- The life of a connection as a step relation, in whatever order its operations are called.
pub mod Transfers
pub mod Changes
pub mod Reading
pub mod Runs
use starry.Common.{
  ℕ, zero, suc, ◌+◌, ◌≤◌, ◌≡◌, ◌≢◌, ◌⊎◌, refl, ap, sym, subst, ◌∙◌, inl, inr, Bool, true, false,
  not, ◌&&◌, ◌||◌, List, [], ◌∷◌, ◌++◌, replicate, length, ltb, ◌==◌, if◌then◌else◌, if_split,
  Bool-cases, Outcome, ok, err, ◌>>=◌, ◌>>◌, assert, >>=-eq-ok, arith, append_assoc, append-nil,
}
use starry.Buffer.Socket.{Received}
use starry.Channel.{is_reading, is_writing, disable_all, apply_interest}
use starry.Connection.{
  Connection, State, disconnected, connecting, connected, disconnecting, Call, connection, message,
  close, Wrote, init, send, handle_read, handle_write, handle_close, shutdown, force_close,
  run_force_close, start_read_in_loop, stop_read_in_loop, connect_established, connect_destroyed,
  is_connected, is_disconnecting,
}

-- What can happen to a connection. Each operation is one that returned. The poller reports a
-- readable socket only while the channel is interested, and the user, who is given the connection
-- when it is up, does not start to read once it is down.
pub data Step : Connection → Connection → Type 0 where
  establish : {c c' : Connection} → connect_established c ≡ ok c' → Step c c'
  send_some : {c c' : Connection} (bytes : List ℕ) (w : Wrote) → send c bytes w ≡ ok c' → Step c c'
  readable :
      {c c' : Connection} (r : Received)
      → is_reading c.events ≡ true
      → handle_read c r ≡ ok c'
      → Step c c'
  writable : {c c' : Connection} (w : Wrote) → handle_write c w ≡ ok c' → Step c c'
  hang_up : {c c' : Connection} → handle_close c ≡ ok c' → Step c c'
  shut : {c c' : Connection} → shutdown c ≡ c' → Step c c'
  force : {c c' : Connection} → force_close c ≡ c' → Step c c'
  run_force : {c c' : Connection} → run_force_close c ≡ ok c' → Step c c'
  start_read :
      {c c' : Connection}
      → (c.state ≡ connected) ⊎ (c.state ≡ disconnecting)
      → start_read_in_loop c ≡ c'
      → Step c c'
  stop_read : {c c' : Connection} → stop_read_in_loop c ≡ c' → Step c c'
  destroy : {c c' : Connection} → connect_destroyed c ≡ ok c' → Step c c'

pub data Reach (c : Connection) : Connection → Type 0 where
  here : Reach c c
  next : {c' c'' : Connection} → Reach c c' → Step c' c'' → Reach c c''

-- connecting, connected, disconnecting, disconnected, in that order.
abbrev pub rank : State → ℕ
rank connecting = 0
rank connected = 1
rank disconnecting = 2
rank disconnected = 3

-- The callbacks that may have been called in a state: the connection callback when it came up, then
-- messages, then the connection callback when it went down, and last the close callback.
abbrev pub Up : List Call → Type 0
Up calls = (n : ℕ) × (calls ≡ connection ∷ replicate n message)

abbrev pub Down : List Call → Type 0
Down calls =
    (n : ℕ) × ((calls ≡ (connection ∷ replicate n message) ++ (connection ∷ []))
      ⊎ (calls ≡ (connection ∷ replicate n message) ++ (connection ∷ close ∷ [])))

abbrev pub Legal : State → ℕ → List Call → Type 0
Legal connecting events calls = (events ≡ 0) × (calls ≡ [])
Legal connected events calls = Up calls
Legal disconnecting events calls = Up calls
Legal disconnected events calls = (events ≡ 0) × Down calls

abbrev pub IsLegal : Connection → Type 0
IsLegal c = Legal c.state c.events c.calls

-- `c'` is as `c` to the user; while the connection is not up, its interest is the same too.
pub record Same (c c' : Connection) : Type 0 where
  pub state : c'.state ≡ c.state
  pub calls : c'.calls ≡ c.calls
  pub interest : (c.state ≡ connected) ⊎ ((c.state ≡ disconnecting) ⊎ (c'.events ≡ c.events))

pub Same-refl : (c : Connection) → Same c c
Same-refl c = record { state = refl; calls = refl; interest = inr (inr refl) }

Legal-Same : (c c' : Connection) → Same c c' → IsLegal c → IsLegal c'
Legal-Same c c' s v =
    subst (λ x. Legal x c'.events c'.calls) (sym s.state)
      (subst (Legal c.state c'.events) (sym s.calls) (events c.state s.interest v))
  where
    events :
        (x : State)
        → (x ≡ connected) ⊎ ((x ≡ disconnecting) ⊎ (c'.events ≡ c.events))
        → Legal x c.events c.calls
        → Legal x c'.events c.calls
    events connected i v = v
    events disconnecting i v = v
    events connecting (inl q) v = absurd (cc)
    events connecting (inr (inl q)) v = absurd (cc)
    events connecting (inr (inr q)) v = (q ∙ v.0, v.1)
    events disconnected (inl q) v = absurd (cc)
    events disconnected (inr (inl q)) v = absurd (cc)
    events disconnected (inr (inr q)) v = (q ∙ v.0, v.1)

abbrev pub Rises : Connection → Connection → Type 0
Rises c c' = (rank c.state ≤ rank c'.state) × (IsLegal c → IsLegal c')

pub Same-Rises : (c c' : Connection) → Same c c' → Rises c c'
Same-Rises c c' s = (omega (arith, ap rank s.state), Legal-Same c c' s)
