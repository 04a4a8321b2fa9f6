-- ===== src/Connection/Sending.antt =====
-- `sendInLoop` as a whole: no byte is lost, doubled or reordered.
use starry.Common.{
  ℕ, ◌-◌, ◌≤◌, ◌≡◌, ◌≢◌, refl, ap, ap₂, sym, subst, ◌∙◌, inl, inr, true, false, ◌&&◌, List, [],
  ◌++◌, length, take, drop, ◌==◌, if◌then◌else◌, Bool-cases, append_assoc, append-nil,
  take-append-drop, length-drop, arith, max_size, Outcome, ok, err, fatal, ◌>>=◌,
}
use starry.Buffer.Contents.{contents}
use starry.Buffer.Append.{Fits}
use starry.Connection.{
  Connection, State, disconnected, connecting, connected, disconnecting, Wrote, wrote, would_block,
  write_error, queue_rest, write_now, is_idle, send_in_loop, is_disconnected, queue_in_loop,
  write_complete,
}
use starry.Connection.Inv.{Inv, stream}
use starry.Connection.Output.{Sendable, queue_rest_lem}

-- How many bytes the socket takes at once.
abbrev pub taken : Connection → Wrote → ℕ
taken c (wrote n) = if is_idle c then n else 0
taken c would_block = 0
taken c write_error = 0

-- `::write` did not fail, and took no more than it was given.
abbrev pub IsFine : Wrote → ℕ → Type 0
IsFine (wrote n) len = n ≤ len
IsFine would_block len = Unit {0}
IsFine write_error len = ⊥

is_idle-cases :
    (c : Connection) → Inv c → c.state ≢ disconnected → is_idle c ≡ true → contents c.output ≡ []
unfolding is_idle
is_idle-cases c v live h = v.empty live (ground arith)

is_disconnected-false : (c : Connection) → c.state ≢ disconnected → is_disconnected c.state ≡ false
is_disconnected-false c live = go c.state live
  where
    go : (s : State) → s ≢ disconnected → is_disconnected s ≡ false
    go disconnected h = absurd (h refl)
    go connecting h = refl
    go connected h = refl
    go disconnecting h = refl

-- The connection after the socket has taken the first `n` bytes.
abbrev after_write : Connection → List ℕ → ℕ → Connection
after_write c bytes n =
    queue_in_loop (record c { wire = c.wire ++ take n bytes })
      (length bytes - n == 0 && c.has_write_complete) write_complete

after_write-Sendable :
    (c : Connection) (bytes : List ℕ) (n : ℕ) → Sendable c → Sendable (after_write c bytes n)
after_write-Sendable c bytes n s =
    let v = s.inv in
    record {
      inv = record {
        input_valid = v.input_valid;
        output_valid = v.output_valid;
        mask = v.mask;
        pending = v.pending;
        empty = v.empty;
        closed = v.closed;
        shut = v.shut;
      };
      open_side = s.open_side;
      live = s.live;
    }

abbrev pub Sent : Connection → List ℕ → Outcome Connection → Type 0
Sent c bytes r =
    (c' : Connection) × (r ≡ ok c')
    × Inv c'
    × (c'.state ≡ c.state)
    × (stream c' ≡ stream c ++ bytes)

stream_split :
    (w o o' bytes : List ℕ) (n : ℕ)
    → o ≡ []
    → o' ≡ o ++ drop n bytes
    → (w ++ take n bytes) ++ o' ≡ (w ++ o) ++ bytes
stream_split w o o' bytes n e e' =
    ap (λ t. (w ++ take n bytes) ++ t) (e' ∙ ap (λ t. t ++ drop n bytes) e)
    ∙ append_assoc w (take n bytes) (drop n bytes)
    ∙ ap (λ t. w ++ t) (take-append-drop n bytes)
    ∙ ap (λ t. t ++ bytes) (sym (append-nil w) ∙ ap (λ t. w ++ t) (sym e))

send-queued :
    (c : Connection) (bytes : List ℕ)
    → Sendable c
    → length bytes ≤ max_size
    → Fits c.output (length bytes)
    → Sent c bytes (queue_rest c bytes)
send-queued c bytes s k f =
    let (c', e, q) = queue_rest_lem c bytes s k f in
    (
      c',
      e,
      q.inv,
      q.state,
      ap₂ ◌++◌ q.wire q.output ∙ sym (append_assoc c.wire (contents c.output) bytes),
    )

send-direct :
    (c : Connection) (bytes : List ℕ) (n : ℕ)
    → Sendable c
    → contents c.output ≡ []
    → n ≤ length bytes
    → length bytes ≤ max_size
    → Fits c.output (length bytes - n)
    → Sent c bytes (queue_rest (after_write c bytes n) (drop n bytes))
send-direct c bytes n s nothing h k f =
    let l : length (drop n bytes) ≡ length bytes - n = length-drop n bytes in
    let (c', e, q) =
      queue_rest_lem (after_write c bytes n) (drop n bytes) (after_write-Sendable c bytes n s)
        (omega arith) (subst (Fits c.output) (sym l) f) in
    (
      c',
      e,
      q.inv,
      q.state,
      ap (λ t. t ++ contents c'.output) q.wire
          ∙ stream_split c.wire (contents c.output) (contents c'.output) bytes n nothing q.output,
    )

-- On a connection whose sending side is open and that is not disconnected, `sendInLoop` accepts all bytes, in order: what the
-- socket does not take at once stands behind the output that waits. Needed is that the socket
-- reports no error but EWOULDBLOCK and takes no more than it is given, and that what is left fits into the output buffer.
pub send_in_loop_lem :
    (c : Connection) (bytes : List ℕ) (w : Wrote)
    → Sendable c
    → length bytes ≤ max_size
    → IsFine w (length bytes)
    → Fits c.output (length bytes - taken c w)
    → Sent c bytes (send_in_loop c bytes w)
unfolding send_in_loop write_now
send_in_loop_lem c bytes w s k fine f = elim (Bool-cases (is_idle c)) [
  | inl i ↦ rw (is_disconnected-false c s.live, i) (idle-send w fine i f)
  | inr b ↦ rw (is_disconnected-false c s.live, b) (send-queued c bytes s k (busy w b f))
]
  where
    busy :
        (w : Wrote)
        → is_idle c ≡ false
        → Fits c.output (length bytes - taken c w)
        → Fits c.output (length bytes)
    busy (wrote n) b f =
        subst (Fits c.output) (ap (λ t. length bytes - (if t then n else 0)) b ∙ omega arith) f
    busy would_block b f = subst (Fits c.output) (omega arith) f
    busy write_error b f = subst (Fits c.output) (omega arith) f

    idle-send :
        (w : Wrote)
        → IsFine w (length bytes)
        → is_idle c ≡ true
        → Fits c.output (length bytes - taken c w)
        → Sent c bytes (write_now c bytes w >>= λ r. queue_rest r.0 r.1)
    idle-send (wrote n) ok_n i f =
        send-direct c bytes n s (is_idle-cases c s.inv s.live i) ok_n k
          (subst (Fits c.output) (ap (λ t. length bytes - (if t then n else 0)) i) f)
    idle-send would_block ok_n i f = send-queued c bytes s k (subst (Fits c.output) (omega arith) f)
    idle-send write_error ok_n i f = absurd ok_n

-- On a connection that is not disconnected and has nothing to write, an error of the socket other
-- than EWOULDBLOCK ends the process.
pub send_in_loop-fatal :
    (c : Connection) (bytes : List ℕ)
    → c.state ≢ disconnected
    → is_idle c ≡ true
    → send_in_loop c bytes write_error ≡ err fatal
unfolding send_in_loop write_now
send_in_loop-fatal c bytes live i = rw (is_disconnected-false c live, i) refl
