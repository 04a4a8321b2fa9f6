-- ===== src/Connection/Closing.antt =====
-- The connection is closed, destroyed and, before all that, established.
use starry.Common.{
  ==_iff, ap, Bool, not, if◌then◌else◌, ◌≡◌, refl, sym, ◌∙◌, ◌⊎◌, inl, inr, true, false, ◌||◌, [],
  ◌∷◌, ◌++◌, ok, err, assertion,
}
use starry.Channel.{
  enable_reading, disable_all, apply_interest, is_writing, is_reading, is_none_event,
}
use starry.Channel.Mask.{idle, apply_interest-IsMask, apply_interest_lem}
use starry.Connection.{
  Connection, State, disconnected, connecting, connected, disconnecting, connection, close,
  handle_close, start_read_in_loop, set_interest, connect_established, connect_destroyed,
  is_connected, is_disconnecting,
}
use starry.Connection.Inv.{Inv, stream}
use starry.Connection.Stopping.{moved}

-- What `handleClose` leaves, besides the two callbacks.
pub record Closed (c c' : Connection) : Type 0 where
  pub inv : Inv c'
  pub state : c'.state ≡ disconnected
  pub quiet : is_none_event c'.events ≡ true
  pub told : c'.calls ≡ c.calls ++ (connection ∷ close ∷ [])
  pub same : stream c' ≡ stream c

closed_as : Connection → Connection
closed_as c =
    moved c disconnected (apply_interest disable_all c.events) c.tied c.write_shut
      (c.calls ++ (connection ∷ close ∷ []))

closed_as-Closed : (c : Connection) → Inv c → Closed c (closed_as c)
unfolding closed_as apply_interest is_none_event is_writing
closed_as-Closed c v = record {
  inv = record {
    input_valid = v.input_valid;
    output_valid = v.output_valid;
    mask = idle;
    pending = λ q. absurd (cc);
    empty = λ q _. absurd (q refl);
    closed = λ _. refl;
    shut = λ q. (λ e. cc, refl);
  };
  state = refl;
  quiet = refl;
  told = refl;
  same = refl;
}

handle_close-ok :
    (c : Connection)
    → (is_connected c.state || is_disconnecting c.state) ≡ true
    → handle_close c ≡ ok (closed_as c)
unfolding handle_close closed_as
handle_close-ok c h = rw h refl

can_close :
    (s : State)
    → (s ≡ connected) ⊎ (s ≡ disconnecting)
    → (is_connected s || is_disconnecting s) ≡ true
can_close s (inl e) = rw e refl
can_close s (inr e) = rw e refl

-- `handleClose` of a connection that is connected or being shut down succeeds: it is then
-- disconnected, its channel has no interest, and the connection callback and then the close
-- callback have been called, each once.
pub handle_close_lem :
    (c : Connection)
    → Inv c
    → (c.state ≡ connected) ⊎ (c.state ≡ disconnecting)
    → (c' : Connection) × (handle_close c ≡ ok c') × Closed c c'
handle_close_lem c v h =
    (closed_as c, handle_close-ok c (can_close c.state h), closed_as-Closed c v)

-- A connection that is closed already cannot be closed again: the assertion on the state fails.
pub handle_close-twice : (c c' : Connection) → Closed c c' → handle_close c' ≡ err assertion
unfolding handle_close
handle_close-twice c c' k = rw (k.state) refl

-- `connectDestroyed` after `handleClose` succeeds, calls no callback again, and takes the channel
-- out of the poller.
pub connect_destroyed-Closed :
    (c c' : Connection)
    → Closed c c'
    → c'.registered ≡ true
    → connect_destroyed c' ≡ ok (record c' { registered = false })
unfolding connect_destroyed
connect_destroyed-Closed c c' k r = rw (k.state, k.quiet, r) refl

-- `connectDestroyed` of a connection that is being shut down and still has an interest, as the
-- server's destructor calls it, leaves the interest alone and stops at the assertion of `remove`.
pub connect_destroyed-ending :
    (c : Connection)
    → c.state ≡ disconnecting
    → is_none_event c.events ≡ false
    → connect_destroyed c ≡ err assertion
unfolding connect_destroyed
connect_destroyed-ending c s busy = rw (s, busy) refl

-- `startRead` on a connection that is closed makes its channel readable again, and known to the
-- poller.
pub start_read-Closed :
    (c c' : Connection)
    → Closed c c'
    → (is_reading (start_read_in_loop c').events ≡ true)
      × ((start_read_in_loop c').registered ≡ true)
unfolding start_read_in_loop is_reading is_none_event
start_read-Closed c c' k =
    let none_left : c'.events ≡ 0 = (==_iff c'.events 0).0 k.quiet in
    let started : Connection = record (set_interest c' enable_reading) { reading = true } in
    let e : start_read_in_loop c' ≡ started =
      ap (λ b. if not c'.reading || not b then started else c') (ap is_reading none_left)
      ∙ ap (λ b. if b then started else c') (or_true (not c'.reading)) in
    (
      ap (λ x. is_reading x.events) e ∙ (apply_interest_lem enable_reading k.inv.mask).0,
      ap (λ x. x.registered) e,
    )
  where
    or_true : (b : Bool) → (b || true) ≡ true
    or_true true = refl
    or_true false = refl

established_as : Connection → Connection
established_as c =
    moved c connected (apply_interest enable_reading c.events) true c.write_shut
      (c.calls ++ (connection ∷ []))

established_as-Inv :
    (c : Connection) → Inv c → c.state ≡ connecting → c.write_shut ≡ false → Inv (established_as c)
unfolding established_as
established_as-Inv c v s o =
    let e = (apply_interest_lem enable_reading v.mask).1 in
    record {
      input_valid = v.input_valid;
      output_valid = v.output_valid;
      mask = apply_interest-IsMask enable_reading v.mask;
      pending = λ q. v.pending (sym e ∙ q);
      empty = λ _ q. v.empty (λ d. cc) (sym e ∙ q);
      closed = λ q. absurd (cc);
      shut = λ q. absurd (cc);
    }

connect_established-ok :
    (c : Connection) → c.state ≡ connecting → connect_established c ≡ ok (established_as c)
unfolding connect_established established_as
connect_established-ok c s = rw s refl

-- `connectEstablished` of a connection whose sending side is open starts to read and calls the
-- connection callback once; the connection can then be sent to, and its stream is the same.
pub connect_established_lem :
    (c : Connection)
    → Inv c
    → c.state ≡ connecting
    → c.write_shut ≡ false
    → (c' : Connection) × (connect_established c ≡ ok c')
      × Inv c'
      × (c'.state ≡ connected)
      × (is_reading c'.events ≡ true)
      × (c'.calls ≡ c.calls ++ (connection ∷ []))
      × (stream c' ≡ stream c)
unfolding established_as
connect_established_lem c v s o = (
  established_as c,
  connect_established-ok c s,
  established_as-Inv c v s o,
  refl,
  (apply_interest_lem enable_reading v.mask).0,
  refl,
  refl,
)
