-- ===== src/Connection/Lifecycle/Reading.antt =====
-- The operations about reading: they tell the user of messages, or change only the interest.
use starry.Common.{
  ℕ, zero, suc, ◌≡◌, ◌⊎◌, refl, ap, sym, subst, ◌∙◌, inl, inr, Bool, true, false, not, ◌||◌, List,
  [], ◌∷◌, ◌++◌, replicate, length, ◌==◌, if◌then◌else◌, if_ind, Outcome, ok, >>=-eq-ok, arith,
}
use starry.Buffer.Socket.{Received, received, failed, read_fd}
use starry.Channel.{is_reading, enable_reading, disable_reading, apply_interest}
use starry.Connection.{
  Connection, State, disconnected, connecting, connected, disconnecting, Call, connection, message,
  handle_read, handle_close, set_interest, start_read_in_loop, stop_read_in_loop,
}
use starry.Connection.Lifecycle.{Up, Legal}
use starry.Connection.Lifecycle.Changes.{
  Advances, IsLive, Same-Advances, live-Up, ok_eq, stay, closed-Advances,
}

live_interest :
    (s : State) (events events' : ℕ)
    → IsLive s
    → (s ≡ connected) ⊎ ((s ≡ disconnecting) ⊎ (events' ≡ events))
live_interest s events events' (inl e) = inl e
live_interest s events events' (inr e) = inr (inl e)

pub start_read-Advances : (c : Connection) → IsLive c.state → Advances c (start_read_in_loop c)
unfolding start_read_in_loop
start_read-Advances c l =
    if_ind (Advances c) (not c.reading || not (is_reading c.events))
      (Same-Advances c (record (set_interest c enable_reading) { reading = true })
        (record {
          state = refl;
          calls = refl;
          interest = live_interest c.state c.events (apply_interest enable_reading c.events) l;
        }))
      (stay c)

no_reading :
    (s : State) (events : ℕ) (calls : List Call)
    → Legal s events calls
    → Legal s (apply_interest disable_reading events) calls
unfolding apply_interest
no_reading connecting events calls v = (ap (apply_interest disable_reading) v.0, v.1)
no_reading connected events calls v = v
no_reading disconnecting events calls v = v
no_reading disconnected events calls v = (ap (apply_interest disable_reading) v.0, v.1)

pub stop_read-Advances : (c : Connection) → Advances c (stop_read_in_loop c)
unfolding stop_read_in_loop
stop_read-Advances c =
    if_ind (Advances c) (c.reading || is_reading c.events)
      (λ v. (omega arith, no_reading c.state c.events c.calls v)) (stay c)

-- A channel that is interested in reading belongs to a live connection.
reading-IsLive :
    (s : State) (events : ℕ) (calls : List Call)
    → Legal s events calls
    → is_reading events ≡ true
    → IsLive s
unfolding is_reading
reading-IsLive connecting events calls v h = absurd (let no = sym (ap is_reading v.0) ∙ h in cc)
reading-IsLive connected events calls v h = inl refl
reading-IsLive disconnecting events calls v h = inr refl
reading-IsLive disconnected events calls v h = absurd (let no = sym (ap is_reading v.0) ∙ h in cc)

one_more : (n : ℕ) → replicate n message ++ (message ∷ []) ≡ replicate (suc n) message
one_more zero = refl
one_more (suc n) = ap (◌∷◌ message) (one_more n)

told-Advances :
    (c : Connection) → IsLive c.state → Advances c (record c { calls = c.calls ++ (message ∷ []) })
told-Advances c l v =
    let (n, w) = live-Up c.state c.events c.calls l v in
    (
      omega arith,
      up_in c.state l (suc n, ap (λ x. x ++ (message ∷ [])) w ∙ ap (◌∷◌ connection) (one_more n)),
    )
  where
    up_in :
        (s : State)
        → IsLive s
        → Up (c.calls ++ (message ∷ []))
        → Legal s c.events (c.calls ++ (message ∷ []))
    up_in connected l u = u
    up_in disconnecting l u = u
    up_in connecting (inl q) u = absurd (cc)
    up_in connecting (inr q) u = absurd (cc)
    up_in disconnected (inl q) u = absurd (cc)
    up_in disconnected (inr q) u = absurd (cc)

after_read :
    (c c' : Connection) (r : Received)
    → IsLive c.state
    → (elim r as (λ _. Outcome Connection) [
      | failed errno ↦ ok c
      | received bytes ↦
          if length bytes == 0
          then handle_close c
          else ok (record c { calls = c.calls ++ (message ∷ []) })
    ])
      ≡ ok c'
    → Advances c c'
after_read c c' (failed errno) l e = subst (Advances c) (ok_eq e) (stay c)
after_read c c' (received bytes) l e = by_length (length bytes == 0) e
  where
    by_length :
        (b : Bool)
        → (if b then handle_close c else ok (record c { calls = c.calls ++ (message ∷ []) }))
          ≡ ok c'
        → Advances c c'
    by_length true e = closed-Advances c c' e
    by_length false e = subst (Advances c) (ok_eq e) (told-Advances c l)

pub read-Advances :
    (c c' : Connection) (r : Received)
    → is_reading c.events ≡ true
    → handle_read c r ≡ ok c'
    → Advances c c'
unfolding handle_read
read-Advances c c' r h e v =
    let l = reading-IsLive c.state c.events c.calls v h in
    let (a, p, q) = >>=-eq-ok (read_fd c.input r) _ e in
    after_read (record c { input = a.1 }) c' a.0 l q v
