-- ===== src/Connection/Lifecycle/Changes.antt =====
-- The operations that change the state of a connection, or tell the user something.
use starry.Common.{
  ℕ, ◌≤◌, ◌≡◌, ◌⊎◌, refl, ap, sym, subst, inl, inr, Bool, true, false, ◌||◌, List, [], ◌∷◌, ◌++◌,
  if◌then◌else◌, if_ind, if_split, ok, assert, >>=-eq-ok, arith,
}
use starry.Channel.{is_writing, is_none_event, disable_all, apply_interest}
use starry.Connection.{
  Connection, State, disconnected, connecting, connected, disconnecting, Call, connection, close,
  handle_close, shutdown, shutdown_in_loop, force_close, run_force_close, set_interest,
  queue_in_loop, force_close_in_loop, connect_established, connect_destroyed, is_connected,
  is_disconnecting, is_connecting,
}
use starry.Connection.Lifecycle.{Same, Legal-Same, rank, Up, Legal, IsLegal}

-- From a legal connection to a legal one, and not back.
abbrev pub Advances : Connection → Connection → Type 0
Advances c c' = IsLegal c → (rank c.state ≤ rank c'.state) × IsLegal c'

abbrev pub IsLive : State → Type 0
IsLive s = (s ≡ connected) ⊎ (s ≡ disconnecting)

pub Same-Advances : (c c' : Connection) → Same c c' → Advances c c'
Same-Advances c c' s v = (omega (arith, ap rank s.state), Legal-Same c c' s v)

IsLive-of : (s : State) → (is_connected s || is_disconnecting s) ≡ true → IsLive s
IsLive-of disconnected h = absurd (cc)
IsLive-of connecting h = absurd (cc)
IsLive-of connected h = inl refl
IsLive-of disconnecting h = inr refl

rank-le : (s : State) → rank s ≤ 3
rank-le disconnected = omega arith
rank-le connecting = omega arith
rank-le connected = omega arith
rank-le disconnecting = omega arith

pub live-Up :
    (s : State) (events : ℕ) (calls : List Call) → IsLive s → Legal s events calls → Up calls
live-Up connected events calls l v = v
live-Up disconnecting events calls l v = v
live-Up connecting events calls (inl q) v = absurd (cc)
live-Up connecting events calls (inr q) v = absurd (cc)
live-Up disconnected events calls (inl q) v = absurd (cc)
live-Up disconnected events calls (inr q) v = absurd (cc)

assert-true : (b : Bool) {u : Unit {0}} → assert b ≡ ok u → b ≡ true
assert-true true h = refl
assert-true false h = absurd (cc)

pub ok_eq : {x y : Connection} → ok x ≡ ok y → x ≡ y
ok_eq h = cc

pub closed-Advances : (c c' : Connection) → handle_close c ≡ ok c' → Advances c c'
unfolding handle_close apply_interest
closed-Advances c c' e =
    let (u, p, q) = >>=-eq-ok (assert (is_connected c.state || is_disconnecting c.state)) _ e in
    subst (Advances c) (ok_eq q) λ v.
      let (n, w) = live-Up c.state c.events c.calls (IsLive-of c.state (assert-true _ p)) v in
      (rank-le c.state, (refl, (n, inr (ap (λ x. x ++ (connection ∷ close ∷ [])) w))))

pub established-Advances : (c c' : Connection) → connect_established c ≡ ok c' → Advances c c'
unfolding connect_established apply_interest
established-Advances c c' e =
    let (u, p, q) = >>=-eq-ok (assert (is_connecting c.state)) _ e in
    subst (Advances c) (ok_eq q) λ v.
      let (r, w) = first c.state (assert-true _ p) v in (r, (0, ap (λ x. x ++ (connection ∷ [])) w))
  where
    first :
        (s : State)
        → is_connecting s ≡ true
        → Legal s c.events c.calls
        → (rank s ≤ 1) × (c.calls ≡ [])
    first connecting h v = (omega arith, v.1)
    first disconnected h v = absurd (cc)
    first connected h v = absurd (cc)
    first disconnecting h v = absurd (cc)

connected_of : (s : State) → is_connected s ≡ true → s ≡ connected
connected_of disconnected h = absurd (cc)
connected_of connecting h = absurd (cc)
connected_of connected h = refl
connected_of disconnecting h = absurd (cc)

pub destroyed-Advances : (c c' : Connection) → connect_destroyed c ≡ ok c' → Advances c c'
unfolding connect_destroyed apply_interest
destroyed-Advances c c' e =
    let down : Connection = record (set_interest (record c { state = disconnected }) disable_all) {
      calls = c.calls ++ (connection ∷ []);
    } in
    let c1 : Connection = if is_connected c.state then down else c in
    let (u, p, q) = >>=-eq-ok (assert (is_none_event c1.events)) _ e in
    let (u', p', q') = >>=-eq-ok (assert c1.registered) _ q in
    subst (Advances c) (ok_eq q') (
      if_split (λ x. Advances c (record x { registered = false })) (is_connected c.state)
        (λ up v.
          let (n, w) = live-Up c.state c.events c.calls (inl (connected_of c.state up)) v in
          (rank-le c.state, (refl, (n, inl (ap (λ x. x ++ (connection ∷ [])) w)))))
        (λ up v. (omega arith, v)))

rank-live : (s : State) → IsLive s → rank s ≤ 2
rank-live s (inl e) = omega (arith, ap rank e)
rank-live s (inr e) = omega (arith, ap rank e)

-- A live connection that starts to be shut down, in whatever way.
ending-Advances :
    (c x : Connection) → IsLive c.state → x.state ≡ disconnecting → x.calls ≡ c.calls → Advances c x
ending-Advances c x l s k v = (
  omega (arith, rank-live c.state l, ap rank s),
  subst (λ t. Legal t x.events x.calls) (sym s)
      (subst Up (sym k) (live-Up c.state c.events c.calls l v)),
)

pub stay : (c : Connection) → Advances c c
stay c v = (omega arith, v)

pub shut-Advances : (c : Connection) → Advances c (shutdown c)
unfolding shutdown shutdown_in_loop
shut-Advances c =
    if_split (Advances c) (is_connected c.state)
      (λ up.
        let l : IsLive c.state = inl (connected_of c.state up) in
        let x : Connection = record c { state = disconnecting } in
        if_ind (Advances c) (is_writing c.events) {x = x} {y = record x { write_shut = true }}
          (ending-Advances c x l refl refl)
          (ending-Advances c (record x { write_shut = true }) l refl refl))
      (λ up. stay c)

pub force-Advances : (c : Connection) → Advances c (force_close c)
unfolding force_close
force-Advances c =
    if_split (Advances c) (is_connected c.state || is_disconnecting c.state)
      (λ h.
        ending-Advances c
          (queue_in_loop (record c { state = disconnecting }) true force_close_in_loop)
          (IsLive-of c.state h) refl refl)
      (λ h. stay c)

pub run_force-Advances : (c c' : Connection) → run_force_close c ≡ ok c' → Advances c c'
unfolding run_force_close
run_force-Advances c c' =
    if_ind (λ r. r ≡ ok c' → Advances c c') (is_connected c.state || is_disconnecting c.state)
      (closed-Advances c c') (λ e. subst (Advances c) (ok_eq e) (stay c))
