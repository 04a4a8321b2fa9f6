-- ===== src/Connector/Descriptors.antt =====
-- Every descriptor that is made is closed once, handed on once, or still the channel's.
use starry.Common.{
  ℕ, ◌+◌, ◌≡◌, refl, ap, sym, subst, ◌⊎◌, Outcome, err, fatal, Option-cases, Bool, true, false,
  List, [], ◌∷◌, ◌++◌, Option, none, some, ◌==◌, if◌then◌else◌, Bool-cases, inl, inr, arith, ok,
}
use starry.Connector.{
  Connector, State, disconnected, connecting, connected, reset_channel, init, is_connecting,
  SocketSays, hand_on, check_self, retry, retried, run_stop, remove_and_reset_channel, handle_write,
  handle_error,
}

abbrev pub count : ℕ → List ℕ → ℕ
count fd [] = 0
count fd (x ∷ xs) = (if x == fd then 1 else 0) + count fd xs

abbrev pub held_in : Option ℕ → ℕ → ℕ
held_in none fd = 0
held_in (some x) fd = if x == fd then 1 else 0

-- How often the connector itself still holds the descriptor.
abbrev pub held : Connector → ℕ → ℕ
held c fd = if is_connecting c.state then held_in c.channel fd else 0

-- No descriptor is lost, closed twice, or used after it was closed or handed on; and a connector
-- that is connecting has its channel.
pub record Accounted (c : Connector) : Type 0 where
  pub each : (fd : ℕ) → count fd c.created ≡ count fd c.closed + count fd c.handed + held c fd
  pub channel : c.state ≡ connecting → (fd : ℕ) × (c.channel ≡ some fd)

pub init-Accounted : Accounted init
unfolding init
init-Accounted = record { each = λ fd. refl; channel = λ e. absurd (cc) }

-- A connector that has just given up the descriptor `fd`: it is not counted any more.
pub record Released (c : Connector) (fd : ℕ) : Type 0 where
  pub each :
      (f : ℕ)
      → count f c.created ≡ (if fd == f then 1 else 0) + (count f c.closed + count f c.handed)

pub retried-Accounted : (c : Connector) (fd : ℕ) → Released c fd → Accounted (retried c fd)
unfolding retried
retried-Accounted c fd r = elim (Bool-cases c.wanted) [
  | inl w ↦ rw w (record { each = λ f. omega (arith, r.each f); channel = λ e. absurd (cc) })
  | inr w ↦ rw w (record { each = λ f. omega (arith, r.each f); channel = λ e. absurd (cc) })
]

-- An operation that succeeds, with every descriptor accounted for, or that ends the process.
abbrev pub Result : Type 0 → Outcome Connector → Type 0
Result Bad r = ((c' : Connector) × (r ≡ ok c') × Accounted c') ⊎ (Bad × (r ≡ err fatal))

pub retry-Result :
    (c : Connector) (fd : ℕ) (closes : Bool)
    → Released c fd
    → Result (closes ≡ false) (retry c fd closes)
unfolding retry
retry-Result c fd true r = inl (retried c fd, refl, retried-Accounted c fd r)
retry-Result c fd false r = inr (refl, refl)

hand_on-Result :
    (c : Connector) (fd : ℕ) (closes : Bool)
    → Released c fd
    → Result
        ((c.wanted ≡ false) × (closes ≡ false))
        (hand_on (record c { state = connected }) fd closes)
unfolding hand_on
hand_on-Result c fd closes r = elim (Bool-cases c.wanted) [
  | inl w ↦ inl (
    record c { state = connected; handed = fd ∷ c.handed },
    rw w refl,
    record { each = λ f. omega (arith, r.each f); channel = λ e. absurd (cc) },
  )
  | inr w ↦ elim (Bool-cases closes) [
    | inl k ↦ inl (
      record c { state = connected; closed = fd ∷ c.closed },
      rw (w, k) refl,
      record { each = λ f. omega (arith, r.each f); channel = λ e. absurd (cc) },
    )
    | inr k ↦ inr ((w, k), rw (w, k) refl)
  ]
]

connecting-eq : (s : State) → is_connecting s ≡ true → s ≡ connecting
connecting-eq disconnected e = cc
connecting-eq connecting e = refl
connecting-eq connected e = cc

abbrev emptied : Connector → Connector
emptied c = record c { queue = c.queue ++ (reset_channel ∷ []) }

remove-some :
    (c : Connector) (fd : ℕ) → c.channel ≡ some fd → remove_and_reset_channel c ≡ ok (fd, emptied c)
unfolding remove_and_reset_channel
remove-some c fd e = rw e refl

Accounted-Released :
    (c : Connector) (fd : ℕ)
    → Accounted c
    → is_connecting c.state ≡ true
    → c.channel ≡ some fd
    → Released c fd
Accounted-Released c fd a h e = record {
  each = λ f.
      let k : held c f ≡ (if fd == f then 1 else 0) = rw (h, e) refl in omega (arith, a.each f, k);
}

run_stop-connecting :
    (c : Connector) (closes : Bool) (fd : ℕ)
    → is_connecting c.state ≡ true
    → c.channel ≡ some fd
    → run_stop c closes ≡ retry (emptied (record c { state = connected })) fd closes
unfolding run_stop
run_stop-connecting c closes fd h e = rw (h, remove-some (record c { state = connected }) fd e) refl

handle_error-connecting :
    (c : Connector) (closes : Bool) (fd : ℕ)
    → is_connecting c.state ≡ true
    → c.channel ≡ some fd
    → handle_error c closes ≡ retry (emptied c) fd closes
unfolding handle_error
handle_error-connecting c closes fd h e = rw (h, remove-some c fd e) refl

abbrev written : Connector → SocketSays → ℕ → Outcome Connector
written c a fd = if a.error then retry (emptied c) fd a.closes else check_self (emptied c) fd a

handle_write-connecting :
    (c : Connector) (a : SocketSays) (fd : ℕ)
    → is_connecting c.state ≡ true
    → c.channel ≡ some fd
    → handle_write c a ≡ written c a fd
unfolding handle_write
handle_write-connecting c a fd h e = rw (h, remove-some c fd e) refl

-- What makes a write event of a connecting connector end the process: a descriptor that is to be
-- closed cannot be, or the ends of the socket cannot be told.
abbrev pub IsFatal : Connector → SocketSays → Type 0
IsFatal c a =
    ((a.closes ≡ false) × ((a.error ≡ true) ⊎ ((a.self_connect ≡ some true) ⊎ (c.wanted ≡ false))))
    ⊎ ((a.error ≡ false) × (a.self_connect ≡ none))

weaken : {P Q : Type 0} {r : Outcome Connector} → (P → Q) → Result P r → Result Q r
weaken f (inl x) = inl x
weaken f (inr (p, e)) = inr (f p, e)

check_self-Result :
    (c : Connector) (fd : ℕ) (a : SocketSays)
    → Released c fd
    → a.error ≡ false
    → Result (IsFatal c a) (check_self c fd a)
unfolding check_self
check_self-Result c fd a r e = elim (Option-cases a.self_connect) [
  | inl n ↦ inr (inr (e, n), rw (check_self, n) refl)
  | inr (true, s) ↦
      subst (Result (IsFatal c a)) (sym (rw (check_self, s) refl))
        (weaken (λ k. inl (k, inr (inl s))) (retry-Result c fd a.closes r))
  | inr (false, s) ↦
      subst (Result (IsFatal c a)) (sym (rw (check_self, s) refl))
        (weaken (λ (w, k). inl (k, inr (inr w))) (hand_on-Result c fd a.closes r))
]

-- A write event of a connector that is connecting, whatever the socket then says: either it succeeds
-- and every descriptor is still accounted for, or it ends the process, and then a descriptor that had
-- to be closed could not be, or the ends of the socket could not be told.
pub handle_write-Accounted :
    (c : Connector) (a : SocketSays)
    → Accounted c
    → c.state ≡ connecting
    → ((c' : Connector) × (handle_write c a ≡ ok c') × Accounted c')
      ⊎ (IsFatal c a × (handle_write c a ≡ err fatal))
handle_write-Accounted c a v s =
    let (fd, e) = v.channel s in
    let h = ap is_connecting s in
    let r = Accounted-Released c fd v h e in
    let r' : Released (emptied c) fd = record { each = r.each } in
    subst (Result (IsFatal c a)) (sym (handle_write-connecting c a fd h e))
      (elim (Bool-cases a.error) [
        | inl b ↦
            subst (Result (IsFatal c a)) (sym (rw b refl))
              (weaken (λ k. inl (k, inl b)) (retry-Result (emptied c) fd a.closes r'))
        | inr b ↦
            subst (Result (IsFatal c a)) (sym (rw b refl)) (check_self-Result (emptied c) fd a r' b)
      ])

-- An error event in any state leaves every descriptor accounted for, or ends the process because
-- the descriptor cannot be closed.
pub handle_error-Accounted :
    (c : Connector) (closes : Bool) → Accounted c → Result (closes ≡ false) (handle_error c closes)
unfolding handle_error
handle_error-Accounted c closes a = elim (Bool-cases (is_connecting c.state)) [
  | inr h ↦ inl (c, rw h refl, a)
  | inl h ↦
      let (fd, e) = a.channel (connecting-eq c.state h) in
      let r = Accounted-Released c fd a h e in
      subst (Result (closes ≡ false)) (sym (handle_error-connecting c closes fd h e))
        (retry-Result (emptied c) fd closes (record { each = r.each }))
]

-- `stopInLoop` in any state closes the descriptor of a connector that is connecting, so that every
-- descriptor stays accounted for, or ends the process because it cannot be closed.
pub run_stop-Accounted :
    (c : Connector) (closes : Bool) → Accounted c → Result (closes ≡ false) (run_stop c closes)
unfolding run_stop
run_stop-Accounted c closes a = elim (Bool-cases (is_connecting c.state)) [
  | inr h ↦ inl (c, rw h refl, a)
  | inl h ↦
      let (fd, e) = a.channel (connecting-eq c.state h) in
      let r = Accounted-Released c fd a h e in
      subst (Result (closes ≡ false)) (sym (run_stop-connecting c closes fd h e)) (
        retry-Result (emptied (record c { state = connected })) fd closes
          (record { each = r.each }))
]
