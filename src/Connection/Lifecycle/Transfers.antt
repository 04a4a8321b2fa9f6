-- ===== src/Connection/Lifecycle/Transfers.antt =====
-- Sending and writing change neither the state nor what the user was told.
use starry.Common.{
  ℕ, ◌≡◌, ◌⊎◌, refl, ap, sym, subst, ◌∙◌, inl, inr, Bool, true, false, List, Fault, fatal, length,
  ltb, ◌==◌, if◌then◌else◌, if_ind, Bool-cases, Outcome, ok, err, ◌>>=◌, >>=-eq-ok,
}
use starry.Buffer.{readable_bytes, retrieve}
use starry.Channel.{is_writing}
use starry.Connection.{
  Connection, State, disconnected, connecting, connected, disconnecting, Wrote, wrote, would_block,
  write_error, queue_rest, write_now, is_idle, send_in_loop, send, is_connected, is_disconnected,
  shutdown_in_loop, drained, wrote_some, handle_write,
}
use starry.Connection.Lifecycle.{Same, Same-refl}

-- The state and the calls are kept.
pub record Kept (c c' : Connection) : Type 0 where
  pub state : c'.state ≡ c.state
  pub calls : c'.calls ≡ c.calls

abbrev pub kept : {c c' : Connection} → c'.state ≡ c.state → c'.calls ≡ c.calls → Kept c c'
kept e f = record { state = e; calls = f }

kept_trans : {a b c : Connection} → Kept a b → Kept b c → Kept a c
kept_trans x y = kept (y.state ∙ x.state) (y.calls ∙ x.calls)

-- An operation that returns keeps them.
abbrev Keeps : Connection → Outcome Connection → Type 0
Keeps c r = (c' : Connection) → r ≡ ok c' → Kept c c'

Keeps-ok : {c x : Connection} → Kept c x → Keeps c (ok x)
Keeps-ok {x} k c' e = subst (Kept _) (same e) k
  where
    same : {y : Connection} → ok x ≡ ok y → x ≡ y
    same h = cc

Keeps-err : {c : Connection} {f : Fault} → Keeps c (err f)
Keeps-err c' e = absurd (cc)

Keeps-bind :
    {A : Type 0} {c : Connection} (m : Outcome A) (f : A → Outcome Connection)
    → ((a : A) → Keeps c (f a))
    → Keeps c (m >>= f)
Keeps-bind m f k c' e = let (a, p, q) = >>=-eq-ok m f e in k a c' q

queue_rest-Keeps : (c : Connection) (rest : List ℕ) → Keeps c (queue_rest c rest)
unfolding queue_rest
queue_rest-Keeps c rest =
    if_ind (Keeps c) (ltb 0 (length rest))
      (Keeps-bind _ _ (λ output. Keeps-ok (if_ind (Kept c) _ (kept refl refl) (kept refl refl))))
      (Keeps-ok (kept refl refl))

-- The connection that the write at once leaves.
write_now-Kept :
    (c : Connection) (bytes : List ℕ) (w : Wrote) (r : Connection × List ℕ)
    → write_now c bytes w ≡ ok r
    → Kept c r.0
unfolding write_now
write_now-Kept c bytes (wrote n) r e = subst (λ x. Kept c x.0) (same e) (kept refl refl)
  where
    same : {y z : Connection × List ℕ} → ok y ≡ ok z → y ≡ z
    same h = cc
write_now-Kept c bytes would_block r e = subst (λ x. Kept c x.0) (same e) (kept refl refl)
  where
    same : {y z : Connection × List ℕ} → ok y ≡ ok z → y ≡ z
    same h = cc
write_now-Kept c bytes write_error r e = absurd (cc)

first_half-Kept :
    (c : Connection) (bytes : List ℕ) (w : Wrote) (b : Bool) (r : Connection × List ℕ)
    → (if b then write_now c bytes w else ok (c, bytes)) ≡ ok r
    → Kept c r.0
first_half-Kept c bytes w true r e = write_now-Kept c bytes w r e
first_half-Kept c bytes w false r e = subst (λ x. Kept c x.0) (same e) (kept refl refl)
  where
    same : {y z : Connection × List ℕ} → ok y ≡ ok z → y ≡ z
    same h = cc

send_in_loop-Keeps :
    (c : Connection) (bytes : List ℕ) (w : Wrote) → Keeps c (send_in_loop c bytes w)
unfolding send_in_loop
send_in_loop-Keeps c bytes w =
    if_ind (Keeps c) (is_disconnected c.state) (Keeps-ok (kept refl refl)) λ c' e.
      let first : Outcome (Connection × List ℕ) =
        if is_idle c then write_now c bytes w else ok (c, bytes) in
      let (r, p, q) = >>=-eq-ok first (λ r. queue_rest r.0 r.1) e in
      kept_trans (first_half-Kept c bytes w (is_idle c) r p) (queue_rest-Keeps r.0 r.1 c' q)

eq_of_is_connected : (s : State) → is_connected s ≡ true → s ≡ connected
eq_of_is_connected disconnected h = absurd (cc)
eq_of_is_connected connecting h = absurd (cc)
eq_of_is_connected connected h = refl
eq_of_is_connected disconnecting h = absurd (cc)

ok_eq : {x y : Connection} → ok x ≡ ok y → x ≡ y
ok_eq h = cc

pub send-Same :
    (c c' : Connection) (bytes : List ℕ) (w : Wrote) → send c bytes w ≡ ok c' → Same c c'
unfolding send
send-Same c c' bytes w e = elim (Bool-cases (is_connected c.state)) [
  | inl up ↦
      let k =
        send_in_loop-Keeps c bytes w c'
          (sym (ap (λ b. if b then send_in_loop c bytes w else ok c) up) ∙ e) in
      record { state = k.state; calls = k.calls; interest = inl (eq_of_is_connected c.state up) }
  | inr down ↦
      subst (Same c) (ok_eq (sym (ap (λ b. if b then send_in_loop c bytes w else ok c) down) ∙ e))
        (Same-refl c)
]

drained-Kept : (c : Connection) → Kept c (drained c)
unfolding drained shutdown_in_loop
drained-Kept c =
    if_ind (Kept c) _ (if_ind (Kept c) _ (kept refl refl) (kept refl refl)) (kept refl refl)

wrote_some-Keeps : (c : Connection) (n : ℕ) → Keeps c (wrote_some c n)
unfolding wrote_some
wrote_some-Keeps c n =
    if_ind (Keeps c) (ltb 0 n)
      (Keeps-bind (retrieve c.output n) _ (λ output. Keeps-ok (
        if_ind (Kept c) (readable_bytes output == 0) (kept_trans (kept refl refl) (drained-Kept _))
          (kept refl refl))))
      Keeps-err

-- What the test on the interest guards keeps the state and the calls, and does nothing to a channel without
-- interest in writing.
guarded-Same :
    (c c' : Connection) (r : Outcome Connection)
    → ((c.events ≡ 0) ⊎ ((c.state ≡ connected) ⊎ (c.state ≡ disconnecting)))
    → Keeps c r
    → (if is_writing c.events then r else ok c) ≡ ok c'
    → Same c c'
unfolding is_writing
guarded-Same c c' r live k e = elim (Bool-cases (is_writing c.events)) [
  | inr idle ↦ subst (Same c) (ok_eq (sym (ap (λ b. if b then r else ok c) idle) ∙ e)) (Same-refl c)
  | inl busy ↦
      let k' = k c' (sym (ap (λ b. if b then r else ok c) busy) ∙ e) in
      record { state = k'.state; calls = k'.calls; interest = interest live busy }
]
  where
    interest :
        (c.events ≡ 0) ⊎ ((c.state ≡ connected) ⊎ (c.state ≡ disconnecting))
        → is_writing c.events ≡ true
        → (c.state ≡ connected) ⊎ ((c.state ≡ disconnecting) ⊎ (c'.events ≡ c.events))
    interest (inl zero_events) busy = absurd (let no = sym (ap is_writing zero_events) ∙ busy in cc)
    interest (inr (inl s)) busy = inl s
    interest (inr (inr s)) busy = inr (inl s)

pub handle_write-Same :
    (c c' : Connection) (w : Wrote)
    → ((c.events ≡ 0) ⊎ ((c.state ≡ connected) ⊎ (c.state ≡ disconnecting)))
    → handle_write c w ≡ ok c'
    → Same c c'
unfolding handle_write
handle_write-Same c c' (wrote n) live e =
    guarded-Same c c' (wrote_some c n) live (wrote_some-Keeps c n) e
handle_write-Same c c' would_block live e = guarded-Same c c' (err fatal) live Keeps-err e
handle_write-Same c c' write_error live e = guarded-Same c c' (err fatal) live Keeps-err e
