-- ===== src/LoopThread/Orders.antt =====
-- The orders that are possible when only the destructor makes the loop quit.
use starry.Common.{
  ◌≡◌, ◌⊎◌, refl, ap, sym, subst, ◌∙◌, inl, inr, Bool, true, false, if◌then◌else◌, arith,
}
use starry.LoopThread.{
  Owner, idle, waiting, started, checked, asked, quit_sent, destroyed, terminated, freed, Thread,
  absent, created, made, published, running, stopped, ended, LoopThread, init, check_loop, set_quit,
  wake_loop, Step, start_loop, new_loop, publish, wake, enter_loop, leave_loop, delete_loop,
  user_quit, destroy_idle, destroy, quit_loop, wake_up, join, Reach, here, next,
}

-- Whether `loop_` is set, and whether the loop lives.
abbrev pub is_set : Thread → Bool
is_set absent = false
is_set created = false
is_set made = false
is_set published = true
is_set running = true
is_set stopped = true
is_set ended = false

abbrev pub lives : Thread → Bool
lives absent = false
lives created = false
lives made = true
lives published = true
lives running = true
lives stopped = true
lives ended = false

-- Which steps of the thread go with which of the owner.
abbrev pub Together : Owner → Thread → Bool → Type 0
Together idle th quit = (th ≡ absent) × (quit ≡ false)
Together waiting th quit =
    ((th ≡ created) ⊎ ((th ≡ made) ⊎ ((th ≡ published) ⊎ (th ≡ running)))) × (quit ≡ false)
Together started th quit = ((th ≡ published) ⊎ (th ≡ running)) × (quit ≡ false)
Together checked th quit = ((th ≡ published) ⊎ (th ≡ running)) × (quit ≡ false)
Together asked th quit = (th ≡ published) ⊎ ((th ≡ running) ⊎ ((th ≡ stopped) ⊎ (th ≡ ended)))
Together quit_sent th quit = (th ≡ published) ⊎ ((th ≡ running) ⊎ ((th ≡ stopped) ⊎ (th ≡ ended)))
Together destroyed th quit = (th ≡ absent) ⊎ (th ≡ ended)
Together terminated th quit = ⊥
Together freed th quit = th ≡ ended

pub record Inv (t : LoopThread) : Type 0 where
  pub set : t.loop ≡ is_set t.thread
  pub lives_then : t.alive ≡ lives t.thread
  pub together : Together t.owner t.thread t.quit

made-Together :
    (o : Owner) (th : Thread) (q : Bool) → Together o th q → th ≡ created → Together o made false
made-Together idle th q v e = ground arith
made-Together waiting th q v e = (inr (inl refl), refl)
made-Together started th q v e = ground arith
made-Together checked th q v e = ground arith
made-Together asked th q v e = ground arith
made-Together quit_sent th q v e = ground arith
made-Together destroyed th q v e = ground arith
made-Together terminated th q v e = v
made-Together freed th q v e = ground arith

published-Together :
    (o : Owner) (th : Thread) (q : Bool) → Together o th q → th ≡ made → Together o published q
published-Together idle th q v e = ground arith
published-Together waiting th q v e = (inr (inr (inl refl)), v.1)
published-Together started th q v e = ground arith
published-Together checked th q v e = ground arith
published-Together asked th q v e = ground arith
published-Together quit_sent th q v e = ground arith
published-Together destroyed th q v e = ground arith
published-Together terminated th q v e = v
published-Together freed th q v e = ground arith

running-Together :
    (o : Owner) (th : Thread) (q : Bool)
    → Together o th q
    → th ≡ published
    → Together o running false
running-Together idle th q v e = ground arith
running-Together waiting th q v e = (inr (inr (inr refl)), refl)
running-Together started th q v e = (inr refl, refl)
running-Together checked th q v e = (inr refl, refl)
running-Together asked th q v e = inr (inl refl)
running-Together quit_sent th q v e = inr (inl refl)
running-Together destroyed th q v e = ground arith
running-Together terminated th q v e = v
running-Together freed th q v e = ground arith

stopped-Together :
    (o : Owner) (th : Thread) (q : Bool)
    → Together o th q
    → th ≡ running
    → q ≡ true
    → Together o stopped q
stopped-Together idle th q v e h = ground arith
stopped-Together waiting th q v e h = ground arith
stopped-Together started th q v e h = ground arith
stopped-Together checked th q v e h = ground arith
stopped-Together asked th q v e h = inr (inr (inl refl))
stopped-Together quit_sent th q v e h = inr (inr (inl refl))
stopped-Together destroyed th q v e h = ground arith
stopped-Together terminated th q v e h = v
stopped-Together freed th q v e h = ground arith

ended-Together :
    (o : Owner) (th : Thread) (q : Bool) → Together o th q → th ≡ stopped → Together o ended q
ended-Together idle th q v e = ground arith
ended-Together waiting th q v e = ground arith
ended-Together started th q v e = ground arith
ended-Together checked th q v e = ground arith
ended-Together asked th q v e = inr (inr (inr refl))
ended-Together quit_sent th q v e = inr (inr (inr refl))
ended-Together destroyed th q v e = ground arith
ended-Together terminated th q v e = v
ended-Together freed th q v e = ground arith

-- While the loop is entered, it is set and lives.
pub in_use :
    (th : Thread) → (th ≡ published) ⊎ (th ≡ running) → (is_set th ≡ true) × (lives th ≡ true)
in_use th (inl e) = (ap is_set e, ap lives e)
in_use th (inr e) = (ap is_set e, ap lives e)

woken : (th : Thread) (q : Bool) → Together waiting th q → is_set th ≡ true → Together started th q
woken th q (inl e, f) s = absurd (let no = sym (ap is_set e) ∙ s in cc)
woken th q (inr (inl e), f) s = absurd (let no = sym (ap is_set e) ∙ s in cc)
woken th q (inr (inr e), f) s = (e, f)

pub at_owner : (t : LoopThread) {o : Owner} → Inv t → t.owner ≡ o → Together o t.thread t.quit
at_owner t v e = subst (λ o. Together o t.thread t.quit) e v.together

check_loop-Inv : (t : LoopThread) → Inv t → t.owner ≡ started → Inv (check_loop t)
unfolding check_loop
check_loop-Inv t v e =
    let (busy, q) = at_owner t v e in
    let s : t.loop ≡ true = v.set ∙ (in_use t.thread busy).0 in
    record {
      set = v.set;
      lives_then = v.lives_then;
      together =
          subst (λ o. Together o t.thread t.quit)
            (sym (ap (λ b. if b then checked else terminated) s)) (busy, q);
    }

to_quit : (th : Thread) → (th ≡ published) ⊎ (th ≡ running) → Together asked th true
to_quit th (inl e) = inl e
to_quit th (inr e) = inr (inl e)

set_quit-Inv : (t : LoopThread) → Inv t → t.owner ≡ checked → Inv (set_quit t)
unfolding set_quit
set_quit-Inv t v e =
    let (busy, q) = at_owner t v e in
    let a : t.alive ≡ true = v.lives_then ∙ (in_use t.thread busy).1 in
    record {
      set = v.set;
      lives_then = v.lives_then;
      together =
          subst (λ b. Together (if b then asked else freed) t.thread (if b then true else t.quit))
            (sym a) (to_quit t.thread busy);
    }

alive_or_ended :
    (th : Thread) (q : Bool)
    → Together asked th q
    → ((lives th ≡ true) × Together quit_sent th q) ⊎ ((lives th ≡ false) × (th ≡ ended))
alive_or_ended th q (inl e) = inl (ap lives e, inl e)
alive_or_ended th q (inr (inl e)) = inl (ap lives e, inr (inl e))
alive_or_ended th q (inr (inr (inl e))) = inl (ap lives e, inr (inr (inl e)))
alive_or_ended th q (inr (inr (inr e))) = inr (ap lives e, e)

wake_loop-Inv : (t : LoopThread) → Inv t → t.owner ≡ asked → Inv (wake_loop t)
unfolding wake_loop
wake_loop-Inv t v e = record {
  set = v.set;
  lives_then = v.lives_then;
  together = elim (alive_or_ended t.thread t.quit (at_owner t v e)) [
    | inl (l, h) ↦
        subst (λ b. Together (if b then quit_sent else freed) t.thread t.quit)
          (sym (v.lives_then ∙ l)) h
    | inr (l, h) ↦
        subst (λ b. Together (if b then quit_sent else freed) t.thread t.quit)
          (sym (v.lives_then ∙ l)) h
  ];
}

Step-Inv : {t u : LoopThread} → Step false t u → Inv t → Inv u
Step-Inv (start_loop {t = t} e) v =
    let (absent_now, q) = at_owner t v e in
    record {
      set = v.set ∙ ap is_set absent_now;
      lives_then = v.lives_then ∙ ap lives absent_now;
      together = (inl refl, q);
    }
Step-Inv (new_loop {t = t} e) v = record {
  set = v.set ∙ ap is_set e;
  lives_then = refl;
  together = made-Together t.owner t.thread t.quit v.together e;
}
Step-Inv (publish {t = t} e) v = record {
  set = refl;
  lives_then = v.lives_then ∙ ap lives e;
  together = published-Together t.owner t.thread t.quit v.together e;
}
Step-Inv (wake {t = t} e s) v = record {
  set = v.set;
  lives_then = v.lives_then;
  together = woken t.thread t.quit (at_owner t v e) (sym v.set ∙ s);
}
Step-Inv (enter_loop {t = t} e) v = record {
  set = v.set ∙ ap is_set e;
  lives_then = v.lives_then ∙ ap lives e;
  together = running-Together t.owner t.thread t.quit v.together e;
}
Step-Inv (leave_loop {t = t} e q) v = record {
  set = v.set ∙ ap is_set e;
  lives_then = v.lives_then ∙ ap lives e;
  together = stopped-Together t.owner t.thread t.quit v.together e q;
}
Step-Inv (delete_loop {t = t} e) v = record {
  set = refl;
  lives_then = refl;
  together = ended-Together t.owner t.thread t.quit v.together e;
}
Step-Inv (user_quit h e) v = absurd (cc)
Step-Inv (destroy_idle {t = t} e) v = record {
  set = v.set;
  lives_then = v.lives_then;
  together = inl (at_owner t v e).0;
}
Step-Inv (destroy {t = t} e) v = check_loop-Inv t v e
Step-Inv (quit_loop {t = t} e) v = set_quit-Inv t v e
Step-Inv (wake_up {t = t} e) v = wake_loop-Inv t v e
Step-Inv (join {t = t} e th) v = record {
  set = v.set;
  lives_then = v.lives_then;
  together = inr th;
}

pub Reach-Inv : {t : LoopThread} → Reach false t → Inv t
unfolding init
Reach-Inv here = record { set = refl; lives_then = refl; together = (refl, refl) }
Reach-Inv (next r s) = Step-Inv s (Reach-Inv r)
