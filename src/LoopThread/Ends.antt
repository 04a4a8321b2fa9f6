-- ===== src/LoopThread/Ends.antt =====
-- What the owner of the thread can rely on, and when it hangs.
use starry.Common.{◌≡◌, ◌≢◌, ◌⊎◌, ◌↔◌, ap, ◌∙◌, inl, inr, true, false, Bool-cases}
use starry.LoopThread.{
  waiting, started, checked, asked, quit_sent, destroyed, terminated, freed, Thread, absent,
  created, made, published, running, stopped, ended, LoopThread, Step, start_loop, new_loop,
  publish, wake, enter_loop, leave_loop, delete_loop, user_quit, destroy_idle, destroy, quit_loop,
  wake_up, join, Reach,
}
use starry.LoopThread.Orders.{lives, Inv, in_use, at_owner, Reach-Inv}

destroyed_dead : (th : Thread) → (th ≡ absent) ⊎ (th ≡ ended) → lives th ≡ false
destroyed_dead th (inl e) = ap lives e
destroyed_dead th (inr e) = ap lives e

-- As long as no functor makes the loop quit, in every order of the steps of the two threads: the
-- process is not terminated by an unjoined thread; the loop that `startLoop` has returned lives until
-- the destructor has set its flag, and is deleted when the destructor is done. A deleted loop is used
-- only by the `wakeup` of the destructor's `quit`, when the thread has left `loop()` at the flag and
-- is at its end before that.
pub Reach-safe :
    {t : LoopThread}
    → Reach false t
    → (t.owner ≢ terminated)
      × (t.owner ≡ started → t.alive ≡ true)
      × (t.owner ≡ checked → t.alive ≡ true)
      × (t.owner ≡ freed → t.thread ≡ ended)
      × (t.owner ≡ destroyed → t.alive ≡ false)
Reach-safe {t} r =
    let v = Reach-Inv r in
    (
      λ e. at_owner t v e,
      λ e. v.lives_then ∙ (in_use t.thread (at_owner t v e).0).1,
      λ e. v.lives_then ∙ (in_use t.thread (at_owner t v e).0).1,
      λ e. at_owner t v e,
      λ e. v.lives_then ∙ destroyed_dead t.thread (at_owner t v e),
    )

-- The quit of the destructor came before `loop()` forgot it.
abbrev pub Lost : LoopThread → Type 0
Lost t = (t.owner ≡ quit_sent) × (t.thread ≡ running) × (t.quit ≡ false)

-- The owner waits, in `startLoop` or in the destructor.
abbrev pub Busy : LoopThread → Type 0
Busy t = (t.owner ≡ waiting) ⊎ ((t.owner ≡ checked) ⊎ ((t.owner ≡ asked) ⊎ (t.owner ≡ quit_sent)))

abbrev Stuck : LoopThread → Type 0
Stuck t = (u : LoopThread) → Step false t u → ⊥

Lost-Stuck : (t : LoopThread) → Lost t → Stuck t
Lost-Stuck t l u (start_loop e) = cc
Lost-Stuck t l u (new_loop e) = cc
Lost-Stuck t l u (publish e) = cc
Lost-Stuck t l u (wake e s) = cc
Lost-Stuck t l u (enter_loop e) = cc
Lost-Stuck t l u (leave_loop e q) = cc
Lost-Stuck t l u (delete_loop e) = cc
Lost-Stuck t l u (user_quit h e) = cc
Lost-Stuck t l u (destroy_idle e) = cc
Lost-Stuck t l u (destroy e) = cc
Lost-Stuck t l u (quit_loop e) = cc
Lost-Stuck t l u (wake_up e) = cc
Lost-Stuck t l u (join e th) = cc

waiting_moves : (t : LoopThread) → Inv t → t.owner ≡ waiting → Stuck t → ⊥
waiting_moves t v o s = by_thread (at_owner t v o).0
  where
    by_thread :
        (t.thread ≡ created) ⊎ ((t.thread ≡ made) ⊎ ((t.thread ≡ published) ⊎ (t.thread ≡ running)))
        → ⊥
    by_thread (inl e) = s _ (new_loop e)
    by_thread (inr (inl e)) = s _ (publish e)
    by_thread (inr (inr e)) = s _ (wake o (v.set ∙ (in_use t.thread e).0))

joining_moves : (t : LoopThread) → Inv t → t.owner ≡ quit_sent → Stuck t → Lost t
joining_moves t v o s = by_thread (at_owner t v o)
  where
    by_quit : t.thread ≡ running → (t.quit ≡ true) ⊎ (t.quit ≡ false) → Lost t
    by_quit e (inl q) = absurd (s _ (leave_loop e q))
    by_quit e (inr q) = (o, e, q)

    by_thread :
        (t.thread ≡ published)
          ⊎ ((t.thread ≡ running) ⊎ ((t.thread ≡ stopped) ⊎ (t.thread ≡ ended)))
        → Lost t
    by_thread (inl e) = absurd (s _ (enter_loop e))
    by_thread (inr (inl e)) = by_quit e (Bool-cases t.quit)
    by_thread (inr (inr (inl e))) = absurd (s _ (delete_loop e))
    by_thread (inr (inr (inr e))) = absurd (s _ (join o e))

-- As long as no functor makes the loop quit, while the owner is in `startLoop` or in the destructor
-- behind its test, and no deleted loop was used, a step is possible in every order of the steps of the
-- two threads, but in one case, in which none is: the destructor has set the flag before the thread
-- entered `loop()`, which took it back.
pub Stuck-Lost :
    {t : LoopThread} → Reach false t → Busy t → ((u : LoopThread) → Step false t u → ⊥) ↔ Lost t
Stuck-Lost {t} r b = (by_owner b, Lost-Stuck t)
  where
    by_owner : Busy t → Stuck t → Lost t
    by_owner (inl o) s = absurd (waiting_moves t (Reach-Inv r) o s)
    by_owner (inr (inl o)) s = absurd (s _ (quit_loop o))
    by_owner (inr (inr (inl o))) s = absurd (s _ (wake_up o))
    by_owner (inr (inr (inr o))) s = joining_moves t (Reach-Inv r) o s
