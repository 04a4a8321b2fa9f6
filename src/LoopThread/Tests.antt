-- ===== src/LoopThread/Tests.antt =====
-- Runs of the two threads.
use starry.Common.{◌≡◌, ◌≢◌, ◌↔◌, refl, inr, Bool, true, false}
use starry.LoopThread.{
  started, checked, destroyed, terminated, freed, quit_sent, published, running, ended, LoopThread,
  init, check_loop, set_quit, wake_loop, Step, start_loop, new_loop, publish, wake, enter_loop,
  leave_loop, delete_loop, user_quit, destroy, quit_loop, wake_up, Reach, here, next,
}
use starry.LoopThread.Ends.{Lost, Reach-safe, Stuck-Lost}

-- Up to the end of `startLoop`.
abbrev up : LoopThread
up = record { owner = started; thread = published; loop = true; alive = true; quit = false }

up-Reach : (user : Bool) → Reach user up
unfolding init
up-Reach user =
    next (next (next (next here (start_loop refl)) (new_loop refl)) (publish refl)) (wake refl refl)

-- The destructor asks the loop to quit before the thread is in it.
abbrev hangs : LoopThread
hangs = record { owner = quit_sent; thread = running; loop = true; alive = true; quit = false }

hangs-Reach : Reach false hangs
unfolding check_loop set_quit wake_loop
hangs-Reach =
    next (next (next (next (up-Reach false) (destroy refl)) (quit_loop refl)) (wake_up refl))
      (enter_loop refl)

-- The thread leaves at the flag, and deletes the loop that the destructor then wakes.
abbrev gone : LoopThread
gone = record { owner = freed; thread = ended; loop = false; alive = false; quit = true }

gone-Reach : Reach false gone
unfolding check_loop set_quit wake_loop
gone-Reach =
    next
      (next
        (next
          (next (next (next (up-Reach false) (enter_loop refl)) (destroy refl)) (quit_loop refl))
          (leave_loop refl refl))
        (delete_loop refl))
      (wake_up refl)

-- The user makes the loop quit, and destroys the owner afterwards.
abbrev unjoined : LoopThread
unjoined = record { owner = terminated; thread = ended; loop = false; alive = false; quit = true }

unjoined-Reach : Reach true unjoined
unfolding check_loop
unjoined-Reach =
    next
      (next
        (next (next (next (up-Reach true) (enter_loop refl)) (user_quit refl refl))
          (leave_loop refl refl))
        (delete_loop refl))
      (destroy refl)

Reach-safe_example :
    (gone.owner ≢ terminated)
    × (gone.owner ≡ started → gone.alive ≡ true)
    × (gone.owner ≡ checked → gone.alive ≡ true)
    × (gone.owner ≡ freed → gone.thread ≡ ended)
    × (gone.owner ≡ destroyed → gone.alive ≡ false)
Reach-safe_example = Reach-safe gone-Reach

Stuck-Lost_example : ((u : LoopThread) → Step false hangs u → ⊥) ↔ Lost hangs
Stuck-Lost_example = Stuck-Lost hangs-Reach (inr (inr (inr refl)))
