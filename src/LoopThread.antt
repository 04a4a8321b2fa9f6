-- ===== src/LoopThread.antt =====
-- starry/net/include/eventloop_thread.h and starry/net/src/eventloop_thread.cpp: the thread of one
-- loop and the thread that owns it, as steps of the two in any order. A step is what one of them does
-- between two points where the other may come in between; `mutex_` keeps the parts it guards whole.
-- Whether the loop's own functors may call `quit` on it is the parameter `user`.
pub mod Orders
pub mod Ends
mod Tests
use starry.Common.{ℕ, ◌≡◌, Bool, true, false, if◌then◌else◌}

-- The owner: before `startLoop`, in its wait, after it; in the destructor behind the test of
-- `loop_`, in `EventLoop::quit` between the flag and `wakeup`, behind `quit`, and at the end. `terminated` is std::terminate, since `thread_` is destroyed
-- without a join, and `freed` a call on a loop that was deleted.
pub data Owner : Type 0 where
  idle waiting started checked asked quit_sent destroyed terminated freed : Owner

-- The thread in `threadFunc`: not there yet, before `new EventLoop`, behind it, behind the
-- assignment to `loop_`, in `loop()`, behind it, at the end.
pub data Thread : Type 0 where
  absent created made published running stopped ended : Thread

pub record LoopThread : Type 0 where
  pub owner : Owner
  pub thread : Thread
  pub loop : Bool
  pub alive : Bool
  pub quit : Bool

unfoldable pub init : LoopThread
init = record { owner = idle; thread = absent; loop = false; alive = false; quit = false }

-- What the destructor does next: without a loop it does not join, and a thread that was started is
-- then still joinable.
unfoldable pub check_loop : LoopThread → LoopThread
check_loop t = record t { owner = if t.loop then checked else terminated }

-- The two halves of `loop_->quit()` in another thread: the flag, and then `isInLoopThread` and
-- `wakeup`, which use the loop again.
unfoldable pub set_quit : LoopThread → LoopThread
set_quit t = record t {
  owner = if t.alive then asked else freed;
  quit = if t.alive then true else t.quit;
}

unfoldable pub wake_loop : LoopThread → LoopThread
wake_loop t = record t { owner = if t.alive then quit_sent else freed }

pub data Step (user : Bool) : LoopThread → LoopThread → Type 0 where
  start_loop :
      {t : LoopThread}
      → t.owner ≡ idle
      → Step user t (record t { owner = waiting; thread = created })
  new_loop :
      {t : LoopThread}
      → t.thread ≡ created
      → Step user t (record t { thread = made; alive = true; quit = false })
  publish :
      {t : LoopThread}
      → t.thread ≡ made
      → Step user t (record t { thread = published; loop = true })
  wake :
      {t : LoopThread}
      → t.owner ≡ waiting
      → t.loop ≡ true
      → Step user t (record t { owner = started })
  enter_loop :
      {t : LoopThread}
      → t.thread ≡ published
      → Step user t (record t { thread = running; quit = false })
  leave_loop :
      {t : LoopThread}
      → t.thread ≡ running
      → t.quit ≡ true
      → Step user t (record t { thread = stopped })
  delete_loop :
      {t : LoopThread}
      → t.thread ≡ stopped
      → Step user t (record t { thread = ended; loop = false; alive = false })
  user_quit :
      {t : LoopThread} → user ≡ true → t.thread ≡ running → Step user t (record t { quit = true })
  destroy_idle : {t : LoopThread} → t.owner ≡ idle → Step user t (record t { owner = destroyed })
  destroy : {t : LoopThread} → t.owner ≡ started → Step user t (check_loop t)
  quit_loop : {t : LoopThread} → t.owner ≡ checked → Step user t (set_quit t)
  wake_up : {t : LoopThread} → t.owner ≡ asked → Step user t (wake_loop t)
  join :
      {t : LoopThread}
      → t.owner ≡ quit_sent
      → t.thread ≡ ended
      → Step user t (record t { owner = destroyed })

pub data Reach (user : Bool) : LoopThread → Type 0 where
  here : Reach user init
  next : {t u : LoopThread} → Reach user t → Step user t u → Reach user u
