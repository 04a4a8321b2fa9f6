-- ===== src/ThreadPool.antt =====
-- starry/base/thread_pool/include/thread_pool.h, from `start` to the end of `stop`. `waiting`
-- workers are in `condition_.wait`, `busy` holds the tasks that workers run, and `gone` workers have returned;
-- `blocked` holds the tasks of the callers that are in `notFull_.wait`. `accepted`, `taken` and
-- `done` are the tasks so far that were put into the queue, taken from it, and run to their end;
-- `late` counts those that were put into it after `stop`, and `peak` is the largest size that the
-- queue was ever limited to, `none` when it was once not limited.
pub mod Runs
pub mod Tasks
mod Tests
use starry.Common.{
  ℕ, ◌+◌, Bool, true, false, not, ◌||◌, List, [], ◌∷◌, ◌++◌, Option, none, some, length, max, ltb,
  ◌==◌, if◌then◌else◌,
}

pub record ThreadPool (T : Type 0) : Type 0 where
  pub tasks : List T
  pub max_queue_size : ℕ
  pub stopping : Bool
  pub running : Bool
  pub waiting : ℕ
  pub busy : List T
  pub gone : ℕ
  pub blocked : List T
  pub accepted : List T
  pub taken : List T
  pub done : List T
  pub late : ℕ
  pub peak : Option ℕ

-- What a worker does when it has the mutex.
pub data Turn (T : Type 0) : Type 0 where
  waits leaves : Turn T
  takes : T → List T → Turn T

abbrev pub limit : ℕ → Option ℕ
limit n = if n == 0 then none else some n

abbrev pub larger : Option ℕ → Option ℕ → Option ℕ
larger none b = none
larger (some a) none = none
larger (some a) (some b) = some (max a b)

module _ {T : Type 0} where
  unfoldable pub start : ℕ → ℕ → ThreadPool T
  start threads max_queue_size = record {
    tasks = [];
    max_queue_size = max_queue_size;
    stopping = false;
    running = true;
    waiting = threads;
    busy = [];
    gone = 0;
    blocked = [];
    accepted = [];
    taken = [];
    done = [];
    late = 0;
    peak = limit max_queue_size;
  }

  -- The condition that a worker waits for, and what it does then.
  unfoldable pub turn_of : List T → Bool → Turn T
  turn_of [] stopping = if stopping then leaves else waits
  turn_of (t ∷ rest) stopping = takes t rest

  unfoldable pub turn : ThreadPool T → Turn T
  turn p = turn_of p.tasks p.stopping

  unfoldable pub take_task : ThreadPool T → ℕ → T → List T → ThreadPool T
  take_task p n t rest = record p {
    waiting = n;
    tasks = rest;
    busy = p.busy ++ (t ∷ []);
    taken = p.taken ++ (t ∷ []);
  }

  unfoldable pub leave : ThreadPool T → ℕ → ThreadPool T
  leave p n = record p { waiting = n; gone = p.gone + 1 }

  unfoldable pub finish : ThreadPool T → List T → T → ThreadPool T
  finish p others t = record p { busy = others; waiting = p.waiting + 1; done = p.done ++ (t ∷ []) }

  -- `stop` up to the joins.
  unfoldable pub stop : ThreadPool T → ThreadPool T
  stop p = if not p.running then p else record p { stopping = true; running = false }

  unfoldable pub put_task : ThreadPool T → T → ThreadPool T
  put_task p t = record p {
    tasks = p.tasks ++ (t ∷ []);
    accepted = p.accepted ++ (t ∷ []);
    late = if p.stopping then p.late + 1 else p.late;
  }

  -- The condition that a caller of `enqueue` waits for.
  unfoldable pub has_room : ThreadPool T → Bool
  has_room p = ltb (length p.tasks) p.max_queue_size

  -- The block of `enqueue` under the mutex, up to its wait; the whole is `none` when it throws.
  unfoldable pub queue_task : ThreadPool T → T → ThreadPool T
  queue_task p t =
      if p.max_queue_size == 0 || has_room p
      then put_task p t
      else record p { blocked = p.blocked ++ (t ∷ []) }

  unfoldable pub enqueue : ThreadPool T → T → Option (ThreadPool T)
  enqueue p t = if not p.running then none else some (queue_task p t)

  -- The rest of `enqueue` after a wait.
  unfoldable pub resume : ThreadPool T → List T → T → ThreadPool T
  resume p others t = put_task (record p { blocked = others }) t

  unfoldable pub set_max_queue_size : ThreadPool T → ℕ → ThreadPool T
  set_max_queue_size p n = record p { max_queue_size = n; peak = larger p.peak (limit n) }
