-- ===== src/ThreadPool/Tests.antt =====
-- A pool of one worker whose queue has room for one task.
use starry.Common.{ℕ, ◌≡◌, refl, [], ◌∷◌, ◌++◌, some, length, ◌≤◌}
use starry.ThreadPool.{
  ThreadPool, start, take_task, leave, finish, stop, put_task, has_room, queue_task, enqueue,
  resume,
}
use starry.ThreadPool.Runs.{enqueues, resumes, Reach, here, later}
use starry.ThreadPool.Tasks.{Reach-fifo, Reach-within, IsOver, Reach-IsOver}

abbrev p0 : ThreadPool ℕ
p0 = start 1 1

-- One task waits in the queue, and the caller with the next one waits for room.
abbrev p1 : ThreadPool ℕ
p1 = queue_task p0 10

abbrev p2 : ThreadPool ℕ
p2 = queue_task p1 20

-- The pool is stopped, and the worker takes the task, ends it and leaves.
abbrev p3 : ThreadPool ℕ
p3 = stop p2

abbrev p4 : ThreadPool ℕ
p4 = take_task p3 0 10 []

abbrev p5 : ThreadPool ℕ
p5 = finish p4 [] 10

abbrev p6 : ThreadPool ℕ
p6 = leave p5 0

-- Then the caller puts its task.
abbrev p7 : ThreadPool ℕ
p7 = resume p6 [] 20

p2-Reach : Reach p0 p2
unfolding start enqueue queue_task put_task has_room
p2-Reach = later (later here (enqueues p0 p1 10 refl)) (enqueues p1 p2 20 refl)

p7-Reach : Reach p6 p7
unfolding start enqueue queue_task put_task has_room stop take_task finish leave
p7-Reach = later here (resumes p6 [] 20 [] refl refl)

Reach-fifo_example : p2.accepted ≡ p2.taken ++ p2.tasks
Reach-fifo_example = Reach-fifo 1 1 p2-Reach

p2-peak : p2.peak ≡ some 1
unfolding start queue_task put_task has_room
p2-peak = refl

p6-IsOver : IsOver p6
unfolding start queue_task put_task has_room stop take_task finish leave
p6-IsOver = (refl, refl, refl)

p7-IsOver : (p7.taken ≡ p6.taken) × (p7.done ≡ p6.done) × IsOver p7
p7-IsOver = Reach-IsOver p6 p6-IsOver p7-Reach

Reach-within_example : length p2.tasks ≤ 1
Reach-within_example = Reach-within 1 1 1 p2-Reach p2-peak

-- The task of the caller that waited is in the queue for good.
p7-tasks : p7.tasks ≡ 20 ∷ []
unfolding start queue_task put_task has_room stop take_task finish leave resume
p7-tasks = refl
