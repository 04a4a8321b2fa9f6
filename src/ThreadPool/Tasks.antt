-- ===== src/ThreadPool/Tasks.antt =====
-- What becomes of the tasks of a pool.
use starry.Common.{
  ℕ, ◌≤◌, ◌≡◌, ◌≢◌, refl, sym, subst, ◌∙◌, false, not, List, [], ◌∷◌, ◌++◌, some, length, if_ind,
  arith,
}
use starry.ThreadPool.{ThreadPool, start, stop, put_task, enqueue, resume, set_max_queue_size}
use starry.ThreadPool.Runs.{
  Step, enqueues, resumes, takes_task, goes, finishes, stops, resizes, Reach, here, later, IsWithin,
  Reach-Inv, enqueue-stopped,
}

module _ {T : Type 0} where
  -- In every interleaving the tasks are taken from the queue in the order in which they were put
  -- into it, each once.
  pub Reach-fifo :
      (threads n : ℕ) {p : ThreadPool T}
      → Reach (start threads n) p
      → p.accepted ≡ p.taken ++ p.tasks
  Reach-fifo threads n r = (Reach-Inv threads n r).order

  -- The queue is never longer than the largest limit that it had, unless it was once unlimited.
  pub Reach-within :
      (threads n : ℕ) {p : ThreadPool T} (m : ℕ)
      → Reach (start threads n) p
      → p.peak ≡ some m
      → length p.tasks ≤ m
  Reach-within threads n {p} m r e =
      subst (IsWithin (length p.tasks)) e (Reach-Inv threads n r).within

  -- No worker is left to take a task.
  abbrev pub IsOver : ThreadPool T → Type 0
  IsOver p = (p.running ≡ false) × (p.waiting ≡ 0) × (p.busy ≡ [])

  not_nil : (before : List T) (t : T) (rest : List T) → [] ≢ before ++ (t ∷ rest)
  not_nil [] t rest h = cc
  not_nil (x ∷ before) t rest h = cc

  Step-IsOver :
      {p q : ThreadPool T}
      → Step p q
      → IsOver p
      → IsOver q × (q.taken ≡ p.taken) × (q.done ≡ p.done)
  unfolding resume put_task stop set_max_queue_size enqueue
  Step-IsOver (enqueues p p' t e) o = absurd (cc (enqueue-stopped p t o.0, e))
  Step-IsOver (resumes p before t rest b h) o = (o, refl, refl)
  Step-IsOver (takes_task p n t rest w h) (r, z, b) = absurd (omega (arith, w, z))
  Step-IsOver (goes p n w h) (r, z, b) = absurd (omega (arith, w, z))
  Step-IsOver (finishes p before t rest e) (r, z, b) = absurd (not_nil before t rest (sym b ∙ e))
  Step-IsOver (stops p) (r, z, b) =
      if_ind (λ (q : ThreadPool T). IsOver q × (q.taken ≡ p.taken) × (q.done ≡ p.done))
        (not p.running) ((r, z, b), refl, refl) ((refl, z, b), refl, refl)
  Step-IsOver (resizes p n) o = (o, refl, refl)

  -- When all the workers have returned, no later step takes or ends a task, not even one that a
  -- caller of `enqueue`, who waited for room, puts into the queue then.
  pub Reach-IsOver :
      (p : ThreadPool T) {q : ThreadPool T}
      → IsOver p
      → Reach p q
      → (q.taken ≡ p.taken) × (q.done ≡ p.done) × IsOver q
  Reach-IsOver p o here = (refl, refl, o)
  Reach-IsOver p o (later r s) =
      let a = Reach-IsOver p o r in let b = Step-IsOver s a.2 in (b.1 ∙ a.0, b.2 ∙ a.1, b.0)
