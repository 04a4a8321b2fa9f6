-- ===== src/ThreadPool/Runs.antt =====
-- The workers and the callers of a pool, in any interleaving.
use starry.Common.{
  ℕ, suc, ◌+◌, ◌≤◌, ◌<◌, ◌≡◌, refl, sym, ap, subst, ◌∙◌, ◌⊎◌, inl, inr, Bool, true, false, not,
  ◌||◌, List, [], ◌∷◌, ◌++◌, append_assoc, Option, none, some, length, length-append, max, ltb→lt,
  ◌==◌, if◌then◌else◌, if_ind, if_split, Bool-cases, arith,
}
use starry.ThreadPool.{
  ThreadPool, leaves, takes, limit, larger, start, turn_of, turn, take_task, leave, finish, stop,
  put_task, has_room, queue_task, enqueue, resume, set_max_queue_size,
}

-- The queue is not longer than the limit was at its largest.
abbrev pub IsWithin : ℕ → Option ℕ → Type 0
IsWithin n none = Unit {0}
IsWithin n (some m) = n ≤ m

IsWithin-le : (n m : ℕ) (o : Option ℕ) → n ≤ m → IsWithin m o → IsWithin n o
IsWithin-le n m none l h = tt
IsWithin-le n m (some k) l h = omega (arith, l, h)

larger-IsWithin : (n m : ℕ) (o : Option ℕ) → IsWithin n o → IsWithin n (larger o (limit m))
larger-IsWithin n m none h = tt
larger-IsWithin n m (some k) h =
    if_ind (λ (x : Option ℕ). IsWithin n (larger (some k) x)) (m == 0) tt (omega (arith, h))

positive : (n : ℕ) → (n == 0) ≡ false → 0 < n
positive n e = ground arith

limit-peaked : (n : ℕ) → (limit n ≡ none) ⊎ ((m : ℕ) × (limit n ≡ some m) × (0 < n) × (n ≤ m))
limit-peaked n = elim (Bool-cases (n == 0)) [
  | inl e ↦ inl (rw e refl)
  | inr e ↦ inr (n, rw e refl, positive n e, omega arith)
]

-- What the new limit does to the largest one.
larger-peaked :
    (n : ℕ) (o : Option ℕ)
    → (larger o (limit n) ≡ none) ⊎ ((m : ℕ) × (larger o (limit n) ≡ some m) × (0 < n) × (n ≤ m))
larger-peaked n none = inl refl
larger-peaked n (some k) = elim (Bool-cases (n == 0)) [
  | inl e ↦ inl (rw e refl)
  | inr e ↦ inr (max k n, rw e refl, positive n e, omega arith)
]

module _ {T : Type 0} where
  pub data Step : ThreadPool T → ThreadPool T → Type 0 where
    enqueues : (p p' : ThreadPool T) (t : T) → enqueue p t ≡ some p' → Step p p'
    resumes :
        (p : ThreadPool T) (before : List T) (t : T) (rest : List T)
        → p.blocked ≡ before ++ (t ∷ rest)
        → has_room p ≡ true
        → Step p (resume p (before ++ rest) t)
    takes_task :
        (p : ThreadPool T) (n : ℕ) (t : T) (rest : List T)
        → p.waiting ≡ suc n
        → turn p ≡ takes t rest
        → Step p (take_task p n t rest)
    goes : (p : ThreadPool T) (n : ℕ) → p.waiting ≡ suc n → turn p ≡ leaves → Step p (leave p n)
    finishes :
        (p : ThreadPool T) (before : List T) (t : T) (rest : List T)
        → p.busy ≡ before ++ (t ∷ rest)
        → Step p (finish p (before ++ rest) t)
    stops : (p : ThreadPool T) → Step p (stop p)
    resizes : (p : ThreadPool T) (n : ℕ) → Step p (set_max_queue_size p n)

  pub data Reach (p : ThreadPool T) : ThreadPool T → Type 0 where
    here : Reach p p
    later : {q r : ThreadPool T} → Reach p q → Step q r → Reach p r

  pub record Inv (p : ThreadPool T) : Type 0 where
    pub order : p.accepted ≡ p.taken ++ p.tasks
    pub flags : p.stopping ≡ true → p.running ≡ false
    pub left : 0 < p.gone → p.stopping ≡ true
    pub drained : 0 < p.gone → p.late ≡ 0 → p.tasks ≡ []
    pub within : IsWithin (length p.tasks) p.peak
    pub peaked :
        (p.peak ≡ none)
        ⊎ ((m : ℕ) × (p.peak ≡ some m) × (0 < p.max_queue_size) × (p.max_queue_size ≤ m))

  within_lem :
      (p : ThreadPool T) (t : T)
      → Inv p
      → (p.peak ≡ none) ⊎ (length p.tasks < p.max_queue_size)
      → IsWithin (length (p.tasks ++ (t ∷ []))) p.peak
  within_lem p t i (inl e) = subst (λ x. IsWithin (length (p.tasks ++ (t ∷ []))) x) (sym e) tt
  within_lem p t i (inr h) = elim i.peaked [
    | inl e ↦ subst (λ x. IsWithin (length (p.tasks ++ (t ∷ []))) x) (sym e) tt
    | inr (m, e, a, b) ↦
        subst (λ x. IsWithin (length (p.tasks ++ (t ∷ []))) x) (sym e)
          (omega (arith, length-append p.tasks (t ∷ []), h, b))
  ]

  put_task-Inv :
      (p : ThreadPool T) (t : T)
      → Inv p
      → (p.peak ≡ none) ⊎ (length p.tasks < p.max_queue_size)
      → Inv (put_task p t)
  unfolding put_task
  put_task-Inv p t i room = record {
    order = ap (λ x. x ++ (t ∷ [])) i.order ∙ append_assoc p.taken p.tasks (t ∷ []);
    flags = i.flags;
    left = i.left;
    drained =
        λ g z. absurd (omega (arith, z, ap (λ b. if b then p.late + 1 else p.late) (i.left g)));
    within = within_lem p t i room;
    peaked = i.peaked;
  }

  turn_of-takes :
      (ts : List T) (b : Bool) (t : T) (rest : List T) → turn_of ts b ≡ takes t rest → ts ≡ t ∷ rest
  unfolding turn_of
  turn_of-takes [] true t rest h = absurd (cc)
  turn_of-takes [] false t rest h = absurd (cc)
  turn_of-takes (x ∷ xs) b t rest h = cc

  turn_of-leaves : (ts : List T) (b : Bool) → turn_of ts b ≡ leaves → (ts ≡ []) × (b ≡ true)
  unfolding turn_of
  turn_of-leaves [] true h = (refl, refl)
  turn_of-leaves [] false h = absurd (cc)
  turn_of-leaves (x ∷ xs) b h = absurd (cc)

  some_eq : (p q : ThreadPool T) → some p ≡ some q → p ≡ q
  some_eq p q h = ap (λ o. elim o [ none ↦ p | some x ↦ x ]) h

  room :
      (p : ThreadPool T)
      → Inv p
      → (p.max_queue_size == 0 || has_room p) ≡ true
      → (p.peak ≡ none) ⊎ (length p.tasks < p.max_queue_size)
  unfolding has_room
  room p i h = elim i.peaked [ inl e ↦ inl e | inr (m, e, a, b) ↦ inr (ground (arith, a, h)) ]

  queue_task-Inv : (p : ThreadPool T) (t : T) → Inv p → Inv (queue_task p t)
  unfolding queue_task
  queue_task-Inv p t i =
      if_split Inv (p.max_queue_size == 0 || has_room p) (λ h. put_task-Inv p t i (room p i h))
        (λ h. record {
          order = i.order;
          flags = i.flags;
          left = i.left;
          drained = i.drained;
          within = i.within;
          peaked = i.peaked;
        })

  -- `enqueue` throws when the pool does not run.
  pub enqueue-stopped : (p : ThreadPool T) (t : T) → p.running ≡ false → enqueue p t ≡ none
  unfolding enqueue
  enqueue-stopped p t h = ap (λ b. if not b then none else some (queue_task p t)) h

  enqueue-Inv : (p p' : ThreadPool T) (t : T) → enqueue p t ≡ some p' → Inv p → Inv p'
  unfolding enqueue
  enqueue-Inv p p' t e i = elim (Bool-cases p.running) [
    | inr r ↦ absurd (cc (enqueue-stopped p t r, e))
    | inl r ↦
        subst Inv
          (some_eq (queue_task p t) p'
            (sym (ap (λ b. if not b then none else some (queue_task p t)) r) ∙ e))
          (queue_task-Inv p t i)
  ]

  Step-Inv : {p q : ThreadPool T} → Step p q → Inv p → Inv q
  unfolding resume take_task leave finish stop set_max_queue_size turn has_room
  Step-Inv (enqueues p p' t e) i = enqueue-Inv p p' t e i
  Step-Inv (resumes p before t rest b h) i =
      put_task-Inv (record p { blocked = before ++ rest }) t
        (record {
          order = i.order;
          flags = i.flags;
          left = i.left;
          drained = i.drained;
          within = i.within;
          peaked = i.peaked;
        })
        (inr (ltb→lt (length p.tasks) p.max_queue_size h))
  Step-Inv (takes_task p n t rest w h) i =
      let e = turn_of-takes p.tasks p.stopping t rest h in
      record {
        order = i.order ∙ ap (λ x. p.taken ++ x) e ∙ sym (append_assoc p.taken (t ∷ []) rest);
        flags = i.flags;
        left = i.left;
        drained = λ g z. absurd (cc (i.drained g z, e));
        within =
            IsWithin-le (length rest) (length p.tasks) p.peak (omega (arith, ap length e)) i.within;
        peaked = i.peaked;
      }
  Step-Inv (goes p n w h) i =
      let e = turn_of-leaves p.tasks p.stopping h in
      record {
        order = i.order;
        flags = i.flags;
        left = λ g. e.1;
        drained = λ g z. e.0;
        within = i.within;
        peaked = i.peaked;
      }
  Step-Inv (finishes p before t rest b) i = record {
    order = i.order;
    flags = i.flags;
    left = i.left;
    drained = i.drained;
    within = i.within;
    peaked = i.peaked;
  }
  Step-Inv (stops p) i = if_ind Inv (not p.running) i (record {
    order = i.order;
    flags = λ h. refl;
    left = λ h. refl;
    drained = i.drained;
    within = i.within;
    peaked = i.peaked;
  })
  Step-Inv (resizes p n) i = record {
    order = i.order;
    flags = i.flags;
    left = i.left;
    drained = i.drained;
    within = larger-IsWithin (length p.tasks) n p.peak i.within;
    peaked = larger-peaked n p.peak;
  }

  start-Inv : (threads n : ℕ) → Inv (start threads n)
  unfolding start
  start-Inv threads n = record {
    order = refl;
    flags = λ h. absurd (cc);
    left = λ h. absurd (omega (arith, h));
    drained = λ h z. refl;
    within = if_ind (IsWithin 0) (n == 0) tt (omega arith);
    peaked = limit-peaked n;
  }

  pub Reach-Inv : (threads n : ℕ) {p : ThreadPool T} → Reach (start threads n) p → Inv p
  Reach-Inv threads n here = start-Inv threads n
  Reach-Inv threads n (later r s) = Step-Inv s (Reach-Inv threads n r)
