-- ===== src/EventLoop/Calls.antt =====
-- What calling functors, or any other code in the loop's thread, does to the queue.
use starry.Common.{
  ℕ, ◌≡◌, ◌≢◌, refl, sym, ap, ◌∙◌, ◌⊎◌, inl, inr, true, false, List, [], ◌∷◌, ◌++◌, append_assoc,
  append-nil, Bool-cases,
}
use starry.EventLoop.{
  Act, post, ask_quit, EventLoop, wakeup, push, queue_in_loop, wake_if_needed, quit, perform,
  take_pending, call_functor, end_calls, call_all, do_pending_functors,
}

pub append-ne_nil {ℓ} :
    {A : Type ℓ} (xs ys : List A) → xs ++ ys ≢ [] → (xs ≢ []) ⊎ ((xs ≡ []) × (ys ≢ []))
append-ne_nil [] ys h = inr (refl, h)
append-ne_nil (x ∷ xs) ys h = inl (λ e. cc)

module _ {F : Type 0} where
  -- The functors that some acts queue, in order.
  abbrev pub posts : List (Act F) → List F
  posts [] = []
  posts (post f ∷ acts) = f ∷ posts acts
  posts (ask_quit ∷ acts) = posts acts

  -- What is left after the functors `fs` have been queued by the loop's own thread.
  pub record Performed (fs : List F) (l l' : EventLoop F) : Type 0 where
    pub pending : l'.pending ≡ l.pending ++ fs
    pub submitted : l'.submitted ≡ l.submitted ++ fs
    pub called : l'.called ≡ l.called
    pub running : l'.running ≡ l.running
    pub calling : l'.calling_pending ≡ l.calling_pending
    pub told : l.calling_pending ≡ true → fs ≢ [] → l'.readable ≡ true
    pub kept : l.readable ≡ true → l'.readable ≡ true

  pub Performed-nil : (l : EventLoop F) → Performed [] l l
  Performed-nil l = record {
    pending = sym (append-nil l.pending);
    submitted = sym (append-nil l.submitted);
    called = refl;
    running = refl;
    calling = refl;
    told = λ c h. absurd (h refl);
    kept = λ h. h;
  }

  Performed-trans :
      (fs gs : List F) (l l' l'' : EventLoop F)
      → Performed fs l l'
      → Performed gs l' l''
      → Performed (fs ++ gs) l l''
  Performed-trans fs gs l l' l'' p q = record {
    pending = q.pending ∙ ap (λ t. t ++ gs) p.pending ∙ append_assoc l.pending fs gs;
    submitted = q.submitted ∙ ap (λ t. t ++ gs) p.submitted ∙ append_assoc l.submitted fs gs;
    called = q.called ∙ p.called;
    running = q.running ∙ p.running;
    calling = q.calling ∙ p.calling;
    told = λ c h. told fs p c h;
    kept = λ h. q.kept (p.kept h);
  }
    where
      told :
          (fs : List F)
          → Performed fs l l'
          → l.calling_pending ≡ true
          → fs ++ gs ≢ []
          → l''.readable ≡ true
      told [] p c h = q.told (p.calling ∙ c) h
      told (f ∷ fs) p c h = q.kept (p.told c (λ e. cc))

  queue_in_loop-Performed :
      (l : EventLoop F) (f : F) → Performed (f ∷ []) l (queue_in_loop true l f)
  unfolding queue_in_loop wake_if_needed push wakeup
  queue_in_loop-Performed l f = elim (Bool-cases l.calling_pending) [
    | inl c ↦
        rw (queue_in_loop, wake_if_needed, c)
          (record {
            pending = refl;
            submitted = refl;
            called = refl;
            running = refl;
            calling = refl;
            told = λ a b. refl;
            kept = λ h. refl;
          })
    | inr c ↦
        rw (queue_in_loop, wake_if_needed, c)
          (record {
            pending = refl;
            submitted = refl;
            called = refl;
            running = refl;
            calling = refl;
            told = λ a b. absurd (cc);
            kept = λ h. h;
          })
  ]

  quit-Performed : (l : EventLoop F) → Performed [] l (quit true l)
  unfolding quit
  quit-Performed l = record {
    pending = sym (append-nil l.pending);
    submitted = sym (append-nil l.submitted);
    called = refl;
    running = refl;
    calling = refl;
    told = λ c h. absurd (h refl);
    kept = λ h. h;
  }

  -- Code that runs in the loop's thread queues its functors in order behind those that wait, and
  -- tells the wakeup descriptor if the loop is just calling functors.
  pub perform-Performed :
      (acts : List (Act F)) (l : EventLoop F) → Performed (posts acts) l (perform acts l)
  unfolding perform
  perform-Performed [] l = Performed-nil l
  perform-Performed (post f ∷ acts) l =
      Performed-trans (f ∷ []) (posts acts) l (queue_in_loop true l f)
        (perform acts (queue_in_loop true l f)) (queue_in_loop-Performed l f)
        (perform-Performed acts (queue_in_loop true l f))
  perform-Performed (ask_quit ∷ acts) l =
      Performed-trans [] (posts acts) l (quit true l) (perform acts (quit true l))
        (quit-Performed l) (perform-Performed acts (quit true l))

  module _ (effects : F → List (Act F)) (handlers : ℕ → List (Act F)) where
    -- What the functors of a list queue, in order.
    abbrev pub all_posts : List F → List F
    all_posts [] = []
    all_posts (f ∷ fs) = posts (effects f) ++ all_posts fs

    -- What calling the functors `fs` leaves: they have been called, in order.
    pub record Called (fs gs : List F) (l l' : EventLoop F) : Type 0 where
      pub pending : l'.pending ≡ l.pending ++ gs
      pub submitted : l'.submitted ≡ l.submitted ++ gs
      pub called : l'.called ≡ l.called ++ fs
      pub told : l.calling_pending ≡ true → gs ≢ [] → l'.readable ≡ true
      pub kept : l.readable ≡ true → l'.readable ≡ true

    Called-cons :
        (f : F) (fs gs hs : List F) (l l1 l2 : EventLoop F)
        → Performed gs (record l { running = fs; called = l.called ++ (f ∷ []) }) l1
        → Called fs hs l1 l2
        → Called (f ∷ fs) (gs ++ hs) l l2
    Called-cons f fs gs hs l l1 l2 p q = record {
      pending = q.pending ∙ ap (λ t. t ++ hs) p.pending ∙ append_assoc l.pending gs hs;
      submitted = q.submitted ∙ ap (λ t. t ++ hs) p.submitted ∙ append_assoc l.submitted gs hs;
      called = q.called ∙ ap (λ t. t ++ fs) p.called ∙ append_assoc l.called (f ∷ []) fs;
      told = λ c h. elim (append-ne_nil gs hs h) [
        | inl g ↦ q.kept (p.told c g)
        | inr r ↦ q.told (p.calling ∙ c) r.1
      ];
      kept = λ h. q.kept (p.kept h);
    }

    call_all-Called :
        (fs : List F) (l : EventLoop F)
        → Called fs (all_posts fs) l (call_all effects handlers fs l)
    unfolding call_all call_functor
    call_all-Called [] l = record {
      pending = sym (append-nil l.pending);
      submitted = sym (append-nil l.submitted);
      called = sym (append-nil l.called);
      told = λ c h. absurd (h refl);
      kept = λ h. h;
    }
    call_all-Called (f ∷ fs) l =
        let l1 = call_functor effects handlers l f fs in
        Called-cons f fs (posts (effects f)) (all_posts fs) l l1 (call_all effects handlers fs l1)
          (perform-Performed (effects f) (record l { running = fs; called = l.called ++ (f ∷ []) }))
          (call_all-Called fs l1)

    -- `doPendingFunctors` calls exactly the functors that waited when it began, each once and in
    -- order; those that they queue wait for the next round, in order, and when there are any the
    -- wakeup descriptor is readable, so that the next poll returns at once.
    pub do_pending_functors_lem :
        (l : EventLoop F)
        → (l' : EventLoop F) × (do_pending_functors effects handlers l ≡ l')
          × (l'.called ≡ l.called ++ l.pending)
          × (l'.pending ≡ all_posts l.pending)
          × (l'.submitted ≡ l.submitted ++ all_posts l.pending)
          × (l'.pending ≢ [] → l'.readable ≡ true)
          × (l'.calling_pending ≡ false)
    unfolding do_pending_functors take_pending end_calls
    do_pending_functors_lem l =
        let c = call_all-Called l.pending (take_pending effects handlers l) in
        (
          do_pending_functors effects handlers l,
          refl,
          c.called,
          c.pending,
          c.submitted,
          λ h. c.told refl (λ e. h (c.pending ∙ e)),
          refl,
        )
