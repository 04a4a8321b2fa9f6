-- ===== src/EventLoop/Rounds.antt =====
-- A round of the loop, and the loop as a whole: functors are called once each and in order.
use starry.Common.{
  ℕ, ◌≡◌, ◌≢◌, refl, sym, ap, ap₂, ◌∙◌, subst, true, false, none, some, List, [], ◌∷◌, ◌++◌,
  append_assoc, append-nil, if_ind, if◌then◌else◌,
}
use starry.EventLoop.{
  Act, Source, wakeup_channel, channel, EventLoop, handle_read, handle_event, handle_all, round,
  rounds,
}
use starry.EventLoop.Calls.{posts, all_posts, perform-Performed, do_pending_functors_lem}

module _ {F : Type 0} (effects : F → List (Act F)) (handlers : ℕ → List (Act F)) where
  -- What the handlers of the active channels queue, in order.
  abbrev pub source_posts : Source → List F
  source_posts wakeup_channel = []
  source_posts (channel a) = posts (handlers a)

  abbrev pub event_posts : List Source → List F
  event_posts [] = []
  event_posts (s ∷ sources) = source_posts s ++ event_posts sources

  record Handled (fs : List F) (l l' : EventLoop F) : Type 0 where
    pending : l'.pending ≡ l.pending ++ fs
    submitted : l'.submitted ≡ l.submitted ++ fs
    called : l'.called ≡ l.called

  handle_event-Handled :
      (s : Source) (l : EventLoop F)
      → Handled (source_posts s) l (handle_event effects handlers l s)
  unfolding handle_event handle_read
  handle_event-Handled wakeup_channel l = record {
    pending = sym (append-nil l.pending);
    submitted = sym (append-nil l.submitted);
    called = refl;
  }
  handle_event-Handled (channel a) l =
      let p = perform-Performed (handlers a) (record l { current = some (channel a) }) in
      record { pending = p.pending; submitted = p.submitted; called = p.called }

  handle_all-Handled :
      (sources : List Source) (l : EventLoop F)
      → Handled (event_posts sources) l (handle_all effects handlers sources l)
  unfolding handle_all
  handle_all-Handled [] l = record {
    pending = sym (append-nil l.pending);
    submitted = sym (append-nil l.submitted);
    called = refl;
  }
  handle_all-Handled (s ∷ sources) l =
      let p = handle_event-Handled s l in
      let q = handle_all-Handled sources (handle_event effects handlers l s) in
      let fs = source_posts s in
      let gs = event_posts sources in
      record {
        pending = q.pending ∙ ap (λ t. t ++ gs) p.pending ∙ append_assoc l.pending fs gs;
        submitted = q.submitted ∙ ap (λ t. t ++ gs) p.submitted ∙ append_assoc l.submitted fs gs;
        called = q.called ∙ p.called;
      }

  -- What has been submitted is what has been called, and then what waits, in order.
  abbrev pub InOrder : EventLoop F → Type 0
  InOrder l = l.submitted ≡ l.called ++ l.pending

  -- While functors wait, the next poll returns at once.
  abbrev pub Awake : EventLoop F → Type 0
  Awake l = l.pending ≢ [] → l.readable ≡ true

  -- One round calls exactly the functors that waited and those that the handlers of its active
  -- channels queue, each once and in the order of submission, and leaves waiting only those that
  -- these functors queue. Whatever waits then is told to the wakeup descriptor.
  pub round_lem :
      (sources : List Source) (l : EventLoop F)
      → InOrder l
      → (l' : EventLoop F) × (round effects handlers sources l ≡ l')
        × (l'.called ≡ l.called ++ (l.pending ++ event_posts sources))
        × (l'.pending ≡ all_posts effects handlers (l.pending ++ event_posts sources))
        × InOrder l'
        × Awake l'
  unfolding round
  round_lem sources l order =
      let ready : EventLoop F = record l { active = sources; event_handling = true } in
      let h = handle_all-Handled sources ready in
      let handled : EventLoop F = record (handle_all effects handlers sources ready) {
        current = none;
        event_handling = false;
      } in
      let now = l.pending ++ event_posts sources in
      let (l', e, c, p, s, awake, idle) = do_pending_functors_lem effects handlers handled in
      let called : l'.called ≡ l.called ++ now = c ∙ ap₂ ◌++◌ h.called h.pending in
      let pending : l'.pending ≡ all_posts effects handlers now =
        p ∙ ap (all_posts effects handlers) h.pending in
      (
        l',
        e,
        called,
        pending,
        s
            ∙ ap₂ ◌++◌
                (h.submitted
                  ∙ ap (λ t. t ++ event_posts sources) order
                  ∙ append_assoc l.called l.pending (event_posts sources)
                  ∙ sym called)
                (sym p),
        awake,
      )

  -- Rounds keep the order of the calls, and wake the next poll for what waits.
  rounds-InOrder :
      (polls : List (List Source)) (l : EventLoop F)
      → InOrder l
      → Awake l
      → InOrder (rounds effects handlers polls l).0 × Awake (rounds effects handlers polls l).0
  unfolding rounds
  rounds-InOrder [] l o a = if_ind (λ r. InOrder r × Awake r) l.quit_asked (o, a) (o, a)
  rounds-InOrder (sources ∷ polls) l o a =
      let (l', e, c, p, o', a') = round_lem sources l o in
      if_ind (λ (r : EventLoop F × List (List Source)). InOrder r.0 × Awake r.0) l.quit_asked (o, a)
        (rounds-InOrder polls (round effects handlers sources l) (subst InOrder (sym e) o')
          (subst Awake (sym e) a'))

  -- Rounds only add to what was called.
  rounds-more :
      (polls : List (List Source)) (l : EventLoop F)
      → InOrder l
      → Awake l
      → (more : List F) × ((rounds effects handlers polls l).0.called ≡ l.called ++ more)
  unfolding rounds
  rounds-more [] l o a =
      if_ind (λ (r : EventLoop F). (more : List F) × (r.called ≡ l.called ++ more)) l.quit_asked
        ([], sym (append-nil l.called)) ([], sym (append-nil l.called))
  rounds-more (sources ∷ polls) l o a =
      let (l', e, c, p, o', a') = round_lem sources l o in
      let (more, h) =
        rounds-more polls (round effects handlers sources l) (subst InOrder (sym e) o')
          (subst Awake (sym e) a') in
      let now = l.pending ++ event_posts sources in
      if_ind
        (λ (r : EventLoop F × List (List Source)).
          (more : List F) × (r.0.called ≡ l.called ++ more))
        l.quit_asked ([], sym (append-nil l.called))
        (
          now ++ more,
          h ∙ ap (λ x. x.called ++ more) e ∙ ap (λ t. t ++ more) c ∙ append_assoc l.called now more,
        )

  -- From a state in which the functors submitted so far are those called and then those that wait, and
  -- in which the wakeup descriptor is readable if any wait: a loop that was not asked to quit first
  -- calls those that waited and those that the handlers of the next round queue, in order, and then
  -- perhaps more; and after any number of rounds, whatever the polls return, what was submitted is again
  -- what was called and then what waits, and the wakeup descriptor is readable if any wait.
  pub rounds-called :
      (sources : List Source) (polls : List (List Source)) (l : EventLoop F)
      → l.quit_asked ≡ false
      → InOrder l
      → Awake l
      → (l' : EventLoop F) × (more : List F) × ((rounds effects handlers (sources ∷ polls) l).0
          ≡ l')
        × (l'.called ≡ l.called ++ ((l.pending ++ event_posts sources) ++ more))
        × InOrder l'
        × Awake l'
  unfolding rounds
  rounds-called sources polls l go o a =
      let (l1, e, c, p, o', a') = round_lem sources l o in
      let next : EventLoop F = round effects handlers sources l in
      let next-InOrder : InOrder next = subst InOrder (sym e) o' in
      let next-Awake : Awake next = subst Awake (sym e) a' in
      let (more, h) = rounds-more polls next next-InOrder next-Awake in
      let kept = rounds-InOrder polls next next-InOrder next-Awake in
      let now = l.pending ++ event_posts sources in
      (
        (rounds effects handlers polls next).0,
        more,
        ap
            (λ b.
              (if b
                then (record l { looping = false }, sources ∷ polls)
                else rounds effects handlers polls next).0)
            go,
        h ∙ ap (λ x. x.called ++ more) e ∙ ap (λ t. t ++ more) c ∙ append_assoc l.called now more,
        kept.0,
        kept.1,
      )
