-- ===== src/EventLoop/Threads.antt =====
-- The loop's thread and any number of other threads that queue functors, in any interleaving.
-- A queueing thread does the two halves of `queueInLoop`; in between it is one of the `posting`
-- threads.
use starry.Common.{
  ℕ, suc, ◌<◌, ◌≡◌, ◌≢◌, refl, sym, ap, ap₂, ◌∙◌, ◌⊎◌, inl, inr, true, false, List, [], ◌∷◌, ◌++◌,
  append_assoc, append-nil, arith,
}
use starry.EventLoop.{
  Act, EventLoop, init, wakeup, wake_if_needed, handle_read, push, perform, take_pending,
  call_functor, end_calls,
}
use starry.EventLoop.Calls.{posts, append-ne_nil, Performed, perform-Performed}

-- Where the loop's thread stands: in `poll`, in the handlers, or in `doPendingFunctors`.
pub data Phase : Type 0 where
  polling handling calling : Phase

pub record System (F : Type 0) : Type 0 where
  pub loop : EventLoop F
  pub phase : Phase
  pub posting : ℕ

module _ {F : Type 0} (effects : F → List (Act F)) (handlers : ℕ → List (Act F)) where
  pub data Step : System F → System F → Type 0 where
    pushes :
        (s : System F) (f : F) → Step s (record s { loop = push s.loop f; posting = suc s.posting })
    wakes :
        (s : System F) (n : ℕ)
        → s.posting ≡ suc n
        → Step s (record s { loop = wake_if_needed false s.loop; posting = n })
    poll_returns : (s : System F) → s.phase ≡ polling → Step s (record s { phase = handling })
    reads_wakeup :
        (s : System F) → s.phase ≡ handling → Step s (record s { loop = handle_read s.loop })
    handles :
        (s : System F) (a : ℕ)
        → s.phase ≡ handling
        → Step s (record s { loop = perform (handlers a) s.loop })
    begins :
        (s : System F)
        → s.phase ≡ handling
        → Step s (record s { loop = take_pending effects handlers s.loop; phase = calling })
    calls :
        (s : System F) (f : F) (rest : List F)
        → s.phase ≡ calling
        → s.loop.running ≡ f ∷ rest
        → Step s (record s { loop = call_functor effects handlers s.loop f rest })
    ends :
        (s : System F)
        → s.phase ≡ calling
        → s.loop.running ≡ []
        → Step s (record s { loop = end_calls effects handlers s.loop; phase = polling })

  abbrev pub initial : System F
  initial = record { loop = init; phase = polling; posting = 0 }

  pub data Reach : System F → Type 0 where
    start : Reach initial
    later : {s t : System F} → Reach s → Step s t → Reach t

  pub record Inv (s : System F) : Type 0 where
    pub order : s.loop.submitted ≡ s.loop.called ++ (s.loop.running ++ s.loop.pending)
    pub idle : s.phase ≢ calling → s.loop.running ≡ []
    pub tells : s.phase ≡ calling → s.loop.calling_pending ≡ true
    pub awake :
        s.phase ≢ handling → s.loop.pending ≢ [] → (s.loop.readable ≡ true) ⊎ (0 < s.posting)

  Performed-order :
      (fs : List F) (l l' : EventLoop F)
      → Performed fs l l'
      → l.submitted ≡ l.called ++ (l.running ++ l.pending)
      → l'.submitted ≡ l'.called ++ (l'.running ++ l'.pending)
  Performed-order fs l l' p o =
      p.submitted
      ∙ ap (λ t. t ++ fs) o
      ∙ append_assoc l.called (l.running ++ l.pending) fs
      ∙ ap (λ t. l.called ++ t) (append_assoc l.running l.pending fs)
      ∙ ap₂ (λ x y. x ++ y) (sym p.called) (ap₂ (λ x y. x ++ y) (sym p.running) (sym p.pending))

  Step-Inv : {s t : System F} → Step s t → Inv s → Inv t
  unfolding push wakeup wake_if_needed handle_read take_pending call_functor end_calls
  Step-Inv (pushes s f) v = record {
    order =
        ap (λ t. t ++ (f ∷ [])) v.order
        ∙ append_assoc s.loop.called (s.loop.running ++ s.loop.pending) (f ∷ [])
        ∙ ap (λ t. s.loop.called ++ t) (append_assoc s.loop.running s.loop.pending (f ∷ []));
    idle = v.idle;
    tells = v.tells;
    awake = λ _ _. inr (omega arith);
  }
  Step-Inv (wakes s n e) v = record {
    order = v.order;
    idle = v.idle;
    tells = v.tells;
    awake = λ _ _. inl refl;
  }
  Step-Inv (poll_returns s e) v = record {
    order = v.order;
    idle = λ _. v.idle (λ q. cc);
    tells = λ q. absurd (cc);
    awake = λ h _. absurd (h refl);
  }
  Step-Inv (reads_wakeup s e) v = record {
    order = v.order;
    idle = v.idle;
    tells = v.tells;
    awake = λ h _. absurd (h e);
  }
  Step-Inv (handles s a e) v =
      let p = perform-Performed (handlers a) s.loop in
      record {
        order = Performed-order (posts (handlers a)) s.loop (perform (handlers a) s.loop) p v.order;
        idle = λ h. p.running ∙ v.idle h;
        tells = λ h. p.calling ∙ v.tells h;
        awake = λ h _. absurd (h e);
      }
  Step-Inv (begins s e) v = record {
    order =
        v.order
        ∙ ap (λ t. s.loop.called ++ t)
            (ap (λ t. t ++ s.loop.pending) (v.idle (λ q. cc)) ∙ sym (append-nil s.loop.pending));
    idle = λ h. absurd (h refl);
    tells = λ _. refl;
    awake = λ _ h. absurd (h refl);
  }
  Step-Inv (calls s f rest e r) v =
      let l1 : EventLoop F = record s.loop { running = rest; called = s.loop.called ++ (f ∷ []) } in
      let p = perform-Performed (effects f) l1 in
      record {
        order = Performed-order (posts (effects f)) l1 (perform (effects f) l1) p (
            v.order
            ∙ ap (λ t. s.loop.called ++ (t ++ s.loop.pending)) r
            ∙ sym (append_assoc s.loop.called (f ∷ []) (rest ++ s.loop.pending)));
        idle = λ h. absurd (h e);
        tells = λ _. p.calling ∙ v.tells e;
        awake = λ _ h.
            elim (append-ne_nil s.loop.pending (posts (effects f)) (λ q. h (p.pending ∙ q))) [
              | inl old ↦ elim (v.awake (λ q. cc) old) [ inl w ↦ inl (p.kept w) | inr w ↦ inr w ]
              | inr new ↦ inl (p.told (v.tells e) new.1)
            ];
      }
  Step-Inv (ends s e r) v = record {
    order = v.order;
    idle = λ _. r;
    tells = λ q. absurd (cc);
    awake = λ _ h. v.awake (λ q. cc) h;
  }

  initial-Inv : Inv initial
  unfolding init
  initial-Inv = record {
    order = refl;
    idle = λ _. refl;
    tells = λ q. absurd (cc);
    awake = λ _ h. absurd (h refl);
  }

  pub Reach-Inv : {s : System F} → Reach s → Inv s
  Reach-Inv start = initial-Inv
  Reach-Inv (later r st) = Step-Inv st (Reach-Inv r)

  -- In every interleaving, the functors that have been queued are those that were called, then
  -- those that `doPendingFunctors` still has to call, then those that wait, in the order of the
  -- pushes and each as often as it was pushed.
  pub Reach-order :
      {s : System F}
      → Reach s
      → s.loop.submitted ≡ s.loop.called ++ (s.loop.running ++ s.loop.pending)
  Reach-order r = (Reach-Inv r).order
