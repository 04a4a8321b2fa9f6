-- ===== src/Poller/World.antt =====
-- All the channels of a loop together, one to a descriptor, under any sequence of calls.
use starry.Common.{
  ℕ, ◌≡◌, ◌≢◌, refl, sym, subst, ◌∙◌, ◌⊎◌, inl, inr, true, false, List, [], ◌∷◌, none, some, ◌==◌,
  ==_refl, ==_iff, ==_false→ne, if◌then◌else◌, Outcome, ok, err, assertion, fatal, ◌>>=◌, >>=-eq-ok,
  Bool-cases,
}
use starry.Channel.{Channel, Index, new, added, deleted, Interest, apply_interest, is_none_event}
use starry.Poller.Kernel.{Kernel}
use starry.Poller.{Poller, change_interest, remove}
use starry.Poller.Sync.{
  Synced, Elsewhere, registered_after, index_after, op_for, update_channel_lem, remove_channel_lem,
  remove-refused, Holds-elsewhere,
}

pub record World (k : Kernel) : Type 0 where
  pub poller : Poller k
  pub channel_at : ℕ → Channel

-- A call of one of the five methods, or of `remove`, on the channel of a descriptor.
pub data Call : Type 0 where
  change : ℕ → Interest → Call
  drop : ℕ → Call

watched_after :
    (i : Index) (events : ℕ)
    → index_after i events ≡ added
    → registered_after i events ≡ some events
watched_after new events e = refl
watched_after deleted events e = refl
watched_after added events e = elim (Bool-cases (is_none_event events)) [
  | inl nothing ↦ absurd (cc (rw nothing at e))
  | inr something ↦ rw something refl
]

module _ {k : Kernel} where
  abbrev replace : World k → ℕ → Poller k × Channel → World k
  replace w fd (p, c) = record {
    poller = p;
    channel_at = λ f. if fd == f then c else w.channel_at f;
  }

  unfoldable pub call : World k → Call → Outcome (World k)
  call w (change fd i) = change_interest w.poller (w.channel_at fd) i >>= λ r. ok (replace w fd r)
  call w (drop fd) = remove w.poller (w.channel_at fd) >>= λ r. ok (replace w fd r)

  -- Every channel agrees with the poller's map, and the kernel watches exactly the events of the
  -- channels whose index is `added`.
  pub record Coherent (w : World k) : Type 0 where
    pub own : (fd : ℕ) → (w.channel_at fd).fd ≡ fd
    pub synced : (fd : ℕ) → Synced w.poller (w.channel_at fd)
    pub watched :
        (fd : ℕ)
        → (w.channel_at fd).index ≡ added
        → k.interest w.poller.epoll fd ≡ some (w.channel_at fd).events

  replace-Coherent :
      (w : World k) (fd : ℕ) (p : Poller k) (c : Channel)
      → Coherent w
      → c.fd ≡ fd
      → Synced p c
      → (c.index ≡ added → k.interest p.epoll fd ≡ some c.events)
      → Elsewhere fd w.poller p
      → Coherent (replace w fd (p, c))
  replace-Coherent w fd p c h own synced watched frame = record {
    own = λ f. elim (Bool-cases (fd == f)) [
      | inl hit ↦ rw hit (own ∙ (==_iff fd f).0 hit)
      | inr miss ↦ rw miss (h.own f)
    ];
    synced = λ f. elim (Bool-cases (fd == f)) [
      | inl hit ↦ rw hit synced
      | inr miss ↦ rw miss (
          let c0 = w.channel_at f in
          let away : c0.fd ≢ fd = λ q. ==_false→ne fd f miss (sym q ∙ h.own f) in
          Holds-elsewhere c0.index w.poller p c0.fd c0.address (frame c0.fd away).0
            (frame c0.fd away).1 (h.synced f))
    ];
    watched = λ f. elim (Bool-cases (fd == f)) [
      | inl hit ↦
          rw hit (λ a.
            subst (λ g. k.interest p.epoll g ≡ some c.events) ((==_iff fd f).0 hit) (watched a))
      | inr miss ↦ rw miss (λ a. (frame f (λ q. ==_false→ne fd f miss (sym q))).1 ∙ h.watched f a)
    ];
  }

  abbrev pub changed : World k → ℕ → Interest → Channel
  changed w fd i = record (w.channel_at fd) {
    events = apply_interest i (w.channel_at fd).events;
    added_to_loop = true;
  }

  -- The kernel refuses the call of epoll_ctl that a change of interest makes.
  abbrev pub Refused : World k → ℕ → Interest → Type 0
  Refused w fd i =
      let c = changed w fd i in k.ctl w.poller.epoll (op_for c.index c.events) c.fd c.events ≡ none

  -- Changing the interest of any channel of a coherent loop fails no assertion. Either the kernel
  -- refuses its call of epoll_ctl, which ends the process; or it succeeds, and all channels agree
  -- again with the map and with the kernel.
  pub change-Coherent :
      (w : World k) (fd : ℕ) (i : Interest)
      → Coherent w
      → (Refused w fd i × (call w (change fd i) ≡ err fatal))
        ⊎ ((w' : World k) × (call w (change fd i) ≡ ok w') × Coherent w')
  unfolding call change_interest
  change-Coherent w fd i h =
      let c : Channel = changed w fd i in
      let own : c.fd ≡ fd = h.own fd in
      elim (update_channel_lem w.poller c (h.synced fd)) [
        | inl (refused, e) ↦ inl (refused, rw e refl)
        | inr (p, e, reg, sync, frame) ↦
            let c' : Channel = record c { index = index_after c.index c.events } in
            inr (
              replace w fd (p, c'),
              rw e refl,
              replace-Coherent w fd p c' h own sync
                  (λ a.
                    subst (λ g. k.interest p.epoll g ≡ some c.events) own
                      (reg ∙ watched_after c.index c.events a))
                  (subst (λ g. Elsewhere g w.poller p) own frame),
            )
      ]

  -- Removing a channel that is registered and has no interest left fails only when the kernel
  -- refuses to forget it. Otherwise it is as new afterwards, and all channels agree again with the map
  -- and with the kernel.
  pub drop-Coherent :
      (w : World k) (fd : ℕ)
      → Coherent w
      → is_none_event (w.channel_at fd).events ≡ true
      → (w.channel_at fd).index ≢ new
      → (call w (drop fd) ≡ err fatal)
        ⊎ ((w' : World k) × (call w (drop fd) ≡ ok w')
            × Coherent w'
            × ((w'.channel_at fd).index ≡ new))
  unfolding call remove
  drop-Coherent w fd h quiet known =
      let c : Channel = record (w.channel_at fd) { added_to_loop = false } in
      let own : c.fd ≡ fd = h.own fd in
      elim (remove_channel_lem c.index w.poller c refl known quiet (h.synced fd)) [
        | inl (a, refused, e) ↦ inl (rw (quiet, e) refl)
        | inr (p, e, sync, frame) ↦
            let c' : Channel = record c { index = new } in
            inr (
              replace w fd (p, c'),
              rw (quiet, e) refl,
              replace-Coherent w fd p c' h own sync (λ a. cc)
                  (subst (λ g. Elsewhere g w.poller p) own frame),
              rw (==_refl fd) refl,
            )
      ]

  -- Removing a channel that has some interest left, or that is not registered, stops at an
  -- assertion, whatever the other channels are.
  pub drop-assertion :
      (w : World k) (fd : ℕ)
      → Coherent w
      → (is_none_event (w.channel_at fd).events ≡ false) ⊎ ((w.channel_at fd).index ≡ new)
      → call w (drop fd) ≡ err assertion
  unfolding call
  drop-assertion w fd h bad = rw (remove-refused w.poller (w.channel_at fd) (h.synced fd) bad) refl

  unfoldable pub run : World k → List Call → Outcome (World k)
  run w [] = ok w
  run w (c ∷ cs) = call w c >>= λ w'. run w' cs

  -- A call that returns keeps the agreement.
  call-Coherent : (w w' : World k) (c : Call) → Coherent w → call w c ≡ ok w' → Coherent w'
  call-Coherent w w' (change fd i) h e = elim (change-Coherent w fd i h) [
    | inl (refused, f) ↦ absurd (cc)
    | inr (w1, e1, h1) ↦ let same : w1 ≡ w' = cc in subst Coherent same h1
  ]
  call-Coherent w w' (drop fd) h e = elim (Bool-cases (is_none_event (w.channel_at fd).events)) [
    | inr busy ↦ absurd (stuck (drop-assertion w fd h (inl busy)))
    | inl quiet ↦ elim (new-cases (w.channel_at fd).index) [
      | inl fresh ↦ absurd (stuck (drop-assertion w fd h (inr fresh)))
      | inr known ↦ elim (drop-Coherent w fd h quiet known) [
        | inl f ↦ absurd (cc)
        | inr (w1, e1, h1, i1) ↦ let same : w1 ≡ w' = cc in subst Coherent same h1
      ]
    ]
  ]
    where
      stuck : call w (drop fd) ≡ err assertion → ⊥
      stuck a = cc

      new-cases : (i : Index) → (i ≡ new) ⊎ (i ≢ new)
      new-cases new = inl refl
      new-cases added = inr (λ q. cc)
      new-cases deleted = inr (λ q. cc)

  -- Any sequence of calls that gets to its end leaves the loop's channels, the poller's map and
  -- the kernel in agreement.
  pub run-Coherent : (cs : List Call) (w w' : World k) → Coherent w → run w cs ≡ ok w' → Coherent w'
  unfolding run
  run-Coherent [] w w' h e = let same : w ≡ w' = cc in subst Coherent same h
  run-Coherent (c ∷ cs) w w' h e =
      let (w1, e1, e2) = >>=-eq-ok (call w c) (λ w1. run w1 cs) e in
      run-Coherent cs w1 w' (call-Coherent w w1 c h e1) e2
