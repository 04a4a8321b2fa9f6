-- ===== src/Poller/Sync.antt =====
-- The poller's view of a channel against the kernel's.
use starry.Common.{
  ℕ, ◌≡◌, ◌≢◌, refl, ap, sym, subst, ◌∙◌, ◌⊎◌, inl, inr, true, false, List, Option, none, some,
  ==_refl, ne→==_false, if◌then◌else◌, lookup, put, erase, lookup-put, lookup-erase, ok, err,
  assertion, fatal, Bool-cases, Option-cases,
}
use starry.Channel.{Channel, Index, new, added, deleted, is_none_event}
use starry.Poller.Kernel.{Kernel, CtlOp, ctl_add, ctl_mod, ctl_del}
use starry.Poller.{
  Poller, has_channel, update, add_channel, update_by_index, update_channel, remove_channel, remove,
}

-- What is to be registered after `updateChannel`, and the index that says so.
abbrev pub registered_after : Index → ℕ → Option ℕ
registered_after new events = some events
registered_after deleted events = some events
registered_after added events = if is_none_event events then none else some events

abbrev pub index_after : Index → ℕ → Index
index_after new events = added
index_after deleted events = added
index_after added events = if is_none_event events then deleted else added

-- The call of epoll_ctl that `updateChannel` makes.
abbrev pub op_for : Index → ℕ → CtlOp
op_for new events = ctl_add
op_for deleted events = ctl_add
op_for added events = if is_none_event events then ctl_del else ctl_mod

module _ {k : Kernel} where
  -- What the index of a channel at `address` says about the map and about the kernel.
  abbrev pub Holds : Index → Poller k → ℕ → ℕ → Type 0
  Holds new p fd address = (lookup fd p.channels ≡ none) × (k.interest p.epoll fd ≡ none)
  Holds added p fd address =
      (lookup fd p.channels ≡ some address) × ((e : ℕ) × (k.interest p.epoll fd ≡ some e))
  Holds deleted p fd address =
      (lookup fd p.channels ≡ some address) × (k.interest p.epoll fd ≡ none)

  abbrev pub Synced : Poller k → Channel → Type 0
  Synced p c = Holds c.index p c.fd c.address

  -- Nothing has changed for another descriptor.
  abbrev pub Elsewhere : ℕ → Poller k → Poller k → Type 0
  Elsewhere fd p p' =
      (other : ℕ)
      → other ≢ fd
      → (lookup other p'.channels ≡ lookup other p.channels)
        × (k.interest p'.epoll other ≡ k.interest p.epoll other)

  abbrev pub UpdatedTo : Index → Poller k → Channel → Type 0
  UpdatedTo i p c =
      (p' : Poller k) × (update_by_index i p c
        ≡ ok (p', record c { index = index_after i c.events }))
      × (k.interest p'.epoll c.fd ≡ registered_after i c.events)
      × Holds (index_after i c.events) p' c.fd c.address
      × Elsewhere c.fd p p'

  -- The kernel refuses the call, and the process ends; or the call is done.
  abbrev pub Updated : Index → Poller k → Channel → Type 0
  Updated i p c =
      ((k.ctl p.epoll (op_for i c.events) c.fd c.events ≡ none)
        × (update_by_index i p c ≡ err fatal))
      ⊎ UpdatedTo i p c

  update-ok :
      (p : Poller k) (op : CtlOp) (c : Channel) (s : k.State)
      → k.ctl p.epoll op c.fd c.events ≡ some s
      → update p op c ≡ ok (record p { epoll = s })
  unfolding update
  update-ok p op c s e = rw (e, update) refl

  update-none :
      (p : Poller k) (op : CtlOp) (c : Channel)
      → k.ctl p.epoll op c.fd c.events ≡ none
      → update p op c ≡ err fatal
  unfolding update
  update-none p op c e = rw (e, update) refl

  update_new : (p : Poller k) (c : Channel) → Holds new p c.fd c.address → Updated new p c
  unfolding update_by_index add_channel
  update_new p c (free, absent) =
      let m : List (ℕ × ℕ) = put c.fd c.address p.channels in
      let c' : Channel = record c { index = added } in
      elim (Option-cases (k.ctl p.epoll ctl_add c.fd c.events)) [
        | inl e ↦ inl (e, rw (free, update-none (record p { channels = m }) ctl_add c' e) refl)
        | inr (s, e) ↦
            let (reg, frame) = k.add_registers p.epoll s c.fd c.events e in
            inr (
              record p { epoll = s; channels = m },
              rw (free, update-ok (record p { channels = m }) ctl_add c' s e) refl,
              reg,
              (lookup-put c.fd c.fd c.address p.channels ∙ rw (==_refl c.fd) refl, (c.events, reg)),
              λ other ne. (
                lookup-put c.fd other c.address p.channels
                    ∙ rw (ne→==_false c.fd other (λ q. ne (sym q))) refl,
                frame other ne,
              ),
            )
      ]

  update_deleted :
      (p : Poller k) (c : Channel) → Holds deleted p c.fd c.address → Updated deleted p c
  unfolding update_by_index add_channel has_channel
  update_deleted p c (mapped, absent) =
      let c' : Channel = record c { index = added } in
      elim (Option-cases (k.ctl p.epoll ctl_add c.fd c.events)) [
        | inl e ↦ inl (e, rw (mapped, ==_refl c.address, update-none p ctl_add c' e) refl)
        | inr (s, e) ↦
            let (reg, frame) = k.add_registers p.epoll s c.fd c.events e in
            inr (
              record p { epoll = s },
              rw (mapped, ==_refl c.address, update-ok p ctl_add c' s e) refl,
              reg,
              (mapped, (c.events, reg)),
              λ other ne. (refl, frame other ne),
            )
      ]

  update_added :
      (p : Poller k) (c : Channel)
      → c.index ≡ added
      → Holds added p c.fd c.address
      → Updated added p c
  unfolding update_by_index add_channel has_channel
  update_added p c same (mapped, (old, present)) = elim (Bool-cases (is_none_event c.events)) [
    | inl nothing ↦ rw nothing (elim (Option-cases (k.ctl p.epoll ctl_del c.fd c.events)) [
      | inl e ↦ inl (e, rw (mapped, ==_refl c.address, update-none p ctl_del c e) refl)
      | inr (s, e) ↦
          let (reg, frame) = k.del_removes p.epoll s c.fd c.events e in
          inr (
            record p { epoll = s },
            rw (mapped, ==_refl c.address, update-ok p ctl_del c s e) refl,
            reg,
            (mapped, reg),
            λ other ne. (refl, frame other ne),
          )
    ])
    | inr something ↦ rw something (elim (Option-cases (k.ctl p.epoll ctl_mod c.fd c.events)) [
      | inl e ↦ inl (e, rw (mapped, ==_refl c.address, update-none p ctl_mod c e) refl)
      | inr (s, e) ↦
          let (reg, frame) = k.mod_changes p.epoll s c.fd c.events e in
          inr (
            record p { epoll = s },
            rw (mapped, ==_refl c.address, update-ok p ctl_mod c s e)
                (ap (λ i. ok (record p { epoll = s }, record c { index = i })) same),
            reg,
            (mapped, (c.events, reg)),
            λ other ne. (refl, frame other ne),
          )
    ])
  ]

  update_by_index_lem :
      (i : Index) (p : Poller k) (c : Channel)
      → c.index ≡ i
      → Holds i p c.fd c.address
      → Updated i p c
  update_by_index_lem new p c same h = update_new p c h
  update_by_index_lem deleted p c same h = update_deleted p c h
  update_by_index_lem added p c same h = update_added p c same h

  -- `updateChannel` on a channel that agrees with the poller and the kernel ends the process exactly
  -- when the kernel refuses its call. Else it registers the channel's events, except that a registered
  -- channel with none is taken out; the new index says which, and no other descriptor is touched.
  pub update_channel_lem :
      (p : Poller k) (c : Channel)
      → Synced p c
      → ((k.ctl p.epoll (op_for c.index c.events) c.fd c.events ≡ none)
          × (update_channel p c ≡ err fatal))
        ⊎ ((p' : Poller k) × (update_channel p c
              ≡ ok (p', record c { index = index_after c.index c.events }))
            × (k.interest p'.epoll c.fd ≡ registered_after c.index c.events)
            × Synced p' (record c { index = index_after c.index c.events })
            × Elsewhere c.fd p p')
  unfolding update_channel
  update_channel_lem p c h = update_by_index_lem c.index p c refl h

  -- The same of `removeChannel`, which calls the kernel for a registered channel only.
  abbrev pub Removed : Index → Poller k → Channel → Type 0
  Removed i p c =
      ((i ≡ added)
        × (k.ctl p.epoll ctl_del c.fd c.events ≡ none)
        × (remove_channel p c ≡ err fatal))
      ⊎ ((p' : Poller k) × (remove_channel p c ≡ ok (p', record c { index = new }))
          × Holds new p' c.fd c.address
          × Elsewhere c.fd p p')

  remove_deleted :
      (p : Poller k) (c : Channel)
      → c.index ≡ deleted
      → is_none_event c.events ≡ true
      → Holds deleted p c.fd c.address
      → Removed deleted p c
  unfolding remove_channel has_channel
  remove_deleted p c same quiet (mapped, absent) = inr (
    record p { channels = erase c.fd p.channels },
    rw (mapped, ==_refl c.address, quiet, same) refl,
    (lookup-erase c.fd c.fd p.channels ∙ rw (==_refl c.fd) refl, absent),
    λ other ne. (
      lookup-erase c.fd other p.channels ∙ rw (ne→==_false c.fd other (λ q. ne (sym q))) refl,
      refl,
    ),
  )

  remove_added :
      (p : Poller k) (c : Channel)
      → c.index ≡ added
      → is_none_event c.events ≡ true
      → Holds added p c.fd c.address
      → Removed added p c
  unfolding remove_channel has_channel
  remove_added p c same quiet (mapped, (old, present)) =
      let m : List (ℕ × ℕ) = erase c.fd p.channels in
      let c' : Channel = record c { index = added } in
      elim (Option-cases (k.ctl p.epoll ctl_del c.fd c.events)) [
        | inl e ↦ inl (
          refl,
          e,
          rw
              (
                mapped,
                ==_refl c.address,
                quiet,
                same,
                update-none (record p { channels = m }) ctl_del c' e,
              )
              refl,
        )
        | inr (s, e) ↦
            let (reg, frame) = k.del_removes p.epoll s c.fd c.events e in
            inr (
              record p { epoll = s; channels = m },
              rw
                  (
                    mapped,
                    ==_refl c.address,
                    quiet,
                    same,
                    update-ok (record p { channels = m }) ctl_del c' s e,
                  )
                  refl,
              (lookup-erase c.fd c.fd p.channels ∙ rw (==_refl c.fd) refl, reg),
              λ other ne. (
                lookup-erase c.fd other p.channels
                    ∙ rw (ne→==_false c.fd other (λ q. ne (sym q))) refl,
                frame other ne,
              ),
            )
      ]

  -- `removeChannel` on a registered channel without events: the map and the kernel forget it, or the
  -- kernel refuses.
  pub remove_channel_lem :
      (i : Index) (p : Poller k) (c : Channel)
      → c.index ≡ i
      → i ≢ new
      → is_none_event c.events ≡ true
      → Holds i p c.fd c.address
      → Removed i p c
  remove_channel_lem new p c same known quiet h = absurd (known refl)
  remove_channel_lem added p c same known quiet h = remove_added p c same quiet h
  remove_channel_lem deleted p c same known quiet h = remove_deleted p c same quiet h

  pub remove-refused :
      (p : Poller k) (c : Channel)
      → Synced p c
      → (is_none_event c.events ≡ false) ⊎ (c.index ≡ new)
      → remove p c ≡ err assertion
  unfolding remove remove_channel
  remove-refused p c h (inl busy) = rw busy refl
  remove-refused p c h (inr fresh) =
      let (free, absent) = subst (λ i. Holds i p c.fd c.address) fresh h in
      elim (Bool-cases (is_none_event c.events)) [
        | inl quiet ↦ rw (quiet, free) refl
        | inr busy ↦ rw busy refl
      ]

  pub Holds-elsewhere :
      (i : Index) (p p' : Poller k) (fd address : ℕ)
      → lookup fd p'.channels ≡ lookup fd p.channels
      → k.interest p'.epoll fd ≡ k.interest p.epoll fd
      → Holds i p fd address
      → Holds i p' fd address
  Holds-elsewhere new p p' fd address m s (x, y) = (m ∙ x, s ∙ y)
  Holds-elsewhere added p p' fd address m s (x, (e, y)) = (m ∙ x, (e, s ∙ y))
  Holds-elsewhere deleted p p' fd address m s (x, y) = (m ∙ x, s ∙ y)
