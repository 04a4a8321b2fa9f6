-- ===== src/Poller.antt =====
-- starry/net/src/epoll_poller.cpp, with the calls of starry/net/src/channel.cpp that reach it.
-- All calls are made in the loop's own thread, as `assertInLoopThread` demands.
pub mod Kernel
pub mod Sync
pub mod World
mod Tests
use Kernel.{Kernel as Epoll, CtlOp, ctl_add, ctl_mod, ctl_del}
use starry.Common.{
  ℕ, ◌*◌, ◌+◌, Bool, true, false, not, ◌&&◌, ◌||◌, List, [], ◌∷◌, ◌++◌, Option, none, some, length,
  ltb, leb, ◌==◌, if◌then◌else◌, lookup, put, erase, Outcome, ok, err, fatal, ◌>>=◌, ◌>>◌, assert,
}
use starry.Channel.{
  Channel, Index, new, added, deleted, Interest, apply_interest, is_none_event, set_revent,
}

abbrev pub init_event_list_size : ℕ
init_event_list_size = 16

-- `channels` maps a descriptor to the address of its channel.
pub record Poller (k : Epoll) : Type 0 where
  pub epoll : k.State
  pub channels : List (ℕ × ℕ)
  pub event_list_size : ℕ

abbrev is_entry : Option ℕ → ℕ → Bool
is_entry none address = false
is_entry (some a) address = a == address

abbrev is_empty : Option ℕ → Bool
is_empty none = true
is_empty (some a) = false

abbrev is_registered : Index → Bool
is_registered new = false
is_registered added = true
is_registered deleted = true

-- What epoll_wait returns: an error other than EINTR, EINTR, or the ready channels, by their
-- address, with their events.
pub data Waited : Type 0 where
  failed : Waited
  interrupted : Waited
  ready : List (ℕ × ℕ) → Waited

-- `fillActiveChannels` on the channels by address: each gets its events and is handed on.
unfoldable pub fill_active_channels : (ℕ → Channel) → List (ℕ × ℕ) → (ℕ → Channel) × List ℕ
fill_active_channels heap [] = (heap, [])
fill_active_channels heap ((a, revents) ∷ rest) =
    let (heap', active) =
      fill_active_channels (λ b. if a == b then set_revent (heap a) revents else heap b) rest in
    (heap', a ∷ active)

module _ {k : Epoll} where
  unfoldable pub has_channel : Poller k → Channel → Bool
  has_channel p c = is_entry (lookup c.fd p.channels) c.address

  -- `update`: a failed epoll_ctl is a LOG_FATAL.
  unfoldable pub update : Poller k → CtlOp → Channel → Outcome (Poller k)
  update p op c = elim (k.ctl p.epoll op c.fd c.events) [
    | none ↦ err fatal
    | some s ↦ ok (record p { epoll = s })
  ]

  unfoldable pub add_channel : Poller k → Channel → Outcome (Poller k × Channel)
  add_channel p c = do
    p' ← update p ctl_add (record c { index = added })
    ok (p', record c { index = added })

  -- The branches of `updateChannel`, by `index_`.
  unfoldable pub update_by_index : Index → Poller k → Channel → Outcome (Poller k × Channel)
  unfolding add_channel
  update_by_index new p c = do
    assert (is_empty (lookup c.fd p.channels))
    add_channel (record p { channels = put c.fd c.address p.channels }) c
  update_by_index deleted p c = do
    assert (not (is_empty (lookup c.fd p.channels)))
    assert (has_channel p c)
    add_channel p c
  update_by_index added p c = do
    assert (not (is_empty (lookup c.fd p.channels)))
    assert (has_channel p c)
    if is_none_event c.events
        then (update p ctl_del c >>= λ p'. ok (p', record c { index = deleted }))
        else (update p ctl_mod c >>= λ p'. ok (p', c))

  unfoldable pub update_channel : Poller k → Channel → Outcome (Poller k × Channel)
  update_channel p c = update_by_index c.index p c

  -- `Channel::update`, behind one of the five methods that change the interest.
  unfoldable pub change_interest : Poller k → Channel → Interest → Outcome (Poller k × Channel)
  change_interest p c i =
      update_channel p (record c { events = apply_interest i c.events; added_to_loop = true })

  delete_by_index : Index → Poller k → Channel → Outcome (Poller k)
  delete_by_index added p c = update p ctl_del c
  delete_by_index deleted p c = ok p
  delete_by_index new p c = ok p

  unfoldable pub remove_channel : Poller k → Channel → Outcome (Poller k × Channel)
  unfolding delete_by_index
  remove_channel p c = do
    assert (not (is_empty (lookup c.fd p.channels)))
    assert (has_channel p c)
    assert (is_none_event c.events)
    assert (is_registered c.index)
    p' ← delete_by_index c.index (record p { channels = erase c.fd p.channels }) c
    ok (p', record c { index = new })

  -- `Channel::remove`
  unfoldable pub remove : Poller k → Channel → Outcome (Poller k × Channel)
  remove p c = do
    assert (is_none_event c.events)
    remove_channel p (record c { added_to_loop = false })

  -- `poll`: the event list doubles when it was filled.
  unfoldable pub poll :
      Poller k → (ℕ → Channel) → Waited → Outcome (Poller k × (ℕ → Channel) × List ℕ)
  poll p heap failed = err fatal
  poll p heap interrupted = ok (p, heap, [])
  poll p heap (ready []) = ok (p, heap, [])
  poll p heap (ready (e ∷ es)) = do
    assert (leb (length (e ∷ es)) p.event_list_size)
    let (heap', active) = fill_active_channels heap (e ∷ es)
    ok (
      record p {
        event_list_size =
            if length (e ∷ es) == p.event_list_size
            then p.event_list_size * 2
            else p.event_list_size;
      },
      heap',
      active,
    )
