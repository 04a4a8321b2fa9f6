-- ===== src/EventLoop.antt =====
-- starry/net/include/eventloop.h and starry/net/src/eventloop.cpp: the loop and its functors.
-- A functor or a handler is known by what it does to the loop: `effects` and `handlers` give the
-- calls of `queueInLoop` and `quit` that it makes, in the loop's own thread. `readable` is whether
-- the counter of the wakeup descriptor is above zero, `running` the local vector of
-- `doPendingFunctors`; `submitted` and `called` are the functors that were queued and called so far.
pub mod Calls
pub mod Rounds
pub mod Threads
mod Tests
use starry.Common.{
  ℕ, Bool, true, false, not, ◌&&◌, ◌||◌, List, [], ◌∷◌, ◌++◌, Option, none, some, ◌==◌,
  if◌then◌else◌, Outcome, ok, err, assertion, ◌>>=◌, ◌>>◌, assert,
}

-- What a functor or a handler may do to the loop.
pub data Act (F : Type 0) : Type 0 where
  post : F → Act F
  ask_quit : Act F

-- A channel that is active: that of the wakeup descriptor, or another by its address.
pub data Source : Type 0 where
  wakeup_channel : Source
  channel : ℕ → Source

pub record EventLoop (F : Type 0) : Type 0 where
  pub looping : Bool
  pub quit_asked : Bool
  pub event_handling : Bool
  pub calling_pending : Bool
  pub active : List Source
  pub current : Option Source
  pub readable : Bool
  pub pending : List F
  pub running : List F
  pub submitted : List F
  pub called : List F

abbrev pub same_source : Source → Source → Bool
same_source wakeup_channel wakeup_channel = true
same_source wakeup_channel (channel a) = false
same_source (channel a) wakeup_channel = false
same_source (channel a) (channel b) = a == b

abbrev pub member : Source → List Source → Bool
member s [] = false
member s (t ∷ ts) = same_source t s || member s ts

abbrev is_current : Option Source → Source → Bool
is_current none s = false
is_current (some t) s = same_source t s

module _ {F : Type 0} where
  unfoldable pub init : EventLoop F
  init = record {
    looping = false;
    quit_asked = false;
    event_handling = false;
    calling_pending = false;
    active = [];
    current = none;
    readable = false;
    pending = [];
    running = [];
    submitted = [];
    called = [];
  }

  -- `wakeup`: the counter of the descriptor is above zero afterwards, also when the write fails.
  unfoldable pub wakeup : EventLoop F → EventLoop F
  wakeup l = record l { readable = true }

  -- `handleRead`: reading sets the counter to zero.
  unfoldable pub handle_read : EventLoop F → EventLoop F
  handle_read l = record l { readable = false }

  -- The first half of `queueInLoop`, under the mutex.
  unfoldable pub push : EventLoop F → F → EventLoop F
  push l f = record l { pending = l.pending ++ (f ∷ []); submitted = l.submitted ++ (f ∷ []) }

  -- Its second half, behind the mutex.
  unfoldable pub wake_if_needed : Bool → EventLoop F → EventLoop F
  wake_if_needed in_loop_thread l = if not in_loop_thread || l.calling_pending then wakeup l else l

  unfoldable pub queue_in_loop : Bool → EventLoop F → F → EventLoop F
  unfolding wake_if_needed
  queue_in_loop in_loop_thread l f = wake_if_needed in_loop_thread (push l f)

  unfoldable pub quit : Bool → EventLoop F → EventLoop F
  quit in_loop_thread l =
      if in_loop_thread
      then record l { quit_asked = true }
      else wakeup (record l { quit_asked = true })

  -- The effects of code that runs in the loop's thread.
  unfoldable pub perform : List (Act F) → EventLoop F → EventLoop F
  perform [] l = l
  perform (post f ∷ acts) l = perform acts (queue_in_loop true l f)
  perform (ask_quit ∷ acts) l = perform acts (quit true l)

  -- `removeChannel` up to the call of the poller.
  unfoldable pub check_removable : EventLoop F → Source → Outcome (Unit {0})
  check_removable l s =
      assert (not l.event_handling || is_current l.current s || not (member s l.active))

  module _ (effects : F → List (Act F)) (handlers : ℕ → List (Act F)) where
    unfoldable pub run_in_loop : Bool → EventLoop F → F → EventLoop F
    run_in_loop in_loop_thread l f =
        if in_loop_thread then perform (effects f) l else queue_in_loop false l f

    -- `doPendingFunctors` in three parts: the swap, the calls, the end.
    unfoldable pub take_pending : EventLoop F → EventLoop F
    take_pending l = record l { calling_pending = true; running = l.pending; pending = [] }

    unfoldable pub call_functor : EventLoop F → F → List F → EventLoop F
    call_functor l f rest =
        perform (effects f) (record l { running = rest; called = l.called ++ (f ∷ []) })

    unfoldable pub end_calls : EventLoop F → EventLoop F
    end_calls l = record l { calling_pending = false }

    unfoldable pub call_all : List F → EventLoop F → EventLoop F
    call_all [] l = l
    call_all (f ∷ rest) l = call_all rest (call_functor l f rest)

    unfoldable pub do_pending_functors : EventLoop F → EventLoop F
    do_pending_functors l = end_calls (call_all l.pending (take_pending l))

    -- `handleEvent` of an active channel.
    unfoldable pub handle_event : EventLoop F → Source → EventLoop F
    handle_event l wakeup_channel = handle_read (record l { current = some wakeup_channel })
    handle_event l (channel a) = perform (handlers a) (record l { current = some (channel a) })

    unfoldable pub handle_all : List Source → EventLoop F → EventLoop F
    handle_all [] l = l
    handle_all (s ∷ rest) l = handle_all rest (handle_event l s)

    -- One round of the loop, after `poll` has returned the active channels.
    unfoldable pub round : List Source → EventLoop F → EventLoop F
    round sources l =
        let handled = handle_all sources (record l { active = sources; event_handling = true }) in
        do_pending_functors (record handled { current = none; event_handling = false })

    -- `loop` with what each `poll` returns, until it quits: the loop, and the polls that are left.
    unfoldable pub rounds : List (List Source) → EventLoop F → EventLoop F × List (List Source)
    rounds [] l = (if l.quit_asked then record l { looping = false } else l, [])
    rounds (sources ∷ polls) l =
        if l.quit_asked
        then (record l { looping = false }, sources ∷ polls)
        else rounds polls (round sources l)

    unfoldable pub loop :
        List (List Source) → EventLoop F → Outcome (EventLoop F × List (List Source))
    loop polls l = do
      assert (not l.looping)
      ok (rounds polls (record l { looping = true; quit_asked = false }))
