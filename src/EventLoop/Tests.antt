-- ===== src/EventLoop/Tests.antt =====
-- A loop whose functors are numbers: functor 1 queues 2 and 3, functor 3 quits, and the handler of
-- channel 7 queues 1.
use starry.Common.{ℕ, ◌≡◌, refl, true, List, [], ◌∷◌, ◌++◌, ◌==◌, if◌then◌else◌, ok}
use starry.EventLoop.{
  Act, post, ask_quit, Source, wakeup_channel, channel, EventLoop, init, wakeup, handle_read, push,
  queue_in_loop, wake_if_needed, quit, perform, take_pending, call_functor, end_calls, call_all,
  do_pending_functors, handle_event, handle_all, round, rounds, loop,
}
use starry.EventLoop.Rounds.{InOrder, Awake, round_lem, rounds-called}
use starry.EventLoop.Threads.{System, polling}

abbrev effects : ℕ → List (Act ℕ)
effects f = if f == 1 then post 2 ∷ post 3 ∷ [] else if f == 3 then ask_quit ∷ [] else []

abbrev handlers : ℕ → List (Act ℕ)
handlers a = if a == 7 then post 1 ∷ [] else []

abbrev fresh : EventLoop ℕ
fresh = init

abbrev polls : List (List Source)
polls = (channel 7 ∷ []) ∷ (wakeup_channel ∷ []) ∷ [] ∷ []

-- The second round quits, so that the third poll is not made.
loop-result :
    loop effects handlers polls fresh
    ≡ ok (
      record init {
        quit_asked = true;
        submitted = 1 ∷ 2 ∷ 3 ∷ [];
        called = 1 ∷ 2 ∷ 3 ∷ [];
        active = wakeup_channel ∷ [];
      },
      [] ∷ [],
    )
unfolding loop rounds round handle_all handle_event handle_read do_pending_functors take_pending
    call_all call_functor end_calls perform queue_in_loop wake_if_needed push wakeup quit init
loop-result = refl

round_lem_example :
    (l : EventLoop ℕ) × (round effects handlers (channel 7 ∷ []) fresh ≡ l)
    × (l.called ≡ 1 ∷ [])
    × (l.pending ≡ 2 ∷ 3 ∷ [])
    × InOrder effects handlers l
    × Awake effects handlers l
unfolding init
round_lem_example = round_lem effects handlers (channel 7 ∷ []) fresh refl

rounds-called_example :
    (l : EventLoop ℕ) × (more : List ℕ) × ((rounds effects handlers polls fresh).0 ≡ l)
    × (l.called ≡ (1 ∷ []) ++ more)
    × InOrder effects handlers l
    × Awake effects handlers l
unfolding init
rounds-called_example =
    rounds-called effects handlers (channel 7 ∷ []) ((wakeup_channel ∷ []) ∷ [] ∷ []) fresh refl
      refl (λ h. absurd (h refl))

-- Another thread has pushed, and has not yet woken the loop.
abbrev pushed : System ℕ
pushed = record { loop = push init 5; phase = polling; posting = 1 }
