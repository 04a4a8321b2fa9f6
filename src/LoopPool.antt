-- ===== src/LoopPool.antt =====
-- starry/net/include/eventloop_threadpool.h and starry/net/src/eventloop_threadpool.cpp: the loops
-- of a server. A loop is known by its address; `start_loop` gives the address of the loop that
-- `startLoop` of the i-th thread returns. `initialized` holds the loops that the callback was called with in the
-- thread of the pool itself.
pub mod Turns
mod Tests
use starry.Common.{
  ℕ, zero, suc, ◌+◌, ◌%◌, ◌≡◌, Bool, true, false, not, ◌&&◌, List, [], ◌∷◌, ◌++◌, length, ◌==◌,
  if◌then◌else◌, Outcome, ok, err, undefined, ◌>>=◌, ◌>>◌, assert,
}

pub record LoopPool : Type 0 where
  pub base_loop : ℕ
  pub started : Bool
  pub num_threads : ℕ
  pub next : ℕ
  pub loops : List ℕ
  pub initialized : List ℕ

-- `loops_[i]`
unfoldable pub at : List ℕ → ℕ → Outcome ℕ
at [] i = err undefined
at (l ∷ ls) zero = ok l
at (l ∷ ls) (suc i) = at ls i

unfoldable pub init : ℕ → LoopPool
init base_loop = record {
  base_loop = base_loop;
  started = false;
  num_threads = 0;
  next = 0;
  loops = [];
  initialized = [];
}

unfoldable pub set_thread_num : LoopPool → ℕ → LoopPool
set_thread_num p n = record p { num_threads = n }

-- The loops of `n` threads, from the i-th one on.
unfoldable pub start_loops : (ℕ → ℕ) → ℕ → ℕ → List ℕ
start_loops start_loop i zero = []
start_loops start_loop i (suc n) = start_loop i ∷ start_loops start_loop (suc i) n

-- `has_callback` is whether there is a callback.
unfoldable pub start : (ℕ → ℕ) → Bool → LoopPool → Outcome LoopPool
start start_loop has_callback p = do
  assert (not p.started)
  ok (record p {
    started = true;
    loops = p.loops ++ start_loops start_loop 0 p.num_threads;
    initialized =
        if p.num_threads == 0 && has_callback
        then p.initialized ++ (p.base_loop ∷ [])
        else p.initialized;
  })

unfoldable pub get_next_loop : LoopPool → Outcome (ℕ × LoopPool)
get_next_loop p = do
  assert p.started
  if length p.loops == 0
      then ok (p.base_loop, p)
      else (at p.loops p.next >>= λ l. ok (l, record p { next = (p.next + 1) % length p.loops }))

unfoldable pub get_loop_for_hash : LoopPool → ℕ → Outcome ℕ
get_loop_for_hash p hash_code =
    if length p.loops == 0 then ok p.base_loop else at p.loops (hash_code % length p.loops)

unfoldable pub get_all_loops : LoopPool → Outcome (List ℕ)
get_all_loops p = do
  assert p.started
  ok (if length p.loops == 0 then p.base_loop ∷ [] else p.loops)
