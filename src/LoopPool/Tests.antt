-- ===== src/LoopPool/Tests.antt =====
-- A pool of three loops at the addresses 10, 11 and 12.
use starry.Common.{true, [], ◌∷◌}
use starry.LoopPool.{LoopPool}

abbrev three : LoopPool
three = record {
  base_loop = 1;
  started = true;
  num_threads = 3;
  next = 0;
  loops = 10 ∷ 11 ∷ 12 ∷ [];
  initialized = [];
}
