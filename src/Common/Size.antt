-- ===== src/Common/Size.antt =====
-- size_t arithmetic on a 64-bit machine: sums and differences wrap.
use Prim.Native.Nat.{ℕ, ◌+◌, ◌-◌, ◌%◌, ◌^◌}

abbrev pub size_mod : ℕ
size_mod = 2 ^ 64

abbrev pub add_size : ℕ → ℕ → ℕ
add_size a b = (a + b) % size_mod

abbrev pub sub_size : ℕ → ℕ → ℕ
sub_size a b = (a + size_mod - b) % size_mod

-- The largest size of a vector of bytes, std::vector<char>::max_size().
abbrev pub max_size : ℕ
max_size = 2 ^ 63 - 1
