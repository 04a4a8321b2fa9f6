-- ===== src/Poller/Kernel.antt =====
-- What the poller uses of the kernel: epoll_ctl and the interest list that it keeps.
use starry.Common.{ℕ, ◌≡◌, ◌≢◌, Option, none, some}

pub data CtlOp : Type 0 where
  ctl_add ctl_mod ctl_del : CtlOp

-- `ctl` is epoll_ctl(2), `none` a result below 0, and `interest` the events that a descriptor is
-- registered with. Any call may be refused, for the documented reasons or for want of memory; the
-- laws say what a call that succeeds does, to its descriptor and to no other.
pub record Kernel : Type 1 where
  pub State : Type 0
  pub ctl : State → CtlOp → ℕ → ℕ → Option State
  pub interest : State → ℕ → Option ℕ
  pub add_registers :
      (s s' : State) (fd events : ℕ)
      → ctl s ctl_add fd events ≡ some s'
      → (interest s' fd ≡ some events)
        × ((other : ℕ) → other ≢ fd → interest s' other ≡ interest s other)
  pub mod_changes :
      (s s' : State) (fd events : ℕ)
      → ctl s ctl_mod fd events ≡ some s'
      → (interest s' fd ≡ some events)
        × ((other : ℕ) → other ≢ fd → interest s' other ≡ interest s other)
  pub del_removes :
      (s s' : State) (fd events : ℕ)
      → ctl s ctl_del fd events ≡ some s'
      → (interest s' fd ≡ none) × ((other : ℕ) → other ≢ fd → interest s' other ≡ interest s other)
