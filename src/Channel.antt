-- ===== src/Channel.antt =====
-- starry/net/include/channel.h and starry/net/src/channel.cpp: the events of one descriptor.
-- `update` and `remove` call the poller through the loop; they stand in Poller.antt.
pub mod Mask
mod Tests
use Prim.Native.Nat.{bit_and, bit_or}
use starry.Common.{
  ℕ, ◌-◌, ◌^◌, Bool, true, false, not, ◌&&◌, ◌||◌, List, [], ◌∷◌, ◌++◌, ◌==◌, if◌then◌else◌,
}

-- <sys/epoll.h>
abbrev pub epollin : ℕ
epollin = 0x1

abbrev pub epollpri : ℕ
epollpri = 0x2

abbrev pub epollout : ℕ
epollout = 0x4

abbrev pub epollerr : ℕ
epollerr = 0x8

abbrev pub epollhup : ℕ
epollhup = 0x10

abbrev pub epollrdhup : ℕ
epollrdhup = 0x2000

abbrev pub none_event : ℕ
none_event = 0

abbrev pub read_event : ℕ
read_event = bit_or epollin epollpri

abbrev pub write_event : ℕ
write_event = epollout

-- `index_`: kNew is -1, kAdded 1, kDeleted 2.
pub data Index : Type 0 where
  new added deleted : Index

-- `address` stands for `this`. A callback is there or not.
pub record Channel : Type 0 where
  pub address : ℕ
  pub fd : ℕ
  pub events : ℕ
  pub revents : ℕ
  pub index : Index
  pub tied : Bool
  pub event_handling : Bool
  pub added_to_loop : Bool

unfoldable pub init : ℕ → ℕ → Channel
init address fd = record {
  address = address;
  fd = fd;
  events = 0;
  revents = 0;
  index = new;
  tied = false;
  event_handling = false;
  added_to_loop = false;
}

-- `~m` of an `int`
abbrev pub complement : ℕ → ℕ
complement m = 2 ^ 32 - 1 - m

-- What the five methods do to `events_` before they call `update`.
pub data Interest : Type 0 where
  enable_reading disable_reading enable_writing disable_writing disable_all : Interest

unfoldable pub apply_interest : Interest → ℕ → ℕ
apply_interest enable_reading events = bit_or events read_event
apply_interest disable_reading events = bit_and events (complement read_event)
apply_interest enable_writing events = bit_or events write_event
apply_interest disable_writing events = bit_and events (complement write_event)
apply_interest disable_all events = none_event

unfoldable pub is_none_event : ℕ → Bool
is_none_event events = events == none_event

unfoldable pub is_writing : ℕ → Bool
is_writing events = not (bit_and events write_event == 0)

unfoldable pub is_reading : ℕ → Bool
is_reading events = not (bit_and events read_event == 0)

unfoldable pub set_revent : Channel → ℕ → Channel
set_revent c revents = record c { revents = revents }

unfoldable pub tie : Channel → Channel
tie c = record c { tied = true }

pub data Callback : Type 0 where
  close error read write : Callback

-- Which callbacks have been set.
pub record Callbacks : Type 0 where
  pub has_close : Bool
  pub has_error : Bool
  pub has_read : Bool
  pub has_write : Bool

-- `revents_ & mask`
unfoldable pub has : ℕ → ℕ → Bool
has revents mask = not (bit_and revents mask == 0)

call_if : Bool → Bool → Callback → List Callback
call_if test set callback = if test then if set then callback ∷ [] else [] else []

-- The callbacks that `handleEventWithGuard` calls, in order. Those called before may change the
-- channel's interest; `revents_` is set by the poller only.
unfoldable pub handle_event_with_guard : Callbacks → ℕ → List Callback
unfolding call_if
handle_event_with_guard cb revents =
    call_if (has revents epollhup && not (has revents epollin)) cb.has_close close
    ++ (call_if (has revents epollerr) cb.has_error error
        ++ (call_if (has revents (bit_or epollin (bit_or epollpri epollrdhup))) cb.has_read read
            ++ call_if (has revents epollout) cb.has_write write))

-- `alive` is whether the tied object still lives when `tie_.lock()` is called.
unfoldable pub handle_event : Channel → Callbacks → Bool → List Callback
handle_event c cb alive =
    if c.tied
    then if alive then handle_event_with_guard cb c.revents else []
    else handle_event_with_guard cb c.revents
