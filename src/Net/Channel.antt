-- ===== src/Net/Channel.antt =====
-- include/net/Channel.h, src/net/Channel.cpp, include/net/EpollPoller.h and src/net/EpollPoller.cpp:
-- what a descriptor waits for, and how epoll is told. `epoll_ctl` is a parameter on the state `W` of
-- the kernel; it refuses with `none`, and the source then aborts. The loop between Channel and
-- EpollPoller only passes the calls on, in its own thread.
pub mod Masks
pub mod Interest
pub mod Calls
use Prim.Native.Nat.{bit_and, bit_or}
use user_center.Base.{
  ℕ, ◌-◌, ◌*◌, List, [], ◌∷◌, ◌++◌, Option, none, some, Bool, true, false, not, if◌then◌else◌, ◌==◌,
  length,
}

-- kReadEvent, `EPOLLIN | EPOLLPRI | EPOLLRDHUP`, kWriteEvent, `EPOLLOUT`, and `EPOLLERR | EPOLLHUP`
abbrev pub read_event : ℕ
read_event = 0x2003

abbrev pub write_event : ℕ
write_event = 0x4

abbrev pub failure_event : ℕ
failure_event = 0x18

-- `~mask`, on uint32_t
abbrev pub complement : ℕ → ℕ
complement mask = 0xFFFFFFFF - mask

pub record Channel : Type 0 where
  pub fd : ℕ
  pub events : ℕ
  pub revents : ℕ
  pub in_epoll : Bool

unfoldable pub new_channel : ℕ → Channel
new_channel fd = record { fd = fd; events = 0; revents = 0; in_epoll = false }

unfoldable pub is_none_event : Channel → Bool
is_none_event c = c.events == 0

unfoldable pub is_writing : Channel → Bool
is_writing c = not (bit_and c.events write_event == 0)

unfoldable pub is_reading : Channel → Bool
is_reading c = not (bit_and c.events read_event == 0)

-- The callbacks that handleEvent calls, in order.
pub data Callback : Type 0 where
  on_error on_read on_write : Callback

-- `if (revents_ & mask) callback()`
unfoldable pub called_if : ℕ → ℕ → Callback → List Callback
called_if revents mask callback = if bit_and revents mask == 0 then [] else callback ∷ []

unfoldable pub handle_event : Channel → List Callback
unfolding called_if
handle_event c =
    if bit_and c.revents failure_event == 0
    then called_if c.revents read_event on_read ++ called_if c.revents write_event on_write
    else on_error ∷ []

pub data CtlOp : Type 0 where
  ctl_add ctl_mod ctl_del : CtlOp

-- The answer of epoll_wait: an error, or the channels that are ready with what they are ready for.
pub data WaitAnswer : Type 0 where
  wait_failed : WaitAnswer
  wait_ok : List (Channel × ℕ) → WaitAnswer

unfoldable pub set_revents : List (Channel × ℕ) → List Channel
set_revents [] = []
set_revents ((c, revents) ∷ rest) = record c { revents = revents } ∷ set_revents rest

-- The active channels, and the room for events, doubled when all of it was used.
unfoldable pub poll : WaitAnswer → ℕ → List Channel × ℕ
unfolding set_revents
poll wait_failed room = ([], room)
poll (wait_ok ready) room = (set_revents ready, if length ready == room then room * 2 else room)

module _ {W : Type 0} (epoll_ctl : CtlOp → ℕ → ℕ → W → Option W) where
  unfoldable pub update : CtlOp → Channel → W → Option W
  update operation c w = epoll_ctl operation c.fd c.events w

  -- The flag is set after the call.
  unfoldable pub marked : Bool → Channel → Option W → Option (Channel × W)
  marked flag c none = none
  marked flag c (some w) = some (record c { in_epoll = flag }, w)

  unfoldable pub remove_channel : Channel → W → Option (Channel × W)
  unfolding update marked
  remove_channel c w = if c.in_epoll then marked false c (update ctl_del c w) else some (c, w)

  unfoldable pub update_channel : Channel → W → Option (Channel × W)
  unfolding is_none_event remove_channel
  update_channel c w =
      if is_none_event c
      then if c.in_epoll then remove_channel c w else some (c, w)
      else if c.in_epoll
      then marked c.in_epoll c (update ctl_mod c w)
      else marked true c (update ctl_add c w)

  unfoldable pub enable_reading : Channel → W → Option (Channel × W)
  unfolding update_channel
  enable_reading c w = update_channel (record c { events = bit_or c.events read_event }) w

  unfoldable pub disable_reading : Channel → W → Option (Channel × W)
  unfolding update_channel
  disable_reading c w =
      update_channel (record c { events = bit_and c.events (complement read_event) }) w

  unfoldable pub enable_writing : Channel → W → Option (Channel × W)
  unfolding update_channel
  enable_writing c w = update_channel (record c { events = bit_or c.events write_event }) w

  unfoldable pub disable_writing : Channel → W → Option (Channel × W)
  unfolding update_channel
  disable_writing c w =
      update_channel (record c { events = bit_and c.events (complement write_event) }) w

  unfoldable pub disable_all : Channel → W → Option (Channel × W)
  unfolding update_channel
  disable_all c w = update_channel (record c { events = 0 }) w

  unfoldable pub remove : Channel → W → Option (Channel × W)
  unfolding remove_channel
  remove c w = if c.in_epoll then remove_channel c w else some (c, w)

  -- `disableAll(); remove();`, as every owner of a channel ends it.
  unfoldable pub end_channel : Channel → W → Option (Channel × W)
  unfolding disable_all remove
  end_channel c w = elim (disable_all c w) [ none ↦ none | some (d, v) ↦ remove d v ]
