-- ===== src/Net/Reactor/Laws.antt =====
-- src/net/Connection.cpp on the descriptors of a server: what read(2), write(2) and close(2)
-- document of them, and the calls of a channel made by a connection of the server.
use Prim.Native.Nat.{bit_and, bit_or}
use user_center.Base.{
  ℕ, ◌≡◌, refl, Option, none, some, Bool, true, false, Bytes, inl, inr, ◌==◌, Bool-cases,
}
use user_center.Buffer.{write_failed}
use user_center.Net.Channel.{
  Channel, CtlOp, write_event, complement, update, marked, remove_channel, update_channel,
  is_none_event, enable_writing, disable_writing,
}
use user_center.Net.Channel.Masks.{EpollLaws}
use user_center.Net.Connection.{Kernel, eagain}
use user_center.Net.Server.{TcpServer}
use user_center.Net.Reactor.{in_world, served_kernel}

-- A read, a write or a shutdown leaves epoll and the open descriptors alone. A write to a closed descriptor fails,
-- and not for want of room.
pub record EventLaws {W : Type 0} (kernel : Kernel W) (epoll : EpollLaws kernel.epoll_ctl)
    : Type 0 where
  pub is_open : W → ℕ → Bool
  pub read_law :
      (fd room : ℕ) (w : W)
      → (epoll.registered (kernel.readv fd room w).1 ≡ epoll.registered w)
        × (is_open (kernel.readv fd room w).1 ≡ is_open w)
  pub write_law :
      (fd : ℕ) (bytes : Bytes) (w : W)
      → (epoll.registered (kernel.write fd bytes w).1 ≡ epoll.registered w)
        × (is_open (kernel.write fd bytes w).1 ≡ is_open w)
  pub closed_law :
      (fd : ℕ) (bytes : Bytes) (w : W)
      → is_open w fd ≡ false
      → (e : ℕ) × ((kernel.write fd bytes w).0 ≡ write_failed e) × ((e == eagain) ≡ false)
  pub shutdown_law :
      (fd : ℕ) (w : W)
      → (epoll.registered (kernel.shutdown_write fd w) ≡ epoll.registered w)
        × (is_open (kernel.shutdown_write fd w) ≡ is_open w)
  pub close_law : (fd : ℕ) (w : W) → is_open (kernel.close fd w) fd ≡ false

module _ {W : Type 0} (kernel : Kernel W) (s : TcpServer W) where
  abbrev pub lifted : Option (Channel × W) → Option (Channel × TcpServer W)
  lifted none = none
  lifted (some (c, w)) = some (c, record s { world = w })

  told-lifted :
      (flag : Bool) (c : Channel) (o : Option W)
      → marked (served_kernel kernel).epoll_ctl flag c (in_world s o)
        ≡ lifted (marked kernel.epoll_ctl flag c o)
  unfolding marked
  told-lifted flag c none = refl
  told-lifted flag c (some w) = refl

  -- The channel of a connection of the server does what it does on the kernel.
  update_channel-lifted :
      (c : Channel)
      → update_channel (served_kernel kernel).epoll_ctl c s
        ≡ lifted (update_channel kernel.epoll_ctl c s.world)
  unfolding update_channel remove_channel update
  update_channel-lifted c = elim (Bool-cases (is_none_event c)) [
    | inl idle ↦ elim (Bool-cases c.in_epoll) [
      | inl there ↦ rw (idle, there, update_channel) (told-lifted false c _)
      | inr out ↦ rw (idle, out, update_channel) refl
    ]
    | inr busy ↦ elim (Bool-cases c.in_epoll) [
      | inl there ↦ rw (busy, there, update_channel) (told-lifted true c _)
      | inr out ↦ rw (busy, out, update_channel) (told-lifted true c _)
    ]
  ]

  pub enable_writing-lifted :
      (c : Channel)
      → enable_writing (served_kernel kernel).epoll_ctl c s
        ≡ lifted (enable_writing kernel.epoll_ctl c s.world)
  unfolding enable_writing
  enable_writing-lifted c =
      update_channel-lifted (record c { events = bit_or c.events write_event })

  pub disable_writing-lifted :
      (c : Channel)
      → disable_writing (served_kernel kernel).epoll_ctl c s
        ≡ lifted (disable_writing kernel.epoll_ctl c s.world)
  unfolding disable_writing
  disable_writing-lifted c =
      update_channel-lifted (record c { events = bit_and c.events (complement write_event) })

-- A channel that has ended and stops to write asks epoll for nothing.
pub disable_writing-ended :
    {W : Type 0} (epoll_ctl : CtlOp → ℕ → ℕ → W → Option W) (c : Channel) (w : W)
    → c.events ≡ 0
    → c.in_epoll ≡ false
    → disable_writing epoll_ctl c w ≡ some (record c { events = 0 }, w)
unfolding disable_writing update_channel is_none_event
disable_writing-ended epoll_ctl c w idle out = rw (idle, out, update_channel) refl
