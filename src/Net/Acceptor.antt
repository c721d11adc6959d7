-- ===== src/Net/Acceptor.antt =====
-- include/net/Acceptor.h and src/net/Acceptor.cpp: the listening socket, and the loop that takes the
-- connections that wait. The system calls are the parameter `sockets`; the address to bind to is part
-- of it. The callback of the server is a parameter of the loop, which takes fuel.
pub mod Loop
pub mod Opening
use Prim.Native.Nat.{bit_or}
use user_center.Base.{ℕ, zero, suc, Option, none, some, Bool, true, false, if◌then◌else◌}
use user_center.Net.Channel.{Channel, CtlOp, new_channel, enable_reading, end_channel}

pub data FcntlOp : Type 0 where
  get_fl get_fd : FcntlOp
  set_fl set_fd : ℕ → FcntlOp

pub data AcceptAnswer : Type 0 where
  accept_failed : ℕ → AcceptAnswer
  accepted : ℕ → AcceptAnswer

-- socket(2), the two calls of setsockopt(2), bind(2), listen(2), fcntl(2), accept(2), close(2) and
-- epoll_ctl(2). A call that answers -1 is `none` or `false`.
pub record Sockets (W : Type 0) : Type 0 where
  pub socket : W → Option ℕ × W
  pub reuse_addr : ℕ → W → Bool × W
  pub reuse_port : ℕ → W → Bool × W
  pub bind_addr : ℕ → W → Bool × W
  pub listen : ℕ → W → Bool × W
  pub fcntl : FcntlOp → ℕ → W → Option ℕ × W
  pub accept : ℕ → W → AcceptAnswer × W
  pub close : ℕ → W → W
  pub epoll_ctl : CtlOp → ℕ → ℕ → W → Option W

-- O_NONBLOCK and FD_CLOEXEC
abbrev pub nonblock : ℕ
nonblock = 2048

abbrev pub cloexec : ℕ
cloexec = 1

pub record Acceptor : Type 0 where
  pub channel : Channel
  pub listening : Bool

-- The constructor listens, or the process is aborted.
pub data Opened (W : Type 0) : Type 0 where
  opened : Acceptor → W → Opened W
  aborted : W → Opened W

-- The loop returns, the callback aborts the process, or the fuel runs out.
pub data Ran (W : Type 0) : Type 0 where
  returned : W → Ran W
  crashed : Ran W
  out_of_fuel : Ran W

module _ {W : Type 0} (sockets : Sockets W) where
  open sockets use {
    socket, reuse_addr, reuse_port, bind_addr, listen, fcntl, accept, close, epoll_ctl,
  }

  unfoldable pub after_fcntl : Option ℕ × W → (ℕ → W → Bool × W) → Bool × W
  after_fcntl (none, w) next = (false, w)
  after_fcntl (some n, w) next = next n w

  unfoldable pub set_close_on_exec : ℕ → W → Bool × W
  unfolding after_fcntl
  set_close_on_exec fd w =
      after_fcntl (fcntl get_fd fd w)
        (λ flags v. after_fcntl (fcntl (set_fd (bit_or flags cloexec)) fd v) (λ _ u. (true, u)))

  unfoldable pub set_non_block_and_close_on_exec : ℕ → W → Bool × W
  unfolding after_fcntl set_close_on_exec
  set_non_block_and_close_on_exec fd w = after_fcntl (fcntl get_fl fd w) (λ flags v.
      after_fcntl (fcntl (set_fl (bit_or flags nonblock)) fd v) (λ _ u. set_close_on_exec fd u))

  -- A call that fails closes the socket and aborts.
  unfoldable pub or_abort : ℕ → Bool × W → (W → Opened W) → Opened W
  or_abort fd (true, w) next = next w
  or_abort fd (false, w) next = aborted (close fd w)

  unfoldable pub begin_reading : ℕ → W → Opened W
  unfolding enable_reading new_channel
  begin_reading fd w = elim (enable_reading epoll_ctl (new_channel fd) w) [
    | none ↦ aborted w
    | some (c, v) ↦ opened (record { channel = c; listening = true }) v
  ]

  -- SO_REUSEPORT may fail.
  unfoldable pub listen_on : Bool → ℕ → W → Opened W
  unfolding or_abort begin_reading set_non_block_and_close_on_exec
  listen_on reuses_port fd w = or_abort fd (reuse_addr fd w) (λ w1.
      or_abort fd (bind_addr fd (if reuses_port then (reuse_port fd w1).1 else w1)) (λ w2.
        or_abort fd (listen fd w2)
          (λ w3. or_abort fd (set_non_block_and_close_on_exec fd w3) (λ w4. begin_reading fd w4))))

  unfoldable pub after_socket : Bool → Option ℕ × W → Opened W
  unfolding listen_on
  after_socket reuses_port (none, w) = aborted w
  after_socket reuses_port (some fd, w) = listen_on reuses_port fd w

  unfoldable pub open_acceptor : Bool → W → Opened W
  unfolding after_socket
  open_acceptor reuses_port w = after_socket reuses_port (socket w)

  -- The destructor, for a socket that is listening.
  unfoldable pub end_acceptor : Acceptor → W → Option W
  unfolding end_channel
  end_acceptor a w =
      if a.listening
      then elim (end_channel epoll_ctl a.channel w) [
        | none ↦ none
        | some (c, v) ↦ some (close c.fd v)
      ]
      else some (close a.channel.fd w)

  module _ (callback : ℕ → W → Option W) where
    -- A new connection whose flags cannot be set is closed.
    unfoldable pub welcome : ℕ → Bool × W → Option W
    welcome fd (true, w) = callback fd w
    welcome fd (false, w) = some (close fd w)

    abbrev pub next_turn : Option W → (W → Ran W) → Ran W
    next_turn none go = crashed
    next_turn (some w) go = go w

    -- Whatever the error, the loop ends.
    unfoldable pub after_accept : AcceptAnswer × W → (W → Ran W) → Ran W
    unfolding welcome set_non_block_and_close_on_exec
    after_accept (accept_failed e, w) go = returned w
    after_accept (accepted fd, w) go =
        next_turn (welcome fd (set_non_block_and_close_on_exec fd w)) go

    unfoldable pub handle_read : ℕ → ℕ → W → Ran W
    unfolding after_accept
    handle_read zero fd w = out_of_fuel
    handle_read (suc fuel) fd w = after_accept (accept fd w) (handle_read fuel fd)
