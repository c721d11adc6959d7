-- ===== src/Net/EventLoop.antt =====
-- include/net/EventLoop.h and src/net/EventLoop.cpp: the loop's queue of functors, its eventfd and its
-- flags, shared by the loop's thread and the others. The eventfd is the parameter `eventfd` on a
-- state `W` of the outside world; a functor is a value of `F`, and what it does to the loop is a step
-- of its own. The mutex makes the two critical sections, `push` and `swap`, single steps; the write to
-- the eventfd comes after the lock is released and is a step of its own. That epoll watches the
-- eventfd is the affair of its channel.
pub mod Steps
pub mod Waking
use user_center.Base.{
  ◌++◌, List, [], ◌∷◌, Option, none, some, Bool, true, false, ◌||◌, not, if◌then◌else◌,
}

-- write(2) and read(2) of eight bytes on the eventfd.
pub record EventFd (W : Type 0) : Type 0 where
  pub write : W → W
  pub read : W → W

-- Where the loop's thread is: before `loop()`, in the poll, in the callbacks of the active channels,
-- and in the functors, with those that are still to run.
pub data Phase (F : Type 0) : Type 0 where
  stopped : Phase F
  polling : Phase F
  handling : Phase F
  running : List F → Phase F

pub record EventLoop (F W : Type 0) : Type 0 where
  pub phase : Phase F
  pub pending : List F
  pub calling : Bool
  pub quitting : Bool
  pub world : W

-- What `queueInLoop` decides behind its critical section, and `quit` behind the flag.
unfoldable pub wakes_after_push : {F W : Type 0} → Bool → EventLoop F W → Bool
wakes_after_push in_thread l = not in_thread || l.calling

unfoldable pub wakes_after_stop : Bool → Bool
wakes_after_stop in_thread = not in_thread

module _ {F W : Type 0} (eventfd : EventFd W) where
  unfoldable pub create : W → EventLoop F W
  create w = record { phase = stopped; pending = []; calling = false; quitting = false; world = w }

  unfoldable pub wakeup : EventLoop F W → EventLoop F W
  wakeup l = record l { world = eventfd.write l.world }

  unfoldable pub handle_wakeup : EventLoop F W → EventLoop F W
  handle_wakeup l = record l { world = eventfd.read l.world }

  -- The critical section of `queueInLoop`.
  unfoldable pub push : F → EventLoop F W → EventLoop F W
  push f l = record l { pending = l.pending ++ f ∷ [] }

  unfoldable pub queue_in_loop : Bool → F → EventLoop F W → EventLoop F W
  unfolding push wakeup wakes_after_push
  queue_in_loop in_thread f l = if wakes_after_push in_thread l then wakeup (push f l) else push f l

  -- The functor to call at once, if any.
  unfoldable pub run_in_loop : Bool → F → EventLoop F W → Option F × EventLoop F W
  unfolding queue_in_loop
  run_in_loop true f l = (some f, l)
  run_in_loop false f l = (none, queue_in_loop false f l)

  unfoldable pub stop : EventLoop F W → EventLoop F W
  stop l = record l { quitting = true }

  unfoldable pub quit : Bool → EventLoop F W → EventLoop F W
  unfolding stop wakeup wakes_after_stop
  quit in_thread l = if wakes_after_stop in_thread then wakeup (stop l) else stop l

  -- `loop()`, up to the first poll: the flag is reset first.
  unfoldable pub begin : EventLoop F W → EventLoop F W
  begin l = record l { quitting = false; phase = polling }

  -- The head of `doPendingFunctors`.
  unfoldable pub swap : EventLoop F W → EventLoop F W
  swap l = record l { pending = []; phase = running l.pending; calling = true }

  -- Its end, and the test of the loop.
  unfoldable pub end_round : EventLoop F W → EventLoop F W
  end_round l = record l { calling = false; phase = if l.quitting then stopped else polling }
