-- ===== src/Net/TimerQueue.antt =====
-- include/net/TimerQueue.h and src/net/TimerQueue.cpp: the timers of an event loop. Times are the
-- nanoseconds of the steady clock, intervals milliseconds. The priority queue is a list in the order
-- of `expireTime`; which of two timers of the same time is the top is left open by the source.
pub mod Drain
use user_center.Base.{
  ℕ, zero, suc, ◌+◌, ◌-◌, ◌*◌, ◌/◌, List, [], ◌∷◌, Option, none, some, Bool, true, false, ltb, leb,
  length, if◌then◌else◌,
}

-- `C` is the type of the callbacks.
pub record TimerNode (C : Type 0) : Type 0 where
  pub expire_time : ℕ
  pub interval_ms : ℕ
  pub callback : C

-- `std::chrono::milliseconds(n)`
unfoldable pub milliseconds : ℕ → ℕ
milliseconds n = n * 1000000

-- `timers_.push`
unfoldable pub push : {C : Type 0} → TimerNode C → List (TimerNode C) → List (TimerNode C)
push n [] = n ∷ []
push n (t ∷ ts) =
    let rest = push n ts in if ltb n.expire_time t.expire_time then n ∷ t ∷ ts else t ∷ rest

-- The timerfd's `it_value`: seconds and nanoseconds, both 0 when it is disarmed.
unfoldable pub reset_timer_fd : {C : Type 0} → List (TimerNode C) → ℕ × ℕ
reset_timer_fd [] = (0, 0)
reset_timer_fd (t ∷ ts) =
    let sec = t.expire_time / 1000000000 in (sec, t.expire_time - sec * 1000000000)

pub record Timers (C : Type 0) : Type 0 where
  pub nodes : List (TimerNode C)
  pub timer_fd : ℕ × ℕ

unfoldable pub add_timer_in_loop : {C : Type 0} → ℕ → ℕ → C → Bool → Timers C → Timers C
unfolding push reset_timer_fd milliseconds
add_timer_in_loop now ms cb repeat s =
    let node : TimerNode _ = record {
      expire_time = now + milliseconds ms;
      interval_ms = if repeat then ms else 0;
      callback = cb;
    } in
    let nodes = push node s.nodes in record { nodes = nodes; timer_fd = reset_timer_fd nodes }

-- `(now - node.expireTime) / std::chrono::milliseconds(node.intervalMs)` and the sum after it.
unfoldable pub next_expire : ℕ → ℕ → ℕ → ℕ
unfolding milliseconds
next_expire now expire interval =
    let missed = (now - expire) / milliseconds interval in
    expire + (missed + 1) * milliseconds interval

-- A timer that is due, taken off the queue: a periodic one goes back with a later time.
unfoldable pub requeue : {C : Type 0} → ℕ → TimerNode C → List (TimerNode C) → List (TimerNode C)
unfolding next_expire push
requeue now t ts =
    if ltb 0 t.interval_ms
    then push (record t { expire_time = next_expire now t.expire_time t.interval_ms }) ts
    else ts

-- The loop: the callbacks to run, in order, and the timers left; `none` where the fuel is spent.
unfoldable pub drain :
    {C : Type 0} → ℕ → ℕ → List (TimerNode C) → Option (List C × List (TimerNode C))
unfolding requeue
drain zero now ts = none
drain (suc fuel) now [] = some ([], [])
drain (suc fuel) now (t ∷ ts) = elim (leb t.expire_time now) [
  | false ↦ some ([], t ∷ ts)
  | true ↦ elim (drain fuel now (requeue now t ts)) [
    | none ↦ none
    | some (run, left) ↦ some (t.callback ∷ run, left)
  ]
]

-- What `handleRead` runs, once `read` took the expirations off the descriptor; else nothing changes.
unfoldable pub handle_read : {C : Type 0} → Bool → ℕ → Timers C → Option (List C × Timers C)
unfolding drain reset_timer_fd
handle_read read_whole now s =
    if read_whole
    then elim (drain (suc (length s.nodes)) now s.nodes) [
      | none ↦ none
      | some (run, left) ↦ some (run, record { nodes = left; timer_fd = reset_timer_fd left })
    ]
    else some ([], s)
