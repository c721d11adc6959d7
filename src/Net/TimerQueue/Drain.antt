-- ===== src/Net/TimerQueue/Drain.antt =====
-- src/net/TimerQueue.cpp: what one expiry of the timerfd does. The loop of handleRead ends, it runs
-- each timer that is due once, and it leaves only timers in the future.
use native.Mathlib.Nat.{mod-lt, div-add-mod', suc-mul, mul-mod_left}
use user_center.Base.{
  ℕ, zero, suc, ◌+◌, ◌-◌, ◌*◌, ◌/◌, ◌%◌, ◌<◌, ◌≤◌, ◌≡◌, List, [], ◌∷◌, some, Bool, true, false, ltb,
  ltb→lt, leb→le, leb, length, if◌then◌else◌, refl, ap, ◌∙◌, Bool-cases, inl, inr, arith,
}
use user_center.Net.TimerQueue.{
  TimerNode, Timers, milliseconds, push, reset_timer_fd, add_timer_in_loop, next_expire, requeue,
  drain, handle_read,
}

-- Every timer of the list expires at `t` or later.
abbrev pub AllFrom : {C : Type 0} → ℕ → List (TimerNode C) → Type 0
AllFrom t [] = Unit {0}
AllFrom t (n ∷ ns) = (t ≤ n.expire_time) × AllFrom t ns

abbrev pub IsSorted : {C : Type 0} → List (TimerNode C) → Type 0
IsSorted [] = Unit {0}
IsSorted (n ∷ ns) = AllFrom n.expire_time ns × IsSorted ns

-- The callbacks of the timers that are due.
abbrev pub due : {C : Type 0} → ℕ → List (TimerNode C) → List C
due now [] = []
due now (n ∷ ns) =
    let rest = due now ns in if leb n.expire_time now then n.callback ∷ rest else rest

AllFrom-le : {C : Type 0} (s t : ℕ) (ns : List (TimerNode C)) → s ≤ t → AllFrom t ns → AllFrom s ns
AllFrom-le s t [] h a = tt
AllFrom-le s t (n ∷ ns) h (b, a) = (omega arith, AllFrom-le s t ns h a)

push-AllFrom :
    {C : Type 0} (s : ℕ) (n : TimerNode C) (ts : List (TimerNode C))
    → s ≤ n.expire_time
    → AllFrom s ts
    → AllFrom s (push n ts)
unfolding push
push-AllFrom s n [] h a = (h, tt)
push-AllFrom s n (t ∷ ts) h (b, a) = elim (Bool-cases (ltb n.expire_time t.expire_time)) [
  | inl e ↦ rw e (h, (b, a))
  | inr e ↦ rw e (b, push-AllFrom s n ts h a)
]

pub push-IsSorted :
    {C : Type 0} (n : TimerNode C) (ts : List (TimerNode C)) → IsSorted ts → IsSorted (push n ts)
unfolding push
push-IsSorted n [] s = (tt, tt)
push-IsSorted n (t ∷ ts) (a, s) = elim (Bool-cases (ltb n.expire_time t.expire_time)) [
  | inl e ↦
      let h = ltb→lt n.expire_time t.expire_time e in
      rw e ((omega arith, AllFrom-le n.expire_time t.expire_time ts (omega arith) a), (a, s))
  | inr e ↦ rw e (push-AllFrom t.expire_time n ts (ground arith) a, push-IsSorted n ts s)
]

is_due : (t now : ℕ) → now < t → leb t now ≡ false
is_due t now h = ground arith

due-head :
    {C : Type 0} (now : ℕ) (t : TimerNode C) (ts : List (TimerNode C))
    → now < t.expire_time
    → due now (t ∷ ts) ≡ due now ts
due-head now t ts h = rw (is_due t.expire_time now h)

-- A timer in the future does not change what is due.
due-push :
    {C : Type 0} (now : ℕ) (n : TimerNode C) (ts : List (TimerNode C))
    → now < n.expire_time
    → due now (push n ts) ≡ due now ts
unfolding push
due-push now n [] h = due-head now n [] h
due-push now n (t ∷ ts) h = elim (Bool-cases (ltb n.expire_time t.expire_time)) [
  | inl e ↦ rw e (due-head now n (t ∷ ts) h)
  | inr e ↦
      rw e (
        ap (λ rest. if leb t.expire_time now then t.callback ∷ rest else rest)
          (due-push now n ts h))
]

later-due :
    {C : Type 0} (now : ℕ) (ts : List (TimerNode C)) → AllFrom (suc now) ts → due now ts ≡ []
later-due now [] a = refl
later-due now (t ∷ ts) (b, a) = due-head now t ts b ∙ later-due now ts a

next_round : (q d : ℕ) → (q + 1) * d ≡ q * d + d
next_round q d = ap (λ x. x * d) (omega arith) ∙ suc-mul q d

-- A periodic timer that is due gets a time in the future, at most one interval ahead, on its own grid.
pub next_expire_lem :
    (now expire interval : ℕ)
    → expire ≤ now
    → 0 < interval
    → (now < next_expire now expire interval)
      × (next_expire now expire interval ≤ now + milliseconds interval)
      × ((next_expire now expire interval - expire) % milliseconds interval ≡ 0)
unfolding next_expire milliseconds
next_expire_lem now expire interval h i =
    let d = interval * 1000000 in
    let q = (now - expire) / d in
    let small = mod-lt (now - expire) {m = d} (omega arith) in
    let split = div-add-mod' (now - expire) d in
    let grown = next_round q d in
    let gap : expire + (q + 1) * d - expire ≡ (q + 1) * d = omega arith in
    (omega arith, omega arith, ap (λ x. x % d) gap ∙ mul-mod_left (q + 1) d)

requeue_lem :
    {C : Type 0} (now : ℕ) (t : TimerNode C) (ts : List (TimerNode C))
    → t.expire_time ≤ now
    → IsSorted ts
    → IsSorted (requeue now t ts) × (due now (requeue now t ts) ≡ due now ts)
unfolding requeue
requeue_lem now t ts h s = elim (Bool-cases (ltb 0 t.interval_ms)) [
  | inl e ↦
      let (future, _, _) =
        next_expire_lem now t.expire_time t.interval_ms h (ltb→lt 0 t.interval_ms e) in
      let again : TimerNode _ = record t {
        expire_time = next_expire now t.expire_time t.interval_ms;
      } in
      rw e (push-IsSorted again ts s, due-push now again ts future)
  | inr e ↦ rw e (s, refl)
]

-- One round, for a timer that is due.
drain_due :
    {C : Type 0} (fuel now : ℕ) (t : TimerNode C) (ts : List (TimerNode C)) (run : List C)
    (left : List (TimerNode C))
    → leb t.expire_time now ≡ true
    → drain fuel now (requeue now t ts) ≡ some (run, left)
    → drain (suc fuel) now (t ∷ ts)
      ≡ some (if leb t.expire_time now then t.callback ∷ run else run, left)
unfolding drain
drain_due fuel now t ts run left e runs = rw (e, runs, drain)

-- With more fuel than timers that are due, the loop ends.
drain_lem :
    {C : Type 0} (fuel now : ℕ) (ts : List (TimerNode C))
    → IsSorted ts
    → length (due now ts) < fuel
    → (left : List (TimerNode C)) × (drain fuel now ts ≡ some (due now ts, left))
      × IsSorted left
      × AllFrom (suc now) left
unfolding drain
drain_lem zero now ts s h = absurd (omega arith)
drain_lem (suc fuel) now [] s h = ([], refl, tt, tt)
drain_lem (suc fuel) now (t ∷ ts) (a, s) h = elim (Bool-cases (leb t.expire_time now)) [
  | inl e ↦
      let now_due = leb→le t.expire_time now e in
      let counted = ap (λ b. length (if b then t.callback ∷ due now ts else due now ts)) e in
      let (again, same) = requeue_lem now t ts now_due s in
      let (left, runs, sorted, later) =
        drain_lem fuel now (requeue now t ts) again (omega (arith, counted, ap length same)) in
      (
        left,
        drain_due fuel now t ts (due now ts) left e (runs ∙ ap (λ run. some (run, left)) same),
        sorted,
        later,
      )
  | inr e ↦
      let future : now < t.expire_time = ground arith in
      let rest = AllFrom-le (suc now) t.expire_time ts future a in
      (t ∷ ts, rw (e, later-due now ts rest, drain), (a, s), (future, rest))
]

length-due : {C : Type 0} (now : ℕ) (ts : List (TimerNode C)) → length (due now ts) ≤ length ts
length-due now [] = omega arith
length-due now (t ∷ ts) = elim (Bool-cases (leb t.expire_time now)) [
  | inl e ↦ rw e (omega (arith, length-due now ts))
  | inr e ↦ rw e (omega (arith, length-due now ts))
]

-- The time that the descriptor is armed for.
abbrev pub armed_time : ℕ × ℕ → ℕ
armed_time (sec, nsec) = sec * 1000000000 + nsec

-- The descriptor is armed for the earliest timer, or disarmed where there is none.
abbrev pub IsArmed : {C : Type 0} → List (TimerNode C) → ℕ × ℕ → Type 0
IsArmed [] fd = fd ≡ (0, 0)
IsArmed (t ∷ ts) fd = (armed_time fd ≡ t.expire_time) × (fd.1 < 1000000000)

reset-IsArmed : {C : Type 0} (ts : List (TimerNode C)) → IsArmed ts (reset_timer_fd ts)
unfolding reset_timer_fd
reset-IsArmed [] = refl
reset-IsArmed (t ∷ ts) = (omega arith, omega arith)

-- The queue of a timer set, with the descriptor armed for its first timer.
pub record IsReady {C : Type 0} (s : Timers C) : Type 0 where
  pub sorted : IsSorted s.nodes
  pub armed : IsArmed s.nodes s.timer_fd

-- Adding a timer keeps the queue sorted and the descriptor armed for its first timer.
pub add_timer-IsReady :
    {C : Type 0} (now ms : ℕ) (cb : C) (repeat : Bool) (s : Timers C)
    → IsReady s
    → IsReady (add_timer_in_loop now ms cb repeat s)
unfolding add_timer_in_loop
add_timer-IsReady now ms cb repeat s v = record {
  sorted = push-IsSorted _ s.nodes v.sorted;
  armed = reset-IsArmed (push _ s.nodes);
}

-- An expiry of the descriptor: the loop ends, it runs exactly the callbacks of the timers that were
-- due, each once and in the order of their times, and every timer that is left expires in the future,
-- with the descriptor armed for the first of them.
pub handle_read_lem :
    {C : Type 0} (now : ℕ) (s : Timers C)
    → IsReady s
    → (v : Timers C) × (handle_read true now s ≡ some (due now s.nodes, v))
      × IsReady v
      × AllFrom (suc now) v.nodes
unfolding handle_read
handle_read_lem now s r =
    let few : length (due now s.nodes) < suc (length s.nodes) =
      omega (arith, length-due now s.nodes) in
    let (left, runs, sorted, later) = drain_lem (suc (length s.nodes)) now s.nodes r.sorted few in
    (
      record { nodes = left; timer_fd = reset_timer_fd left },
      rw runs refl,
      record { sorted = sorted; armed = reset-IsArmed left },
      later,
    )
