-- ===== src/Net/EventLoop/Steps.antt =====
-- src/net/EventLoop.cpp: the steps of the loop's thread and of the others.
use user_center.Base.{ℕ, suc, ◌≡◌, ◌++◌, List, [], ◌∷◌, Bool, true, false, if◌then◌else◌}
use user_center.Net.EventLoop.{
  EventFd, EventLoop, Phase, stopped, polling, handling, running, wakeup, handle_wakeup, push,
  queue_in_loop, wakes_after_push, wakes_after_stop, stop, quit, begin, swap, create, end_round,
}

-- What eventfd(2) documents: after a write the descriptor is readable.
pub record EventFdLaws {W : Type 0} (eventfd : EventFd W) : Type 0 where
  pub readable : W → Bool
  pub write_law : (w : W) → readable (eventfd.write w) ≡ true

-- The loop with the history of its queue. `waking` counts the other threads that have queued a functor
-- or set the flag, and have not yet written to the eventfd.
pub record Shared (F W : Type 0) : Type 0 where
  pub loop : EventLoop F W
  pub waking : ℕ
  pub queued : List F
  pub executed : List F

abbrev pub is_handling : {F : Type 0} → Phase F → Bool
is_handling handling = true
is_handling _ = false

abbrev pub is_polling : {F : Type 0} → Phase F → Bool
is_polling polling = true
is_polling _ = false

abbrev pub is_running : {F : Type 0} → Phase F → Bool
is_running (running _) = true
is_running _ = false

-- The loop's thread is in a callback or in a functor.
abbrev pub in_callback : {F : Type 0} → Phase F → Bool
in_callback handling = true
in_callback (running _) = true
in_callback _ = false

-- The functors of this round that have not begun.
abbrev pub remaining : {F : Type 0} → Phase F → List F
remaining (running fs) = fs
remaining _ = []

abbrev pub is_empty : {F : Type 0} → List F → Bool
is_empty [] = true
is_empty (_ ∷ _) = false

module _ {F W : Type 0} (eventfd : EventFd W) where
  -- A new loop.
  abbrev pub fresh : W → Shared F W
  fresh w = record { loop = create eventfd w; waking = 0; queued = []; executed = [] }

  abbrev pub moves : (EventLoop F W → EventLoop F W) → Shared F W → Shared F W
  moves f s = record s { loop = f s.loop }

  abbrev pub enters : Phase F → Shared F W → Shared F W
  enters p s = record s { loop = record (s.loop) { phase = p } }

  -- The steps of the loop's thread, then those of the others. A call of another thread may be cut in two
  -- after its critical section, or go through at once.
  pub data Step : Shared F W → Shared F W → Type 0 where
    begins : {s : Shared F W} → s.loop.phase ≡ stopped → Step s (moves (begin eventfd) s)
    polls : {s : Shared F W} → s.loop.phase ≡ polling → Step s (enters handling s)
    reads_eventfd :
        {s : Shared F W} → s.loop.phase ≡ handling → Step s (moves (handle_wakeup eventfd) s)
    queues :
        {s : Shared F W} (f : F)
        → in_callback s.loop.phase ≡ true
        → Step s
            (record s { loop = queue_in_loop eventfd true f s.loop; queued = s.queued ++ f ∷ [] })
    quits :
        {s : Shared F W} → in_callback s.loop.phase ≡ true → Step s (moves (quit eventfd true) s)
    swaps : {s : Shared F W} → s.loop.phase ≡ handling → Step s (moves (swap eventfd) s)
    runs_one :
        {s : Shared F W} (f : F) (rest : List F)
        → s.loop.phase ≡ running (f ∷ rest)
        → Step s (record (enters (running rest) s) { executed = s.executed ++ f ∷ [] })
    ends : {s : Shared F W} → s.loop.phase ≡ running [] → Step s (moves (end_round eventfd) s)
    other_pushes :
        {s : Shared F W} (f : F)
        → Step s (record s {
          loop = push eventfd f s.loop;
          waking = if wakes_after_push false s.loop then suc s.waking else s.waking;
          queued = s.queued ++ f ∷ [];
        })
    other_queues :
        {s : Shared F W} (f : F)
        → Step s
            (record s { loop = queue_in_loop eventfd false f s.loop; queued = s.queued ++ f ∷ [] })
    other_quits : {s : Shared F W} → Step s (moves (quit eventfd false) s)
    other_stops :
        {s : Shared F W}
        → Step s (record s {
          loop = stop eventfd s.loop;
          waking = if wakes_after_stop false then suc s.waking else s.waking;
        })
    other_wakes :
        {s : Shared F W} (n : ℕ)
        → s.waking ≡ suc n
        → Step s (record s { loop = wakeup eventfd s.loop; waking = n })

  pub data Runs : Shared F W → Shared F W → Type 0 where
    here : {s : Shared F W} → Runs s s
    after : {s t u : Shared F W} → Step s t → Runs t u → Runs s u
