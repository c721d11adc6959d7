-- ===== src/Net/EventLoop/Waking.antt =====
-- src/net/EventLoop.cpp: the loop's thread and any number of others, step by step: every functor runs
-- once and in order, and the loop does not sleep on a functor or on a call of quit.
use user_center.Base.{
  Bool, if◌then◌else◌, ◌<◌, ◌≡◌, ◌∙◌, ◌++◌, ◌⊎◌, inl, inr, refl, sym, ap, subst, List, [], ◌∷◌,
  true, false, arith, append_assoc, append-nil, if_true, if_false, Bool-cases,
}
use user_center.Net.EventLoop.{
  EventFd, EventLoop, Phase, stopped, polling, handling, running, wakeup, handle_wakeup, push,
  queue_in_loop, wakes_after_push, wakes_after_stop, stop, quit, begin, swap, create, end_round,
}
use user_center.Net.EventLoop.Steps.{
  EventFdLaws, Shared, is_handling, is_polling, is_running, in_callback, remaining, is_empty, fresh,
  moves, enters, Step, Runs, begins, polls, reads_eventfd, queues, quits, swaps, runs_one, ends,
  other_pushes, other_stops, other_queues, other_quits, other_wakes, here, after,
}

module _ {F W : Type 0} (eventfd : EventFd W) (laws : EventFdLaws eventfd) where
  -- The poll returns at once, or will when a thread has written what it is about to write.
  abbrev pub Wakes : Shared F W → Type 0
  Wakes s = (0 < s.waking) ⊎ (laws.readable s.loop.world ≡ true)

  pub record Invariant (s : Shared F W) : Type 0 where
    -- Each functor that was queued has run, or runs in this round, or waits: once, and in order.
    pub order : s.queued ≡ s.executed ++ remaining s.loop.phase ++ s.loop.pending
    pub awake : is_handling s.loop.phase ≡ false → is_empty s.loop.pending ≡ false → Wakes s
    pub heard : is_polling s.loop.phase ≡ true → s.loop.quitting ≡ true → Wakes s
    pub flag : s.loop.calling ≡ is_running s.loop.phase

  order_at :
      {s : Shared F W} (p : Phase F)
      → s.loop.phase ≡ p
      → Invariant s
      → s.queued ≡ s.executed ++ remaining p ++ s.loop.pending
  order_at {s} p e h = subst (λ q. s.queued ≡ s.executed ++ remaining q ++ s.loop.pending) e h.order

  awake_at :
      {s : Shared F W} (p : Phase F)
      → s.loop.phase ≡ p
      → is_handling p ≡ false
      → Invariant s
      → is_empty s.loop.pending ≡ false
      → Wakes s
  awake_at p e busy h = h.awake (ap is_handling e ∙ busy)

  push-order :
      (s : Shared F W) (f : F)
      → Invariant s
      → s.queued ++ f ∷ [] ≡ s.executed ++ remaining s.loop.phase ++ (s.loop.pending ++ f ∷ [])
  push-order s f h =
      ap (λ q. q ++ f ∷ []) h.order
      ∙ append_assoc (s.executed ++ remaining s.loop.phase) s.loop.pending (f ∷ [])

  -- A callback polls nothing, and outside the channels' callbacks the flag says that it runs.
  callback-cases :
      (p : Phase F)
      → in_callback p ≡ true
      → (is_polling p ≡ false) × ((is_handling p ≡ true) ⊎ (is_running p ≡ true))
  callback-cases stopped e = cc
  callback-cases polling e = cc
  callback-cases handling e = (refl, inl refl)
  callback-cases (running fs) e = (refl, inr refl)

  queues-Invariant :
      (s : Shared F W) (f : F)
      → in_callback s.loop.phase ≡ true
      → Invariant s
      → Invariant
          (record s { loop = queue_in_loop eventfd true f s.loop; queued = s.queued ++ f ∷ [] })
  unfolding queue_in_loop push wakeup wakes_after_push
  queues-Invariant s f e h =
      let (asleep, which) = callback-cases s.loop.phase e in
      let silent = push eventfd f s.loop in
      let loud = wakeup eventfd silent in
      let next : EventLoop F W → Shared F W =
        λ l. record s { loop = l; queued = s.queued ++ f ∷ [] } in
      elim (Bool-cases s.loop.calling) [
        | inl calling ↦
            subst (λ l. Invariant (next l)) (sym (if_true loud silent calling))
              (record {
                order = push-order s f h;
                awake = λ _ _. inr (laws.write_law s.loop.world);
                heard = λ _ _. inr (laws.write_law s.loop.world);
                flag = h.flag;
              })
        | inr quiet ↦
            let flag = h.flag in
            subst (λ l. Invariant (next l)) (sym (if_false loud silent quiet))
              (record {
                order = push-order s f h;
                awake = λ busy _. absurd (elim which [ inl a ↦ cc | inr b ↦ cc ]);
                heard = λ poll _. cc;
                flag = h.flag;
              })
      ]

  step-Invariant : {s t : Shared F W} → Step eventfd s t → Invariant s → Invariant t
  unfolding begin handle_wakeup quit stop swap end_round push wakeup queue_in_loop wakes_after_push
      wakes_after_stop
  step-Invariant {s} (begins e) h = record {
    order = order_at stopped e h;
    awake = λ _. awake_at stopped e refl h;
    heard = λ _ off. cc;
    flag = h.flag ∙ ap is_running e;
  }
  step-Invariant {s} (polls e) h = record {
    order = order_at polling e h;
    awake = λ busy _. cc;
    heard = λ poll _. cc;
    flag = h.flag ∙ ap is_running e;
  }
  step-Invariant {s} (reads_eventfd e) h = record {
    order = h.order;
    awake = λ busy _. absurd (let at = ap is_handling e in cc);
    heard = λ poll _. absurd (let at = ap is_polling e in cc);
    flag = h.flag;
  }
  step-Invariant {s} (queues f e) h = queues-Invariant s f e h
  step-Invariant {s} (quits e) h = record {
    order = h.order;
    awake = h.awake;
    heard = λ poll _. absurd (let at = (callback-cases s.loop.phase e).0 in cc);
    flag = h.flag;
  }
  step-Invariant {s} (swaps e) h = record {
    order =
        order_at handling e h
        ∙ ap (λ q. q ++ s.loop.pending) (append-nil s.executed)
        ∙ sym (append-nil (s.executed ++ s.loop.pending));
    awake = λ _ some_left. cc;
    heard = λ poll _. cc;
    flag = refl;
  }
  step-Invariant {s} (runs_one f rest e) h = record {
    order =
        order_at (running (f ∷ rest)) e h
        ∙ ap (λ q. q ++ s.loop.pending) (sym (append_assoc s.executed (f ∷ []) rest));
    awake = λ _. awake_at (running (f ∷ rest)) e refl h;
    heard = λ poll _. cc;
    flag = h.flag ∙ ap is_running e;
  }
  step-Invariant {s} (ends e) h = elim (Bool-cases s.loop.quitting) [
    | inl off ↦
        subst (λ p. Invariant (record s { loop = record (s.loop) { calling = false; phase = p } }))
          (sym (if_true _ _ off))
          (record {
            order = order_at (running []) e h;
            awake = λ _. awake_at (running []) e refl h;
            heard = λ poll _. cc;
            flag = refl;
          })
    | inr on ↦
        subst (λ p. Invariant (record s { loop = record (s.loop) { calling = false; phase = p } }))
          (sym (if_false _ _ on))
          (record {
            order = order_at (running []) e h;
            awake = λ _. awake_at (running []) e refl h;
            heard = λ _ off. cc;
            flag = refl;
          })
  ]
  step-Invariant {s} (other_pushes f) h = record {
    order = push-order s f h;
    awake = λ _ _. inl (omega arith);
    heard = λ _ _. inl (omega arith);
    flag = h.flag;
  }
  step-Invariant {s} other_stops h = record {
    order = h.order;
    awake = λ _ _. inl (omega arith);
    heard = λ _ _. inl (omega arith);
    flag = h.flag;
  }
  step-Invariant {s} (other_queues f) h = record {
    order = push-order s f h;
    awake = λ _ _. inr (laws.write_law s.loop.world);
    heard = λ _ _. inr (laws.write_law s.loop.world);
    flag = h.flag;
  }
  step-Invariant {s} other_quits h = record {
    order = h.order;
    awake = λ _ _. inr (laws.write_law s.loop.world);
    heard = λ _ _. inr (laws.write_law s.loop.world);
    flag = h.flag;
  }
  step-Invariant {s} (other_wakes n e) h = record {
    order = h.order;
    awake = λ _ _. inr (laws.write_law s.loop.world);
    heard = λ _ _. inr (laws.write_law s.loop.world);
    flag = h.flag;
  }

  kept : {s t : Shared F W} → Runs eventfd s t → Invariant s → Invariant t
  kept here h = h
  kept (after step rest) h = kept rest (step-Invariant step h)

  -- Whatever the threads do with a new loop, in whatever order: a functor that was queued has run, or
  -- is among those of this round, or waits, each once and in the order of the queue; and when the
  -- loop's thread is in the poll with a functor that waits, or with the flag of quit set, the eventfd
  -- is readable or a thread is about to write to it.
  pub runs-Invariant : (w : W) (t : Shared F W) → Runs eventfd (fresh eventfd w) t → Invariant t
  unfolding create
  runs-Invariant w t runs =
      kept runs
        (record { order = refl; awake = λ _ some_left. cc; heard = λ poll _. cc; flag = refl })

-- Where the loop's thread is when a round has ended.
abbrev pub round_end : {F : Type 0} → Bool → Phase F
round_end quitting = if quitting then stopped else polling

module _ {F W : Type 0} (eventfd : EventFd W) where
  drains :
      (fs : List F) (s : Shared F W)
      → s.loop.phase ≡ running fs
      → (t : Shared F W) × Runs eventfd s t
        × (t.executed ≡ s.executed ++ fs)
        × (t.loop.phase ≡ round_end s.loop.quitting)
  unfolding end_round
  drains [] s e =
      (moves eventfd (end_round eventfd) s, after (ends e) here, sym (append-nil s.executed), refl)
  drains (f ∷ rest) s e =
      let (t, runs, all, out) =
        drains rest (record (enters eventfd (running rest) s) { executed = s.executed ++ f ∷ [] })
          refl in
      (t, after (runs_one f rest e) runs, all ∙ append_assoc s.executed (f ∷ []) rest, out)

  -- From the callbacks of the channels the loop's thread can always go on to the end of its round, by
  -- its own steps: it has then run all the functors that were waiting, and polls again, or has left
  -- the loop if the flag of quit was set.
  pub round-Runs :
      (s : Shared F W)
      → s.loop.phase ≡ handling
      → (t : Shared F W) × Runs eventfd s t
        × (t.executed ≡ s.executed ++ s.loop.pending)
        × (t.loop.phase ≡ round_end s.loop.quitting)
  unfolding swap
  round-Runs s e =
      let (t, runs, all, out) = drains s.loop.pending (moves eventfd (swap eventfd) s) refl in
      (t, after (swaps e) runs, all, out)
