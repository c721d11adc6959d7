-- ===== src/Db/Pool/Waiting.antt =====
-- src/db/MySQLConnectionPool.cpp: the callers that wait on `cond_`. A caller whose condition fails sleeps
-- until it is notified, or wakes up for no reason, and then takes the mutex again and tests anew.
pub mod Sleepers
use user_center.Base.{
  ℕ, suc, Option, none, some, ◌+◌, ◌-◌, ◌<◌, ◌≤◌, ◌≡◌, ◌∙◌, refl, sym, ap, subst, List, [], ◌∷◌,
  ◌++◌, Bool, true, false, ◌||◌, arith, ltb, length, length-append, if◌then◌else◌, if_true,
  if_false, Bool-cases, inl, inr,
}
use user_center.Db.Pool.{
  ConnectionPool, Answers, Outcome, waits, null, leased, can_serve, hand_out, open_new, pick,
  get_connection, return_connection, close_all, init, new_pool, is_none,
}

-- The pool with the callers that sleep, and those that were notified and have not yet the mutex.
pub record WaitingPool (C : Type 0) : Type 0 where
  pub pool : ConnectionPool C
  pub asleep : ℕ
  pub woken : ℕ

module _ {C : Type 0} where
  unfoldable pub notify_one : WaitingPool C → WaitingPool C
  notify_one r =
      if ltb 0 r.asleep then record r { asleep = r.asleep - 1; woken = r.woken + 1 } else r

  unfoldable pub notify_all : WaitingPool C → WaitingPool C
  notify_all r = record r { asleep = 0; woken = r.woken + r.asleep }

  -- `cond_.wait` sends the caller to sleep, or the call ends.
  unfoldable pub after_wait : Outcome C → WaitingPool C → WaitingPool C
  after_wait waits r = record r { asleep = r.asleep + 1 }
  after_wait (null p) r = record r { pool = p }
  after_wait (leased c p) r = record r { pool = p }

  unfoldable pub ask_connection : Answers C → WaitingPool C → WaitingPool C
  unfolding after_wait get_connection
  ask_connection a r = after_wait (get_connection a r.pool) r

  -- A connection that comes back is announced to one caller, unless the pool is closed.
  unfoldable pub return_and_notify : C → WaitingPool C → WaitingPool C
  unfolding notify_one return_connection
  return_and_notify c r =
      let back : WaitingPool C = record r { pool = return_connection c r.pool } in
      if r.pool.stop then back else notify_one back

  unfoldable pub close_and_notify : WaitingPool C → WaitingPool C
  unfolding notify_all close_all
  close_and_notify r = notify_all (record r { pool = close_all r.pool })

  -- A connection that is not up comes up again at the first attempt.
  abbrev pub Reconnects : Answers C → Type 0
  Reconnects a = (c : C) → (a.is_up c || a.connects c) ≡ true

  -- What the callers do: one asks, one that was notified goes on, one wakes up for no reason, one gives a
  -- connection back, or one closes the pool.
  pub data Calls : WaitingPool C → WaitingPool C → Type 0 where
    here : {r : WaitingPool C} → Calls r r
    asks :
        {r s : WaitingPool C} (a : Answers C)
        → Reconnects a
        → Calls (ask_connection a r) s
        → Calls r s
    goes_on :
        {r s : WaitingPool C} (a : Answers C) (n : ℕ)
        → Reconnects a
        → r.woken ≡ suc n
        → Calls (ask_connection a (record r { woken = n })) s
        → Calls r s
    wakes_up :
        {r s : WaitingPool C} (a : Answers C) (n : ℕ)
        → Reconnects a
        → r.asleep ≡ suc n
        → Calls (ask_connection a (record r { asleep = n })) s
        → Calls r s
    gives_back : {r s : WaitingPool C} (c : C) → Calls (return_and_notify c r) s → Calls r s
    closes : {r s : WaitingPool C} → Calls (close_and_notify r) s → Calls r s

  -- While callers sleep, all places are taken, and each idle connection was announced to a caller that is
  -- on its way; nobody sleeps on a closed pool. `late` is one that has the mutex.
  pub record Announced (late : ℕ) (r : WaitingPool C) : Type 0 where
    pub full : 0 < r.asleep → r.pool.max_size ≤ r.pool.current_size
    pub on_the_way : 0 < r.asleep → length r.pool.idle ≤ r.woken + late
    pub unless_closed : r.pool.stop ≡ true → r.asleep ≡ 0
