-- ===== src/Examples/Runtime.antt =====
-- The pools, the timers and the router at concrete inputs.
use user_center.Base.{
  ℕ, List, [], ◌∷◌, ◌++◌, none, some, true, false, Bytes, codes, ◌≡◌, refl, arith, bytes_eq,
}
use user_center.Db.Pool.{
  ConnectionPool, Answers, init, new_pool, get_connection, return_connection, leased, increment,
  add_created, create_initial, is_none, can_serve, hand_out, pick,
}
use user_center.Db.Pool.Waiting.{
  WaitingPool, notify_one, after_wait, ask_connection, return_and_notify, asks, gives_back, here,
  Announced,
}
use user_center.Db.Pool.Waiting.Sleepers.{calls-Announced}
use user_center.Db.Pool.Count.{Steps, start, lease, IsCounted, Steps-IsCounted}
use user_center.Net.TimerQueue.{Timers, milliseconds, push, add_timer_in_loop, handle_read}
use user_center.Net.TimerQueue.Drain.{IsReady, AllFrom, due, add_timer-IsReady, handle_read_lem}
use user_center.ThreadPool.{
  TaskPool, submit, is_full, queued, stopped, worker_turn, next_task, runs, exits, begin_cleanup,
  end_cleanup,
}
use user_center.ThreadPool.Run.{
  History, accept, take_task, cleanup, IsFifo, History-IsFifo, exit-all_taken,
}
use user_center.ThreadPool.Run
use user_center.Http.Request.{HttpRequest, Method, empty_request}
use user_center.Router.{RouteKey, same_key, add_route, choose, find_route, put_route}
use user_center.Router.Matching.{add_route-choose}

-- A connector that opens connection 1 and finds every connection alive.
abbrev answers : Answers ℕ
answers = record { created = some 1; is_up = λ c. true; connects = λ c. true }

-- A pool of one connection, and the same with that connection leased.
abbrev one : ConnectionPool ℕ
one = init 1 1 (λ i. some 1) new_pool

abbrev none_idle : ConnectionPool ℕ
none_idle = record { idle = []; current_size = 1; min_size = 1; max_size = 1; stop = false }

lease_one : get_connection answers one ≡ leased 1 none_idle
unfolding get_connection init create_initial add_created increment new_pool can_serve is_none pick
    hand_out
lease_one = refl

one_leased : Steps none_idle 1
one_leased =
    lease answers one none_idle 0 1 (start 1 1 (λ i. some 1) (omega arith) (omega arith)) lease_one

Steps-IsCounted_example : IsCounted none_idle 1
Steps-IsCounted_example = Steps-IsCounted none_idle 1 one_leased

-- One caller has the only connection, a second one sleeps, and the connection comes back.
abbrev idle_pool : WaitingPool ℕ
idle_pool = record { pool = one; asleep = 0; woken = 0 }

abbrev came_back : WaitingPool ℕ
came_back = return_and_notify 1 (ask_connection answers (ask_connection answers idle_pool))

calls-Announced_example : Announced 0 came_back
calls-Announced_example =
    calls-Announced 1 1 (λ i. some 1) came_back
      (asks answers (λ c. refl) (asks answers (λ c. refl) (gives_back 1 here)))

came_back-woken : (came_back.asleep ≡ 0) × (came_back.woken ≡ 1)
unfolding get_connection init create_initial add_created increment new_pool can_serve is_none pick
    hand_out ask_connection after_wait return_and_notify return_connection notify_one
came_back-woken = (refl, refl)

-- A timer every 2 ms from the time 1 ms on, and one shot at 5 ms.
abbrev two_timers : Timers ℕ
two_timers =
    add_timer_in_loop 0 5 8 false
      (add_timer_in_loop 0 2 7 true (record { nodes = []; timer_fd = (0, 0) }))

no_timers : IsReady {C = ℕ} (record { nodes = []; timer_fd = (0, 0) })
no_timers = record { sorted = tt; armed = refl }

two_timers-IsReady : IsReady two_timers
two_timers-IsReady = add_timer-IsReady 0 5 8 false _ (add_timer-IsReady 0 2 7 true _ no_timers)

handle_read_lem_example :
    (v : Timers ℕ) × (handle_read true 6000000 two_timers ≡ some (due 6000000 two_timers.nodes, v))
    × IsReady v
    × AllFrom 6000001 v.nodes
handle_read_lem_example = handle_read_lem 6000000 two_timers two_timers-IsReady

-- What runs: the periodic timer once, though three of its periods went by, and the one shot.
both_run : due 6000000 (two_timers.nodes) ≡ 7 ∷ 8 ∷ []
unfolding add_timer_in_loop push milliseconds
both_run = refl

-- Task 5 is submitted and taken, then the pool is stopped.
abbrev pool_with : List ℕ → TaskPool ℕ
pool_with ts = record { tasks = ts; stop = false; max_queue_size = 20 }

accepted_five : submit 5 (pool_with []) ≡ queued (pool_with (5 ∷ []))
unfolding submit is_full
accepted_five = refl

taken_five : worker_turn (pool_with (5 ∷ [])) ≡ runs 5 (pool_with [])
unfolding worker_turn next_task
taken_five = refl

waiting : History 20 (pool_with (5 ∷ [])) (5 ∷ []) []
waiting = accept 5 (pool_with []) (pool_with (5 ∷ [])) [] [] Run.start accepted_five

finished : History 20 (begin_cleanup (pool_with [])) (5 ∷ []) (5 ∷ [])
finished =
    cleanup (pool_with []) (5 ∷ []) (5 ∷ [])
      (take_task 5 (pool_with (5 ∷ [])) (pool_with []) (5 ∷ []) [] waiting taken_five)

worker_exits : worker_turn (begin_cleanup (pool_with [])) ≡ exits
unfolding worker_turn next_task begin_cleanup
worker_exits = refl

History-IsFifo_example : IsFifo 20 (pool_with (5 ∷ [])) (5 ∷ []) []
History-IsFifo_example = History-IsFifo 20 (pool_with (5 ∷ [])) (5 ∷ []) [] waiting

exit-all_taken_example :
    (◌≡◌ {A = List ℕ} (5 ∷ []) (5 ∷ []))
    × (end_cleanup (begin_cleanup (pool_with [])) ≡ begin_cleanup (pool_with []))
    × (submit 6 (begin_cleanup (pool_with [])) ≡ stopped)
exit-all_taken_example =
    exit-all_taken 20 (begin_cleanup (pool_with [])) (5 ∷ []) (5 ∷ []) 6 finished worker_exits

-- `GET /api/user/` with the route `GET /api/user`.
abbrev user_path : Bytes
user_path = codes "/api/user"

abbrev user_request : HttpRequest
user_request = record empty_request { method = Method.get; path = codes "/api/user/" }

abbrev one_route : List (RouteKey × ℕ)
one_route = add_route user_path Method.get 1 []

abbrev post_key : RouteKey
post_key = record { path = user_path; method = Method.post }

no_slash_route :
    find_route (record { path = user_path ++ codes "/"; method = Method.get }) one_route ≡ none
unfolding add_route put_route find_route same_key bytes_eq
no_slash_route = refl

post_differs : same_key (record { path = user_path; method = Method.get }) post_key ≡ false
unfolding same_key bytes_eq
post_differs = refl

add_route-choose_example :
    (choose (record user_request { path = user_path }) one_route ≡ some 1)
    × (choose user_request one_route ≡ some 1)
    × (find_route post_key one_route ≡ find_route post_key [])
add_route-choose_example =
    add_route-choose Method.get 1 [] b'/' (codes "api/user") user_request post_key refl
      no_slash_route post_differs
