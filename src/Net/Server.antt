-- ===== src/Net/Server.antt =====
-- include/net/TcpServer.h and src/net/TcpServer.cpp: the table of connections, and the check for idle
-- ones. A shared pointer to a connection is a number, and `objects` holds what it points to; a connection that is closed stays
-- there as long as a timer may hold it. `held` says which objects something besides the table owns: a
-- timer or the task of a worker.
pub mod Table
pub mod Serving
use user_center.Base.{
  ℕ, ◌+◌, List, [], ◌∷◌, ◌++◌, Option, none, some, Bool, true, false, if◌then◌else◌, ◌==◌,
}
use user_center.Net.TimerQueue.{Timers, add_timer_in_loop}
use user_center.Net.Connection.{
  bind, Kernel, Connection, Link, create, is_idle, remove_connection, shutdown,
}

-- What the timers of the server call.
pub data Task : Type 0 where
  check_idle : Task
  closes : ℕ → Task

pub record TcpServer (W : Type 0) : Type 0 where
  pub connections : List (ℕ × ℕ)
  pub objects : ℕ → Connection
  pub created : ℕ
  pub timers : Timers Task
  pub held : ℕ → Bool
  pub world : W

-- The table as std::unordered_map: `find`, `operator[]` with an assignment, and `erase`.
unfoldable pub find : ℕ → List (ℕ × ℕ) → Option ℕ
find fd [] = none
find fd ((k, p) ∷ rest) = let found = find fd rest in if fd == k then some p else found

unfoldable pub erase : ℕ → List (ℕ × ℕ) → List (ℕ × ℕ)
erase fd [] = []
erase fd ((k, p) ∷ rest) = let kept = erase fd rest in if fd == k then kept else (k, p) ∷ kept

unfoldable pub put : ℕ → ℕ → List (ℕ × ℕ) → List (ℕ × ℕ)
unfolding erase
put fd p table = (fd, p) ∷ erase fd table

unfoldable pub store : ℕ → Connection → (ℕ → Connection) → ℕ → Connection
store p c objects q = if q == p then c else objects q

module _ {W : Type 0} (kernel : Kernel W) where
  -- The new connection enters the table.
  unfoldable pub enlist : ℕ → TcpServer W → Link W → TcpServer W
  unfolding put store
  enlist fd s l = record s {
    connections = put fd s.created s.connections;
    objects = store s.created l.conn s.objects;
    created = s.created + 1;
    world = l.world;
  }

  unfoldable pub on_new_connection : ℕ → TcpServer W → Option (TcpServer W)
  unfolding enlist create
  on_new_connection fd s = bind (create kernel fd s.world) (λ l. some (enlist fd s l))

  -- The table forgets the descriptor, whichever connection stands there.
  unfoldable pub delist : ℕ → TcpServer W → Link W → TcpServer W
  unfolding erase store
  delist p s l = record s {
    connections = erase (s.objects p).channel.fd s.connections;
    objects = store p l.conn s.objects;
    world = l.world;
  }

  unfoldable pub on_connection_closed : ℕ → TcpServer W → Option (TcpServer W)
  unfolding delist remove_connection
  on_connection_closed p s =
      bind (remove_connection kernel (record { conn = s.objects p; world = s.world }))
        (λ l. some (delist p s l))

  unfoldable pub force_close : ℕ → TcpServer W → Option (TcpServer W)
  unfolding on_connection_closed
  force_close p s = on_connection_closed p s

  -- An idle connection is closed by a timer that is due at once.
  unfoldable pub check_idle_timeout : ℕ → ℕ → TcpServer W → TcpServer W
  unfolding is_idle add_timer_in_loop
  check_idle_timeout seconds p s =
      if is_idle (kernel.clock s.world) seconds (s.objects p)
      then record s {
        timers = add_timer_in_loop (kernel.clock s.world) 0 (closes p) false s.timers;
      }
      else s

  unfoldable pub check_each : ℕ → List (ℕ × ℕ) → TcpServer W → TcpServer W
  unfolding check_idle_timeout
  check_each seconds [] s = s
  check_each seconds ((fd, p) ∷ rest) s = check_each seconds rest (check_idle_timeout seconds p s)

  unfoldable pub check_idle_connections : ℕ → TcpServer W → TcpServer W
  unfolding check_each
  check_idle_connections seconds s = check_each seconds s.connections s

  unfoldable pub start : TcpServer W → TcpServer W
  unfolding add_timer_in_loop
  start s = record s {
    timers = add_timer_in_loop (kernel.clock s.world) 10000 check_idle true s.timers;
  }

  -- The callbacks of the timers.
  unfoldable pub run_task : Task → TcpServer W → Option (TcpServer W)
  unfolding check_idle_connections force_close
  run_task check_idle s = some (check_idle_connections 120 s)
  run_task (closes p) s = force_close p s

  unfoldable pub shutdown_each : List (ℕ × ℕ) → TcpServer W → TcpServer W
  unfolding shutdown
  shutdown_each [] s = s
  shutdown_each ((fd, p) ∷ rest) s =
      let l = shutdown kernel (record { conn = s.objects p; world = s.world }) in
      shutdown_each rest (record s { world = l.world })

  -- The destructor.
  unfoldable pub end_server : TcpServer W → TcpServer W
  unfolding shutdown_each
  end_server s = shutdown_each s.connections s
