-- ===== src/Main/SetUp.antt =====
-- main.cpp: what `main` builds before it enters the loop, with its numbers, and the handler of SIGINT.
-- The files of the logger and the clients of MySQL and Redis are opened by parts of their own.
pub mod Start
use user_center.Base.{
  ℕ, [], Option, none, some, Bool, true, false, Bytes, codes, if◌then◌else◌, ◌==◌,
}
use user_center.Buffer.{init, initial_size}
use user_center.Http.Context.{reset}
use user_center.Db.Pool
use user_center.Db.Pool.{ConnectionPool, new_pool}
use user_center.ThreadPool.{TaskPool, thread_count}
use user_center.Net.Channel.{new_channel}
use user_center.Net.Connection.{Kernel, Connection}
use user_center.Net.EventLoop.{EventFd, EventLoop, create, quit}
use user_center.Net.Acceptor.{Sockets, Acceptor, Opened, opened, aborted, open_acceptor}
use user_center.Net.Server.{TcpServer, start}
use user_center.Net.InetAddr.{AddressCalls, InetAddr, inet_addr}

abbrev pub sigint : ℕ
sigint = 2

module _ {F V : Type 0} (eventfd : EventFd V) where
  -- `g_loop` is the null pointer before `main` has stored its loop.
  unfoldable pub signal_handler : Bool → ℕ → Option (EventLoop F V) → Option (EventLoop F V)
  unfolding quit
  signal_handler in_thread sig none = none
  signal_handler in_thread sig (some l) =
      if sig == sigint then some (quit eventfd in_thread l) else some l

-- `init(…, 5, 20)` of the pool of connections, and `Config(6, 20)` of the pool of threads.
unfoldable pub main_pool : {C : Type 0} → (ℕ → Option C) → ConnectionPool C
main_pool created = Pool.init 5 20 created new_pool

unfoldable pub main_tasks : {T : Type 0} → TaskPool T
main_tasks = record { tasks = []; stop = false; max_queue_size = 20 }

unfoldable pub main_workers : ℕ → ℕ
unfolding thread_count
main_workers cores = thread_count 6 cores

unfoldable pub listen_addr : AddressCalls → InetAddr
unfolding inet_addr
listen_addr calls = inet_addr calls (codes "127.0.0.1") 8888

-- What a pointer shows that no connection has yet.
abbrev no_connection : Connection
no_connection = record {
  channel = new_channel 0;
  input = init initial_size;
  output = init initial_size;
  context = reset;
  last_active = 0;
  alive = false;
}

abbrev pub new_server : {W : Type 0} → W → TcpServer W
new_server w = record {
  connections = [];
  objects = λ p. no_connection;
  created = 0;
  timers = record { nodes = []; timer_fd = (0, 0) };
  held = λ p. false;
  world = w;
}

pub record Program (C F V T W : Type 0) : Type 0 where
  pub pool : ConnectionPool C
  pub loop : EventLoop F V
  pub tasks : TaskPool T
  pub workers : ℕ
  pub acceptor : Acceptor
  pub server : TcpServer W

module _ {C F V T W : Type 0} (kernel : Kernel W) (sockets : Sockets W) (eventfd : EventFd V) where
  -- Everything in the order of `main`; the constructor of the server's acceptor may abort.
  unfoldable pub with_server : (ℕ → Option C) → ℕ → V → Opened W → Option (Program C F V T W)
  unfolding main_pool main_tasks main_workers create start
  with_server created cores v (aborted w) = none
  with_server created cores v (opened acceptor w) = some (record {
    pool = main_pool created;
    loop = create eventfd v;
    tasks = main_tasks;
    workers = main_workers cores;
    acceptor = acceptor;
    server = start kernel (new_server w);
  })

  unfoldable pub set_up : (ℕ → Option C) → ℕ → V → W → Option (Program C F V T W)
  unfolding with_server open_acceptor
  set_up created cores v w = with_server created cores v (open_acceptor sockets false w)
