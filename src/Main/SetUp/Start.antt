-- ===== src/Main/SetUp/Start.antt =====
-- main.cpp: what stands when `main` enters the loop, and how it leaves it.
use user_center.Base.{
  ℕ, ◌≡◌, ◌∙◌, ◌++◌, ◌⊎◌, inl, inr, refl, subst, [], Option, some, some_eq, Bool, true, false,
  arith, if_true,
}
use user_center.Http.Request.{HttpRequest}
use user_center.Db.Pool.Count
use user_center.Db.Pool.Count.{IsCounted, Steps-IsCounted, start}
use user_center.Net.TimerQueue.Drain.{IsReady, add_timer-IsReady}
use user_center.Net.Channel.Masks.{EpollLaws}
use user_center.Net.Channel.Interest.{Watches}
use user_center.Net.Connection.{Kernel, Link}
use user_center.Net.EventLoop.{EventFd, EventLoop, stopped, polling, handling, quit, stop, wakeup}
use user_center.Net.EventLoop.Steps.{Shared, Runs, after, polls}
use user_center.Net.EventLoop.Waking.{round-Runs}
use user_center.Net.Acceptor.{Sockets, Opened, opened, aborted, open_acceptor}
use user_center.Net.Acceptor.Opening.{SocketLaws, Clean, open_acceptor-Clean}
use user_center.Net.Server.{TcpServer, find, check_idle, start as begin}
use user_center.Net.Server.Table.{CloseLaws, Serves}
use user_center.Net.Reactor.{ready}
use user_center.Net.Reactor.Laws.{EventLaws}
use user_center.Net.Reactor.Events.{GoesOn}
use user_center.Net.Reactor.Serving.{Outcome, Undefined}
use user_center.Net.Reactor.Steps.{Steps, Steps-ready}
use user_center.Main.SetUp.{
  sigint, signal_handler, main_pool, new_server, Program, with_server, set_up,
}

module _ {F V : Type 0} (eventfd : EventFd V) where
  -- The round that follows a flag of quit.
  last_round :
      (s : Shared F V)
      → (s.loop.phase ≡ handling) ⊎ (s.loop.phase ≡ polling)
      → s.loop.quitting ≡ true
      → (t : Shared F V) × Runs eventfd s t
        × (t.executed ≡ s.executed ++ s.loop.pending)
        × (t.loop.phase ≡ stopped)
  last_round s (inl e) q =
      let (t, runs, all, out) = round-Runs eventfd s e in (t, runs, all, out ∙ if_true _ _ q)
  last_round s (inr e) q =
      let next : Shared F V = record s { loop = record (s.loop) { phase = handling } } in
      let (t, runs, all, out) = round-Runs eventfd next refl in
      (t, after (polls e) runs, all, out ∙ if_true _ _ q)

  -- SIGINT, whichever thread it interrupts, while the loop's thread is in the poll or in the callbacks
  -- of the channels: the loop's thread can then come to the end of `loop()` by its own steps, and has
  -- run all the functors that were waiting.
  pub signal_handler-Runs :
      (in_thread : Bool) (s : Shared F V)
      → (s.loop.phase ≡ handling) ⊎ (s.loop.phase ≡ polling)
      → (l : EventLoop F V) × (signal_handler eventfd in_thread sigint (some s.loop) ≡ some l)
        × ((t : Shared F V) × Runs eventfd (record s { loop = l }) t
            × (t.executed ≡ s.executed ++ s.loop.pending)
            × (t.loop.phase ≡ stopped))
  unfolding signal_handler quit stop wakeup
  signal_handler-Runs true s at = (_, refl, last_round _ at refl)
  signal_handler-Runs false s at = (_, refl, last_round _ at refl)

pool_starts : {C : Type 0} (created : ℕ → Option C) → Count.Steps (main_pool created) 0
unfolding main_pool
pool_starts created = start 5 20 created (omega arith) (omega arith)

module _ {W : Type 0} (kernel : Kernel W) where
  timer_armed : (w : W) → IsReady (begin kernel (new_server w)).timers
  unfolding begin
  timer_armed w =
      add_timer-IsReady (kernel.clock w) 10000 check_idle true
        (record { nodes = []; timer_fd = (0, 0) }) (record { sorted = tt; armed = refl })

  empty_Serves :
      (epoll : EpollLaws kernel.epoll_ctl) (w : W)
      → Serves kernel epoll (begin kernel (new_server w))
  unfolding begin find
  empty_Serves epoll w = record { each = λ fd p found. cc }

module _ {C F V T W : Type 0} (kernel : Kernel W) (sockets : Sockets W) (eventfd : EventFd V)
    (epoll : EpollLaws kernel.epoll_ctl) (listening : EpollLaws sockets.epoll_ctl)
    (laws : SocketLaws sockets listening) where
  -- What stands: a socket that epoll watches, the pool of connections within its bounds, the timer of
  -- the idle check armed, and the table of connections served.
  pub record Works (program : Program C F V T W) : Type 0 where
    pub fd : ℕ
    pub listens :
        Watches sockets.epoll_ctl listening fd true false program.acceptor.channel
          program.server.world
    pub counted : IsCounted program.pool 0
    pub timers : IsReady program.server.timers
    pub serves : Serves kernel epoll program.server

  with_server-Works :
      (created : ℕ → Option C) (cores : ℕ) (v : V) (w : W) (o : Opened W)
      (program : Program C F V T W)
      → Clean sockets listening laws w o
      → with_server kernel sockets eventfd created cores v o ≡ some program
      → Works program
  unfolding with_server
  with_server-Works created cores v w (aborted u) program clean e = cc
  with_server-Works created cores v w (opened a u) program clean e =
      subst Works (some_eq e) (record {
        fd = clean.0;
        listens = clean.1;
        counted = Steps-IsCounted (main_pool created) 0 (pool_starts created);
        timers = timer_armed kernel u;
        serves = empty_Serves kernel epoll u;
      })

  -- While the system calls treat descriptors as documented, a program that is set up listens on a socket
  -- that epoll watches for reads, its pool of connections counts right, the timer of its idle check is
  -- armed, and its server serves.
  pub set_up-Works :
      (created : ℕ → Option C) (cores : ℕ) (v : V) (w : W) (program : Program C F V T W)
      → set_up kernel sockets eventfd created cores v w ≡ some program
      → Works program
  unfolding set_up
  set_up-Works created cores v w program e =
      with_server-Works created cores v w (open_acceptor sockets false w) program
        (open_acceptor-Clean sockets listening laws false w) e

  -- From there on, while read, write and close work as documented too and the request callback goes on:
  -- after any steps of the server, whatever event epoll reports for a connection of the table goes
  -- through, and leaves it in the table, or closed; or its behaviour is undefined, which takes an event for
  -- reads whose callback closes a connection that neither a timer nor the task of a worker holds.
  pub set_up-ready :
      (events : EventLaws kernel epoll) (closing : CloseLaws kernel epoll)
      (request_callback : ℕ → HttpRequest → Link (TcpServer W) → Option (Link (TcpServer W)))
      (created : ℕ → Option C) (cores : ℕ) (v : V) (w : W) (program : Program C F V T W)
      (s : TcpServer W) (fd p revents : ℕ)
      → GoesOn kernel epoll events closing request_callback
      → set_up kernel sockets eventfd created cores v w ≡ some program
      → Steps kernel epoll request_callback program.server s
      → find fd s.connections ≡ some p
      → Serves kernel epoll s
        × (((u : TcpServer W) × (ready kernel request_callback p revents s ≡ some u)
              × Serves kernel epoll u
              × Outcome kernel epoll events closing fd p u)
            ⊎ Undefined kernel epoll events closing request_callback fd p revents s)
  set_up-ready events closing request_callback created cores v w program s fd p revents answers e
        steps found =
      let works = set_up-Works created cores v w program e in
      Steps-ready kernel epoll events closing request_callback answers program.server s fd p revents
        steps works.serves found
