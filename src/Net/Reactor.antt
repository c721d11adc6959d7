-- ===== src/Net/Reactor.antt =====
-- include/net/TcpServer.h, src/net/TcpServer.cpp and src/net/Connection.cpp together: an event on a
-- connection of the server. The callbacks of a connection run on its own object, while the server
-- with its table is the world around it; the close callback that TcpServer::onNewConnection sets
-- goes back to the server.
pub mod Laws
pub mod Links
pub mod Calls
pub mod Callbacks
pub mod Events
pub mod Steps
pub mod Serving
use user_center.Base.{Bytes, ℕ, Option, none, some, Bytes}
use user_center.Http.Request.{HttpRequest}
use user_center.Net.Channel.{Channel, CtlOp}
use user_center.Net.Connection.{
  bind, Kernel, Connection, Link, handle_link_event, send_in_loop, shutdown,
}
use user_center.Net.Server.{TcpServer, store, on_connection_closed}

module _ {W : Type 0} where
  abbrev pub in_world : TcpServer W → Option W → Option (TcpServer W)
  in_world s none = none
  in_world s (some w) = some (record s { world = w })

  -- The system calls, made by a connection of the server.
  abbrev pub served_kernel : Kernel W → Kernel (TcpServer W)
  served_kernel kernel = record {
    epoll_ctl = λ operation fd events s. in_world s (kernel.epoll_ctl operation fd events s.world);
    readv = λ fd room s. let r = kernel.readv fd room s.world in (r.0, record s { world = r.1 });
    write = λ fd bytes s. let r = kernel.write fd bytes s.world in (r.0, record s { world = r.1 });
    shutdown_write = λ fd s. record s { world = kernel.shutdown_write fd s.world };
    close = λ fd s. record s { world = kernel.close fd s.world };
    clock = λ s. kernel.clock s.world;
  }

  -- The object that a pointer shows, and the object put back.
  unfoldable pub held_link : ℕ → TcpServer W → Link (TcpServer W)
  held_link p s = record { conn = s.objects p; world = s }

  unfoldable pub put_back : ℕ → Link (TcpServer W) → TcpServer W
  unfolding store
  put_back p l = record (l.world) { objects = store p l.conn l.world.objects }

  -- The last shared pointer to a closed connection goes, unless something besides the table holds one.
  unfoldable pub released : ℕ → TcpServer W → Link (TcpServer W)
  released p s = record { conn = record (s.objects p) { alive = s.held p }; world = s }

  -- `conn->setCloseCallback([this](const ConnectionPtr& c) { onConnectionClosed(c); })`
  unfoldable pub close_callback : Kernel W → ℕ → Link (TcpServer W) → Option (Link (TcpServer W))
  unfolding released put_back on_connection_closed
  close_callback kernel p l =
      bind (on_connection_closed kernel p (put_back p l)) (λ s. some (released p s))

  -- `channel->setRevents(revents)`, as EpollPoller::poll does.
  unfoldable pub with_revents : ℕ → Link (TcpServer W) → Link (TcpServer W)
  with_revents revents l = record l {
    conn = record (l.conn) { channel = record (l.conn.channel) { revents = revents } };
  }

  -- `channel->handleEvent()` for the channel of a connection.
  unfoldable pub ready :
      Kernel W
      → (ℕ → HttpRequest → Link (TcpServer W) → Option (Link (TcpServer W)))
      → ℕ
      → ℕ
      → TcpServer W
      → Option (TcpServer W)
  unfolding held_link put_back with_revents handle_link_event close_callback
  ready kernel request_callback p revents s =
      bind
        (handle_link_event (served_kernel kernel) (close_callback kernel p) (request_callback p)
          (with_revents revents (held_link p s)))
        (λ l. some (put_back p l))

  -- What the worker's `conn->send` and `conn->shutdown` run in the thread of the loop.
  unfoldable pub send_on : Kernel W → ℕ → Bytes → TcpServer W → Option (TcpServer W)
  unfolding held_link put_back send_in_loop close_callback
  send_on kernel p message s =
      bind (send_in_loop (served_kernel kernel) (close_callback kernel p) message (held_link p s))
        (λ l. some (put_back p l))

  unfoldable pub shutdown_on : Kernel W → ℕ → TcpServer W → Option (TcpServer W)
  unfolding held_link put_back shutdown
  shutdown_on kernel p s = some (put_back p (shutdown (served_kernel kernel) (held_link p s)))
