-- ===== src/Examples/Serving.antt =====
-- The table of connections and the events on a connection, at concrete inputs.
use user_center.Base.{
  ℕ, ◌≡◌, refl, [], Option, ◌++◌, ◌∷◌, none, some, true, false, codes, arith, if◌then◌else◌, ◌==◌,
  inl, inr, Bool-cases, subst, sym, ◌∙◌, some_eq, if_true, if_false,
}
use user_center.Buffer.{init, initial_size}
use user_center.Buffer.Memory.{init-IsValid}
use user_center.Http.Request.{HttpRequest}
use user_center.Http.Context.{reset}
use user_center.Net.Channel.{Channel}
use user_center.Net.Connection.{Connection, Link, send_in_loop}
use user_center.Net.Server.{TcpServer, find, on_new_connection, on_connection_closed}
use user_center.Net.Server.Table.{Serves, IsServed}
use user_center.Net.Server.Serving.{
  Aside, on_new_connection-Serves, on_connection_closed-Serves, ended,
}
use user_center.Net.Reactor.{served_kernel, close_callback}
use user_center.Net.Reactor.Events.{GoesOn, send-GoesOn}
use user_center.Examples.ToyKernel.{
  toy_kernel, toy_epoll, toy_closes, strict_kernel, strict_closes, strict_events, quiet, ToyWorld,
}

abbrev on_channel : Channel → Connection
on_channel c = record {
  channel = c;
  input = init initial_size;
  output = init initial_size;
  context = reset;
  last_active = 0;
  alive = true;
}

abbrev empty_server : TcpServer ToyWorld
empty_server = record {
  connections = [];
  objects = λ p. on_channel (ended 0 0);
  created = 0;
  timers = record { nodes = []; timer_fd = (0, 0) };
  held = λ p. false;
  world = quiet [];
}

on_new_connection-Serves_example :
    (t : TcpServer ToyWorld) × (on_new_connection toy_kernel 5 empty_server ≡ some t)
    × Serves toy_kernel toy_epoll t
    × (find 5 t.connections ≡ some 0)
    × Aside toy_kernel toy_epoll 5 empty_server t
unfolding find
on_new_connection-Serves_example =
    on_new_connection-Serves toy_kernel toy_epoll 5 empty_server
      (record { each = λ fd p found. cc }) refl

-- One connection, on descriptor 5.
abbrev one_connection : TcpServer ToyWorld
one_connection = record {
  connections = (5, 0) ∷ [];
  objects = λ p. on_channel (record { fd = 5; events = 0x2003; revents = 0; in_epoll = true });
  created = 1;
  timers = record { nodes = []; timer_fd = (0, 0) };
  held = λ p. false;
  world = record (quiet []) { interests = λ fd. if fd == 5 then some 0x2003 else none };
}

one_connection-Serves : Serves toy_kernel toy_epoll one_connection
unfolding find
one_connection-Serves = record {
  each = λ fd p found. elim (Bool-cases (fd == 5)) [
    | inl same ↦
        let at : 5 ≡ fd = ground arith in
        let it : 0 ≡ p = some_eq (sym (if_true _ _ same) ∙ found) in
        subst (λ f. IsServed toy_kernel toy_epoll f p one_connection) at
          (record {
            made = omega arith;
            writing = false;
            watched = record { same_fd = refl; events = refl; in_epoll = refl; kernel = refl };
            valid = init-IsValid initial_size;
            alive = refl;
          })
    | inr other ↦ absurd (let gone = sym (if_false (some 0) none other) ∙ found in cc)
  ];
}

on_connection_closed-Serves_example :
    (t : TcpServer ToyWorld) × (on_connection_closed toy_kernel 0 one_connection ≡ some t)
    × Serves toy_kernel toy_epoll t
    × (find 5 t.connections ≡ none)
    × (toy_epoll.registered t.world 5 ≡ none)
    × Aside toy_kernel toy_epoll 5 one_connection t
unfolding find
on_connection_closed-Serves_example =
    on_connection_closed-Serves toy_kernel toy_epoll toy_closes 5 0 one_connection
      one_connection-Serves refl

-- A callback that answers every request with its path.
abbrev pub echo : ℕ → HttpRequest → Link (TcpServer ToyWorld) → Option (Link (TcpServer ToyWorld))
echo p r l = send_in_loop (served_kernel strict_kernel) (close_callback strict_kernel p) r.path l

abbrev pub echo_goes_on : GoesOn strict_kernel toy_epoll strict_events strict_closes echo
echo_goes_on = send-GoesOn strict_kernel toy_epoll strict_events strict_closes (λ r. r.path)

-- A client has written a request on descriptor 5, and the descriptor is ready for reads and writes.
abbrev with_request : TcpServer ToyWorld
with_request = record one_connection {
  world = record (one_connection.world) {
    incoming = codes "GET /a HTTP/1.1" ++ 13 ∷ 10 ∷ 13 ∷ 10 ∷ [];
  };
}

abbrev served_bytes : TcpServer ToyWorld
served_bytes = record empty_server { world = quiet (codes "GET") }

served_bytes-Serves : Serves strict_kernel toy_epoll served_bytes
unfolding find
served_bytes-Serves = record { each = λ fd p found. cc }

-- The server after a client has come in on descriptor 5.
abbrev one_came :
    (t : TcpServer ToyWorld) × (on_new_connection strict_kernel 5 served_bytes ≡ some t)
    × Serves strict_kernel toy_epoll t
    × (find 5 t.connections ≡ some 0)
    × Aside strict_kernel toy_epoll 5 served_bytes t
one_came = on_new_connection-Serves strict_kernel toy_epoll 5 served_bytes served_bytes-Serves refl
