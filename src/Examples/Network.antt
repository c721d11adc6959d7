-- ===== src/Examples/Network.antt =====
-- The channels, the connections and the loop at concrete inputs.
use user_center.Base.{
  if◌then◌else◌, ℕ, ◌≡◌, refl, arith, List, [], ◌∷◌, ◌++◌, Option, none, some, Bool, true, false,
  Bytes, take, drop, codes, ◌==◌,
}
use user_center.Buffer.{
  read_ok, contents, read_room, retrieve, append, find_crlf, find_crlf_bytes, read_fd, init,
  initial_size,
}
use user_center.Buffer.Io.{read_fd-IsValid}
use user_center.Http.Context.Stream.{text_round, text_dispatch, text_request_line_round}
use user_center.Buffer.Memory.{init-IsValid}
use user_center.Http.Request.{HttpRequest, Method}
use user_center.Http.Context.{
  Parsed, reset, loop, parse, parse_fuel, dispatch, request_line_round, round,
}
use user_center.Http.Context.Prefixes.{text_parse, joined}
use user_center.Net.Channel.{new_channel}
use user_center.Net.Channel.Calls.{
  Call, reading_on, writing_on, writing_off, removes, ends, Interest, interest, Leaves, calls,
  calls-Updated,
}
use user_center.Net.Connection.{
  bind, Kernel, Link, handle_read, after_parse, after_read, parse_input,
}
use user_center.Net.Connection.Writing.{Talks}
use user_center.Net.Connection.Sending.{Act, sends, writable, acts, acts-Talks}
use user_center.Net.Connection.Reading.{
  Touches, Hears, Holds, no_read, reads, responds, handle_read-responds,
}
use user_center.Net.Connection.Requests.{Reads-render}
use user_center.Http.Context.Lines.{plain, http11}
use user_center.Http.Context.Messages.{Message, request_of, answer_of}
use user_center.Net.EventLoop.{EventFd, polling, create, wakes_after_push, begin, push, wakeup}
use user_center.Net.EventLoop.Steps.{
  EventFdLaws, Shared, here, after, begins, other_pushes, other_wakes,
}
use user_center.Net.EventLoop.Waking.{Invariant, runs-Invariant}
use user_center.Examples.ToyKernel.{toy_kernel, toy_epoll, toy_writes, quiet, ToyWorld}

-- Reading and writing are asked for, the channel is removed on its own, and reading is asked for again.
abbrev asks : List Call
asks = reading_on ∷ writing_on ∷ removes ∷ reading_on ∷ writing_off ∷ removes ∷ ends ∷ []

abbrev nothing_asked : Interest
nothing_asked = record { wanted = (false, false); told = (false, false) }

calls-Updated_example :
    Leaves toy_kernel.epoll_ctl toy_epoll 5
      (interest asks nothing_asked)
      (quiet [])
      (calls toy_kernel.epoll_ctl asks (new_channel 5) (quiet []))
unfolding new_channel
calls-Updated_example =
    calls-Updated toy_kernel.epoll_ctl toy_epoll asks 5 nothing_asked (new_channel 5) (quiet [])
      (record { same_fd = refl; events = refl; in_epoll = refl; kernel = refl })

-- A new connection on descriptor 5 with a close callback that does nothing.
abbrev link : Bytes → Link ToyWorld
link s = record {
  conn = record {
    channel = record { fd = 5; events = 0x2003; revents = 0; in_epoll = true };
    input = init initial_size;
    output = init initial_size;
    context = reset;
    last_active = 0;
    alive = true;
  };
  world = record (quiet s) { interests = λ fd. if fd == 5 then some 0x2003 else none };
}

abbrev acts_done : List Act
acts_done = sends 1 (2 ∷ 3 ∷ 4 ∷ []) ∷ writable ∷ sends 9 [] ∷ writable ∷ []

acts-Talks_example :
    (v : Link ToyWorld) × (acts toy_kernel some acts_done (link []) ≡ some v)
    × Talks toy_kernel toy_epoll toy_writes 5 (1 ∷ 2 ∷ 3 ∷ 4 ∷ 9 ∷ []) v
unfolding init contents
acts-Talks_example =
    acts-Talks toy_kernel toy_epoll toy_writes some (λ e failed. cc) acts_done 5 [] (link [])
      (record {
        valid = init-IsValid initial_size;
        complete = refl;
        watched = record { same_fd = refl; events = refl; in_epoll = refl; kernel = refl };
      })

-- The beginning of a request, and its end.
abbrev part : Bytes
part = codes "GET /a HT"

abbrev rest : Bytes
rest = codes "TP/1.1" ++ 13 ∷ 10 ∷ 13 ∷ 10 ∷ []

-- A request callback that drops the connection.
abbrev drops : HttpRequest → Link ToyWorld → Option (Link ToyWorld)
drops r l = none

-- The connection when the beginning has been read and the end has come in.
abbrev half_read : Link ToyWorld
half_read = record {
  conn = record ((link []).conn) { input = (read_fd (read_ok part) (init initial_size)).1 };
  world = quiet rest;
}

half_read-Hears : Hears part half_read
unfolding init contents read_fd text_round text_dispatch reset loop text_request_line_round
    find_crlf_bytes
half_read-Hears = record {
  valid = read_fd-IsValid part (init initial_size) (init-IsValid initial_size);
  parsed = refl;
}

handle_read-responds_example :
    (t : Parsed Bytes) × (text_parse (part ++ rest) ≡ some t)
    × ((m : Link ToyWorld) × Holds t m
        × Touches toy_kernel half_read (quiet []) m
        × (handle_read toy_kernel some drops half_read ≡ responds toy_kernel some drops t m))
unfolding read_room read_fd init
handle_read-responds_example =
    handle_read-responds toy_kernel some drops part 84 (codes "P/1.1" ++ 13 ∷ 10 ∷ 13 ∷ 10 ∷ [])
      half_read (quiet []) half_read-Hears refl

-- A kernel that reads ten bytes at a time, and a request of nineteen.
abbrev slow_kernel : Kernel ToyWorld
slow_kernel = record toy_kernel {
  readv = λ fd room w. (read_ok (take 10 w.incoming), record w { incoming = drop 10 w.incoming });
}

abbrev asked : Message
asked = record {
  method = Method.get;
  target = plain (codes "/a");
  version = http11;
  headers = [];
  body = [];
}

abbrev asking : Link ToyWorld
asking = record {
  conn = (link []).conn;
  world = quiet (codes "GET /a HTTP/1.1" ++ 13 ∷ 10 ∷ 13 ∷ 10 ∷ []);
}

abbrev after_ten : Link ToyWorld
after_ten = record {
  conn = record (asking.conn) {
    input = (read_fd (read_ok (codes "GET /a HTT")) (init initial_size)).1;
  };
  world = quiet (codes "P/1.1" ++ 13 ∷ 10 ∷ 13 ∷ 10 ∷ []);
}

Reads-render_example :
    Hears (joined (codes "GET /a HTT" ∷ [])) after_ten
    × ((n : Link ToyWorld) × Holds (answer_of (request_of asked) []) n
        × Touches slow_kernel after_ten (quiet []) n
        × (handle_read slow_kernel some drops after_ten
            ≡ bind (drops (request_of asked) n) (λ q.
              if q.conn.alive
              then some (record q { conn = record (q.conn) { context = reset } })
              else none)))
unfolding init contents read_fd text_round text_dispatch reset loop text_request_line_round
    find_crlf_bytes read_room handle_read parse round dispatch request_line_round find_crlf retrieve
    append after_parse after_read parse_input parse_fuel
Reads-render_example =
    Reads-render slow_kernel some drops asked (codes "GET /a HTT" ∷ []) 80
      (codes "/1.1" ++ 13 ∷ 10 ∷ 13 ∷ 10 ∷ []) asking after_ten (quiet [])
      (record {
        method = refl;
        target = (refl, refl, refl);
        headers = refl;
        no_length = refl;
        body = omega arith;
      })
      refl (record { valid = init-IsValid initial_size; parsed = refl })
      (reads (quiet (codes "P/1.1" ++ 13 ∷ 10 ∷ 13 ∷ 10 ∷ [])) refl refl no_read) refl

-- An eventfd that remembers whether it was written to.
abbrev flag : EventFd Bool
flag = record { write = λ b. true; read = λ b. false }

abbrev flag_laws : EventFdLaws flag
flag_laws = record { readable = λ b. b; write_law = λ b. refl }

-- The loop polls, and another thread queues a functor and writes to the eventfd.
abbrev one_queued : Shared ℕ Bool
one_queued = record {
  loop = record {
    phase = polling;
    pending = 7 ∷ [];
    calling = false;
    quitting = false;
    world = true;
  };
  waking = 0;
  queued = 7 ∷ [];
  executed = [];
}

abbrev polls_now : Shared ℕ Bool
polls_now = record {
  loop = record { phase = polling; pending = []; calling = false; quitting = false; world = false };
  waking = 0;
  queued = [];
  executed = [];
}

runs-Invariant_example : Invariant flag flag_laws one_queued
unfolding create begin push wakeup wakes_after_push
runs-Invariant_example =
    runs-Invariant flag flag_laws false one_queued (
      after (begins refl)
        (after (other_pushes {s = polls_now} 7) (after (other_wakes 0 refl) here)))
