-- ===== src/Examples/Parsing.antt =====
-- The buffer and the parser at concrete inputs.
use user_center.Base.{
  ◌≡◌, ◌++◌, List, [], ◌∷◌, some, true, false, codes, refl, arith, find_byte, bytes_eq,
}
use user_center.Buffer.{
  Buffer, init, append, contents, retrieve, ensure_writable_bytes, find_crlf, find_crlf_bytes,
  peek_string,
}
use user_center.Buffer.Memory.{IsValid, init-IsValid}
use user_center.Buffer.Effects.{append-IsValid, contents-append}
use user_center.Buffer.Queue.{Op, appends, takes, sends, shrinks, run, queue_run, run-queue_run}
use user_center.Http.Request.{Method, empty_request, find_header}
use user_center.Http.Response.{HttpResponse, new_response, serialize}
use user_center.Http.Response.Client.{read_response}
use user_center.Http.Response.Framing.{IsSendable, received, read_response-serialize}
use user_center.Http.Context.{
  Parsed, parse, reset, expect_headers, got_all, is_blank, round, parse_request_line,
}
use user_center.Http.Context.Lines.{queried, http11}
use user_center.Http.Context.Messages.{Message, IsMessage, render, request_of}
use user_center.Http.Context.Messages.Parsing.{parse-render}
use user_center.Http.Context.Chunks.{parse_total, parse-append}

-- Eight bytes of room, filled past the end, so that the memory grows and moves.
abbrev calls : List Op
calls = appends (codes "hello world") ∷ takes 6 ∷ appends (codes "!") ∷ sends 2 ∷ shrinks 0 ∷ []

run-queue_run_example :
    ((run calls (init 8)).0 ≡ (queue_run calls (contents (init 8))).0)
    × (contents (run calls (init 8)).1 ≡ (queue_run calls (contents (init 8))).1)
    × IsValid (run calls (init 8)).1
unfolding init contents
run-queue_run_example =
    run-queue_run calls (init 8) (init-IsValid 8) (tt, (omega arith, (tt, (omega arith, (tt, tt)))))

-- A request line and half a header.
abbrev arrived : Buffer
arrived = append (codes "GET /a?b HTTP/1.1\r\nHo") (init 32)

arrived-IsValid : IsValid arrived
arrived-IsValid = append-IsValid (codes "GET /a?b HTTP/1.1\r\nHo") (init 32) (init-IsValid 32)

abbrev half : Parsed Buffer
half = record {
  context = record {
    state = expect_headers;
    request = record empty_request {
      method = Method.get;
      path = codes "/a";
      query = codes "b";
      version = codes "HTTP/1.1";
    };
  };
  buffer = retrieve 19 arrived;
  complete = false;
}

half_parsed : parse reset arrived ≡ some half
unfolding parse reset append init retrieve ensure_writable_bytes round find_crlf find_crlf_bytes
    parse_request_line find_byte peek_string bytes_eq
half_parsed = refl

parse_total_example : (p : Parsed Buffer) × (parse reset arrived ≡ some p) × IsValid p.buffer
parse_total_example = parse_total reset arrived arrived-IsValid

parse-append_example :
    (q r : Parsed Buffer) × (parse half.context (append (codes "st: x\r\n\r\n") half.buffer)
      ≡ some q)
    × (parse reset (append (codes "st: x\r\n\r\n") arrived) ≡ some r)
    × (q.context ≡ r.context)
    × (contents q.buffer ≡ contents r.buffer)
    × (q.complete ≡ r.complete)
parse-append_example =
    parse-append reset arrived (codes "st: x\r\n\r\n") half arrived-IsValid half_parsed

-- A request for a login, with a query, a header and a body, and the beginning of another one.
abbrev login : Message
login = record {
  method = Method.post;
  target = queried (codes "/user/login") (codes "x=1");
  version = http11;
  headers = (codes "Host", codes "a b:80") ∷ [];
  body = codes "{}";
}

login-IsMessage : IsMessage login
unfolding is_blank bytes_eq
login-IsMessage = record {
  method = refl;
  target = (refl, refl, refl);
  headers = refl;
  no_length = refl;
  body = omega arith;
}

abbrev came_in : Buffer
came_in = append (render login ++ codes "GET") (init 32)

parse-render_example :
    (p : Parsed Buffer) × (parse reset came_in ≡ some p)
    × (p.context.state ≡ got_all)
    × (p.context.request ≡ request_of login)
    × (p.complete ≡ true)
    × IsValid p.buffer
    × (contents p.buffer ≡ codes "GET")
unfolding init contents
parse-render_example =
    parse-render login (codes "GET") came_in login-IsMessage
      (append-IsValid (render login ++ codes "GET") (init 32) (init-IsValid 32))
      (contents-append (render login ++ codes "GET") (init 32) (init-IsValid 32))

-- A response with a header and a body, and the beginning of the next one.
abbrev page : HttpResponse
page = record new_response {
  headers = (codes "Content-Type", codes "application/json") ∷ [];
  body = codes "{}";
}

page-IsSendable : IsSendable (λ headers. headers) page
unfolding find_header bytes_eq
page-IsSendable = record {
  message = refl;
  headers = refl;
  no_length = refl;
  length_missing = refl;
  body = omega arith;
}

read_response-serialize_example :
    read_response (serialize (λ headers. headers) page ++ codes "HTTP")
    ≡ some (received (λ headers. headers) page (codes "HTTP"))
read_response-serialize_example =
    read_response-serialize (λ headers. headers) page (codes "HTTP") page-IsSendable
