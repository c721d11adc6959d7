-- ===== src/Http/Context/Messages.antt =====
-- include/http/HttpContext.h and src/http/Context.cpp: a whole request as a client writes it, and
-- what the parser makes of it.
pub mod Fields
pub mod Turns
pub mod Parsing
use user_center.Base.{
  ℕ, zero, suc, ◌+◌, ◌≤◌, ◌<◌, ◌≡◌, ◌∙◌, ◌++◌, refl, sym, ap, subst, List, [], ◌∷◌, Option, none,
  some, Bool, true, false, not, ◌&&◌, Bytes, codes, bytes_eq, arith, length, length-append,
  append_assoc, append-nil, take, drop, leb, to_string, if◌then◌else◌, ◌==◌, some_eq,
}
use user_center.Base.Searching.{lacks, lacks-append, take_front, drop_front, drop_behind}
use user_center.Base.Strtol.{int_max}
use user_center.Buffer.{Buffer, contents, readable_bytes, find_crlf_bytes}
use user_center.Buffer.Memory.{IsValid, length-contents}
use user_center.Http.Request.{
  find_header, put_header, Method, Headers, HttpRequest, empty_request, add_header,
  get_content_length,
}
use user_center.Http.Request.Length.{find-put_header-other, add_header-content_length}
use user_center.Http.Context.{
  HttpContext, ParseState, expect_request_line, expect_headers, expect_body, got_all, error, Round,
  again, stop, return, Parsed, reset, parse, loop, after_turn, line_round, after_headers,
  parse_request_line, parse_header,
}
use user_center.Http.Context.Stream.{
  text_request_line_round, text_header_round, text_take_body, text_body_round, text_dispatch,
  text_round,
}
use user_center.Http.Context.Turns.{Progress, round-Progress}
use user_center.Http.Context.Chunks.{text_loop, loop_steady, parse-Answers}
use user_center.Http.Context.Lines.{
  find_crlf-line, Target, Version, request_line, IsTarget, is_method, lined,
  parse_request_line-lined, lacks_cr-request_line,
}
use user_center.Http.Context.Fields.{
  lacks_cr-to_string, to_string-is_tight, is_tight, parse_header-add_header,
}

pub record Message : Type 0 where
  pub method : Method
  pub target : Target
  pub version : Version
  pub headers : Headers
  pub body : Bytes

abbrev pub header_line : Bytes × Bytes → Bytes
header_line (name, value) = name ++ 58 ∷ 32 ∷ value

-- The header lines, the empty line and what comes behind it.
abbrev pub head : Headers → Bytes → Bytes
head [] rest = 13 ∷ 10 ∷ rest
head (h ∷ hs) rest = header_line h ++ 13 ∷ 10 ∷ head hs rest

-- A body is announced by its length, in the last header line.
abbrev pub framing : Bytes → Headers
framing [] = []
framing (a ∷ s) = (codes "Content-Length", to_string (length (a ∷ s))) ∷ []

abbrev pub render : Message → Bytes
render m =
    request_line m.method m.target m.version ++ 13 ∷ 10 ∷ head (m.headers ++ framing m.body) m.body

abbrev pub headed : Headers → HttpRequest → HttpRequest
headed [] r = r
headed ((name, value) ∷ hs) r = headed hs (add_header name value r)

-- The request that the server is to see.
abbrev pub request_of : Message → HttpRequest
request_of m =
    record (headed (m.headers ++ framing m.body)
      (lined m.method m.target m.version empty_request)) { body = m.body }

-- A name without a colon, and a value without blanks at its ends; no carriage return in either.
abbrev pub is_line : Bytes × Bytes → Bool
is_line (name, value) = lacks 58 name && lacks 13 name && lacks 13 value && is_tight value

abbrev pub are_lines : Headers → Bool
are_lines [] = true
are_lines (h ∷ hs) = is_line h && are_lines hs

abbrev pub lacks_length : Headers → Bool
lacks_length [] = true
lacks_length ((name, value) ∷ hs) = not (bytes_eq name (codes "Content-Length")) && lacks_length hs

pub record IsMessage (m : Message) : Type 0 where
  pub method : is_method m.method ≡ true
  pub target : IsTarget m.target
  pub headers : are_lines m.headers ≡ true
  pub no_length : lacks_length m.headers ≡ true
  pub body : length m.body ≤ int_max

-- The parser in a state, with a request so far.
abbrev pub at : ParseState → HttpRequest → HttpContext
at s r = record { state = s; request = r }

-- The request before its body is set.
abbrev pub so_far : Message → Headers → HttpRequest
so_far m hs = headed hs (lined m.method m.target m.version empty_request)

-- What the loop is to answer.
abbrev pub answer_of : HttpRequest → Bytes → Parsed Bytes
answer_of r rest = record { context = at got_all r; buffer = rest; complete = true }
