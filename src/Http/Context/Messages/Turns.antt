-- ===== src/Http/Context/Messages/Turns.antt =====
-- src/http/Context.cpp: the parser's turns on the lines and on the body of a message.
use user_center.Base.{
  ℕ, zero, suc, ◌+◌, ◌≤◌, ◌<◌, ◌≡◌, ◌∙◌, ◌++◌, refl, subst, [], ◌∷◌, none, some, true, false, Bytes,
  arith, length, length-append, leb, ◌==◌,
}
use user_center.Base.Searching.{lacks, lacks-append, take_front, drop_front, drop_behind}
use user_center.Buffer.{find_crlf_bytes}
use user_center.Http.Request.{Headers, HttpRequest, empty_request, add_header, get_content_length}
use user_center.Http.Context.{
  HttpContext, expect_headers, expect_body, got_all, again, return, reset, loop, after_turn,
  line_round, after_headers,
}
use user_center.Http.Context.Stream.{
  text_request_line_round, text_header_round, text_take_body, text_body_round, text_dispatch,
  text_round,
}
use user_center.Http.Context.Turns.{Progress, round-Progress}
use user_center.Http.Context.Chunks.{text_loop, loop_steady}
use user_center.Http.Context.Lines.{
  find_crlf-line, request_line, lined, parse_request_line-lined, lacks_cr-request_line,
}
use user_center.Http.Context.Fields.{is_tight, parse_header-add_header}
use user_center.Http.Context.Messages.{
  Message, IsMessage, header_line, head, headed, are_lines, at, answer_of,
}

-- A turn that goes on leaves the loop to do the rest.
pub turned :
    (f g : ℕ) (c d : HttpContext) (xs ys : Bytes)
    → text_round c xs ≡ again d ys
    → length xs < f
    → length ys < g
    → text_loop f c xs ≡ text_loop g d ys
unfolding loop
turned zero g c d xs ys e h k = absurd (omega arith)
turned (suc f) g c d xs ys e h k =
    let less : length ys + 2 ≤ length xs = subst (Progress c xs) e (round-Progress c xs) in
    rw (e, loop, after_turn) (loop_steady f g d ys (omega arith) k)

pub line_turn :
    (m : Message) (rest : Bytes)
    → IsMessage m
    → text_round reset (request_line m.method m.target m.version ++ 13 ∷ 10 ∷ rest)
      ≡ again (at expect_headers (lined m.method m.target m.version empty_request)) rest
unfolding text_round text_dispatch text_request_line_round reset line_round
line_turn m rest h =
    let line = request_line m.method m.target m.version in
    let whole = line ++ 13 ∷ 10 ∷ rest in
    rw
      (
        find_crlf-line line rest (lacks_cr-request_line m.method m.target m.version h.target),
        take_front line (13 ∷ 10 ∷ rest),
        drop_behind 2 (length line + 2) line (13 ∷ 10 ∷ rest) refl,
        parse_request_line-lined m.method m.target m.version empty_request h.method h.target,
        text_request_line_round,
        line_round,
      )
      refl

header_turn :
    (name value : Bytes) (r : HttpRequest) (rest : Bytes)
    → lacks 58 name ≡ true
    → lacks 13 name ≡ true
    → lacks 13 value ≡ true
    → is_tight value ≡ true
    → text_round (at expect_headers r) (header_line (name, value) ++ 13 ∷ 10 ∷ rest)
      ≡ again (at expect_headers (add_header name value r)) rest
unfolding text_round text_dispatch text_header_round line_round
header_turn name value r rest h k l t =
    let line = header_line (name, value) in
    let no_cr : lacks 13 line ≡ true = lacks-append 13 name (58 ∷ 32 ∷ value) k l in
    let some_line : (length line == 0) ≡ false =
      ground (arith, length-append name (58 ∷ 32 ∷ value)) in
    rw
      (
        find_crlf-line line rest no_cr,
        some_line,
        take_front line (13 ∷ 10 ∷ rest),
        drop_behind 2 (length line + 2) line (13 ∷ 10 ∷ rest) refl,
        parse_header-add_header name value r h t,
        text_header_round,
        line_round,
      )
      refl

-- All the header lines, up to the empty line.
pub heads_run :
    (f g : ℕ) (hs : Headers) (r : HttpRequest) (rest : Bytes)
    → are_lines hs ≡ true
    → length (head hs rest) < f
    → length (13 ∷ 10 ∷ rest) < g
    → text_loop f (at expect_headers r) (head hs rest)
      ≡ text_loop g (at expect_headers (headed hs r)) (13 ∷ 10 ∷ rest)
heads_run f g [] r rest h k l = loop_steady f g (at expect_headers r) (13 ∷ 10 ∷ rest) k l
heads_run f g ((name, value) ∷ hs) r rest h k l =
    turned f (length (head hs rest) + 1) (at expect_headers r)
      (at expect_headers (add_header name value r))
      (header_line (name, value) ++ 13 ∷ 10 ∷ head hs rest) (head hs rest)
      (header_turn name value r (head hs rest) (ground arith) (ground arith) (ground arith)
        (ground arith))
      k (omega arith)
    ∙ heads_run (length (head hs rest) + 1) g hs (add_header name value r) rest (ground arith)
        (omega arith) l

pub blank_turn :
    (r : HttpRequest) (rest : Bytes)
    → text_round (at expect_headers r) (13 ∷ 10 ∷ rest) ≡ again (at (after_headers r) r) rest
unfolding text_round text_dispatch text_header_round find_crlf_bytes
blank_turn r rest = refl

-- Behind the empty line: the parse has ended, or it takes the body.
pub ends_bare :
    (f : ℕ) (r : HttpRequest) (rest : Bytes)
    → get_content_length r ≡ none
    → length rest < f
    → text_loop f (at (after_headers r) r) rest ≡ some (answer_of r rest)
unfolding loop after_headers text_round text_dispatch
ends_bare zero r rest e h = absurd (omega arith)
ends_bare (suc f) r rest e h = rw (e, after_headers, loop) refl

sized_turn :
    (r : HttpRequest) (a : ℕ) (s rest : Bytes)
    → get_content_length r ≡ some (length (a ∷ s))
    → text_round (at expect_body r) ((a ∷ s) ++ rest)
      ≡ return (at got_all (record r { body = a ∷ s })) rest true
unfolding text_round text_dispatch text_body_round text_take_body
sized_turn r a s rest e =
    let enough : leb (length (a ∷ s)) (length ((a ∷ s) ++ rest)) ≡ true =
      ground (arith, length-append (a ∷ s) rest) in
    let nonzero : (length (a ∷ s) == 0) ≡ false = ground arith in
    rw (e, nonzero, enough, take_front (a ∷ s) rest, drop_front (a ∷ s) rest, text_body_round) refl

after_headers-sized :
    (r : HttpRequest) (n : ℕ) → get_content_length r ≡ some (suc n) → after_headers r ≡ expect_body
unfolding after_headers
after_headers-sized r n e = rw (e, after_headers) (ground arith)

pub ends_sized :
    (f : ℕ) (r : HttpRequest) (a : ℕ) (s rest : Bytes)
    → get_content_length r ≡ some (length (a ∷ s))
    → text_loop (suc f) (at (after_headers r) r) ((a ∷ s) ++ rest)
      ≡ some (answer_of (record r { body = a ∷ s }) rest)
unfolding loop
ends_sized f r a s rest e =
    rw (after_headers-sized r (length s) e, sized_turn r a s rest e, loop, after_turn) refl
