-- ===== src/Http/Context/Messages/Parsing.antt =====
-- src/http/Context.cpp: a message that is written out is parsed back.
use user_center.Base.{
  ℕ, zero, suc, ◌+◌, ◌≤◌, ◌<◌, ◌≡◌, ◌∙◌, ◌++◌, refl, sym, ap, [], ◌∷◌, some, true, Bytes, arith,
  length, append_assoc, append-nil,
}
use user_center.Base.Strtol.{int_max}
use user_center.Buffer.{Buffer, contents, readable_bytes}
use user_center.Buffer.Memory.{IsValid, length-contents}
use user_center.Http.Request.{Headers, HttpRequest, empty_request}
use user_center.Http.Context.{got_all, Parsed, reset, parse, after_headers}
use user_center.Http.Context.Chunks.{text_loop, parse-Answers}
use user_center.Http.Context.Lines.{request_line, lined}
use user_center.Http.Context.Messages.{
  Message, IsMessage, header_line, head, framing, render, request_of, at, so_far, answer_of,
}
use user_center.Http.Context.Messages.Fields.{
  headed-body, lined-body, lines-append, framing-are_lines, no_length, with_length,
}
use user_center.Http.Context.Messages.Turns.{
  turned, line_turn, heads_run, blank_turn, ends_bare, ends_sized,
}

-- The text of a message with more behind it, line by line.
head-append : (hs : Headers) (body rest : Bytes) → head hs body ++ rest ≡ head hs (body ++ rest)
head-append [] body rest = refl
head-append (h ∷ hs) body rest =
    append_assoc (header_line h) (13 ∷ 10 ∷ head hs body) rest
    ∙ ap (λ t. header_line h ++ 13 ∷ 10 ∷ t) (head-append hs body rest)

render-append :
    (m : Message) (rest : Bytes)
    → render m ++ rest
      ≡ request_line m.method m.target m.version
        ++ 13 ∷ 10 ∷ head (m.headers ++ framing m.body) (m.body ++ rest)
render-append m rest =
    append_assoc (request_line m.method m.target m.version)
      (13 ∷ 10 ∷ head (m.headers ++ framing m.body) m.body) rest
    ∙ ap (λ t. request_line m.method m.target m.version ++ 13 ∷ 10 ∷ t)
        (head-append (m.headers ++ framing m.body) m.body rest)

bare_body : (r : HttpRequest) → r.body ≡ [] → record r { body = [] } ≡ r
bare_body r e = ap (λ b. record r { body = b }) (sym e)

abbrev framed : Message → Bytes → HttpRequest
framed m body = so_far m (m.headers ++ framing body)

ends :
    (m : Message) (rest : Bytes) (f : ℕ) (body : Bytes)
    → IsMessage m
    → length body ≤ int_max
    → length (body ++ rest) < f
    → text_loop f (at (after_headers (framed m body)) (framed m body)) (body ++ rest)
      ≡ some (answer_of (record (framed m body) { body = body }) rest)
ends m rest f [] h l k =
    let r = so_far m m.headers in
    let no_body : r.body ≡ [] =
      headed-body m.headers (lined m.method m.target m.version empty_request)
      ∙ lined-body m.method m.target m.version empty_request in
    rw (append-nil m.headers, bare_body r no_body) (ends_bare f r rest (no_length m h) k)
ends m rest zero (a ∷ s) h l k = absurd (omega arith)
ends m rest (suc f) (a ∷ s) h l k =
    ends_sized f (framed m (a ∷ s)) a s rest
      (with_length (lined m.method m.target m.version empty_request) m.headers a s l)

-- The whole run.
pub loop-render :
    (m : Message) (rest : Bytes) (f : ℕ)
    → IsMessage m
    → length (render m ++ rest) < f
    → text_loop f reset (render m ++ rest) ≡ some (answer_of (request_of m) rest)
loop-render m rest f h k =
    let hs = m.headers ++ framing m.body in
    let body = m.body ++ rest in
    let fuel = length (head hs body) + length body + 4 in
    rw (render-append m rest) (
      turned f fuel reset _ _ (head hs body) (line_turn m (head hs body) h)
        (rw (sym (render-append m rest)) k) (omega arith)
      ∙ heads_run fuel fuel hs _ body
          (lines-append m.headers (framing m.body) h.headers (framing-are_lines m.body))
          (omega arith) (omega arith)
      ∙ turned fuel fuel _ _ (13 ∷ 10 ∷ body) body (blank_turn (so_far m hs) body) (omega arith)
          (omega arith)
      ∙ ends m rest fuel m.body h h.body (omega arith))

-- A request that is written out is parsed back: from a fresh context, on a well-formed buffer that
-- shows the text of a well-formed message and any bytes behind it, the parser succeeds with that
-- message's request, and the bytes behind it are what the buffer shows next.
pub parse-render :
    (m : Message) (rest : Bytes) (b : Buffer)
    → IsMessage m
    → IsValid b
    → contents b ≡ render m ++ rest
    → (p : Parsed Buffer) × (parse reset b ≡ some p)
      × (p.context.state ≡ got_all)
      × (p.context.request ≡ request_of m)
      × (p.complete ≡ true)
      × IsValid p.buffer
      × (contents p.buffer ≡ rest)
parse-render m rest b h v e =
    let run : text_loop (readable_bytes b + 2) reset (contents b)
        ≡ some (answer_of (request_of m) rest) =
      rw (e) (
        loop-render m rest (readable_bytes b + 2) h
          (omega (arith, length-contents b v, ap length e))) in
    let (p, found, ctx, shows, done) =
      parse-Answers reset b (answer_of (request_of m) rest) v run in
    (p, found, ap (λ c. c.state) ctx, ap (λ c. c.request) ctx, done, shows.0, shows.1)
