-- ===== src/Http/Response/Lines.antt =====
-- src/http/HttpResponse.cpp: the text of a response, line by line.
use user_center.Base.{
  ◌≡◌, ◌∙◌, ◌++◌, refl, sym, ap, [], ◌∷◌, Bool, true, false, not, ◌&&◌, Bytes, codes, to_string,
  length, append_assoc, append-nil, if◌then◌else◌,
}
use user_center.Base.Searching.{lacks}
use user_center.Http.Request.{Headers, find_header}
use user_center.Http.Context.Messages.{header_line, head}
use user_center.Http.Response.{
  HttpResponse, crlf, header_lines, is_empty, is_missing, auto_line, status_line, auto_lines,
  serialize,
}

-- A header line that can be read: no colon in the name, no carriage return at all.
abbrev pub is_sendable : Headers → Bool
is_sendable [] = true
is_sendable ((name, value) ∷ rest) =
    lacks 58 name && lacks 13 name && lacks 13 value && is_sendable rest

-- The headers that `serialize` adds.
abbrev pub automatic_of : Bytes → Headers → Headers
automatic_of body headers =
    (if not (is_empty body) && is_missing (find_header (codes "Content-Length") headers)
      then (codes "Content-Length", to_string (length body)) ∷ []
      else [])
    ++ (if not (is_empty body) && is_missing (find_header (codes "Content-Type") headers)
        then (codes "Content-Type", codes "text/plain") ∷ []
        else [])
    ++ (if is_missing (find_header (codes "Server") headers)
        then (codes "Server", codes "MyCppServer/1.0") ∷ []
        else [])

abbrev pub automatic : HttpResponse → Headers
automatic r = automatic_of r.body r.headers

abbrev pub status_text_line : HttpResponse → Bytes
status_text_line r = codes "HTTP/1.1 " ++ to_string r.status_code ++ codes " " ++ r.status_message

auto_line-header_lines :
    (b : Bool) (key value : Bytes)
    → auto_line b key value ≡ header_lines (if b then (key, value) ∷ [] else [])
unfolding header_lines
auto_line-header_lines true key value = sym (append-nil (key ++ codes ": " ++ value ++ crlf))
auto_line-header_lines false key value = refl

header_lines-append :
    (hs ks : Headers) → header_lines (hs ++ ks) ≡ header_lines hs ++ header_lines ks
unfolding header_lines
header_lines-append [] ks = refl
header_lines-append ((k, v) ∷ hs) ks =
    ap (λ t. (k ++ codes ": " ++ v ++ crlf) ++ t) (header_lines-append hs ks)
    ∙ sym (append_assoc (k ++ codes ": " ++ v ++ crlf) (header_lines hs) (header_lines ks))

three :
    (a b c : Bytes) (x y z : Headers)
    → a ≡ header_lines x
    → b ≡ header_lines y
    → c ≡ header_lines z
    → a ++ b ++ c ≡ header_lines (x ++ y ++ z)
three a b c x y z e f g = rw (e, f, g, header_lines-append (x ++ y) z, header_lines-append x y) refl

auto_lines-header_lines : (r : HttpResponse) → auto_lines r ≡ header_lines (automatic r)
unfolding auto_lines
auto_lines-header_lines r =
    let a = not (is_empty r.body) && is_missing (find_header (codes "Content-Length") r.headers) in
    let b = not (is_empty r.body) && is_missing (find_header (codes "Content-Type") r.headers) in
    let c = is_missing (find_header (codes "Server") r.headers) in
    let x : Headers = if a then (codes "Content-Length", to_string (length r.body)) ∷ [] else [] in
    let y : Headers = if b then (codes "Content-Type", codes "text/plain") ∷ [] else [] in
    let z : Headers = if c then (codes "Server", codes "MyCppServer/1.0") ∷ [] else [] in
    three _ _ _ x y z
      (auto_line-header_lines a (codes "Content-Length") (to_string (length r.body)))
      (auto_line-header_lines b (codes "Content-Type") (codes "text/plain"))
      (auto_line-header_lines c (codes "Server") (codes "MyCppServer/1.0"))

one_line : (k v t : Bytes) → (k ++ codes ": " ++ v ++ crlf) ++ t ≡ header_line (k, v) ++ 13 ∷ 10 ∷ t
one_line k v t = simp append_assoc

lines-head : (hs : Headers) (body : Bytes) → header_lines hs ++ (crlf ++ body) ≡ head hs body
unfolding header_lines
lines-head [] body = refl
lines-head ((k, v) ∷ hs) body =
    append_assoc (k ++ codes ": " ++ v ++ crlf) (header_lines hs) (crlf ++ body)
    ∙ one_line k v (header_lines hs ++ (crlf ++ body))
    ∙ ap (λ t. header_line (k, v) ++ 13 ∷ 10 ∷ t) (lines-head hs body)

-- The text of a response, line by line.
pub serialize-head :
    (order : Headers → Headers) (r : HttpResponse) (rest : Bytes)
    → serialize order r ++ rest
      ≡ status_text_line r ++ 13 ∷ 10 ∷ head (order r.headers ++ automatic r) (r.body ++ rest)
unfolding serialize status_line
serialize-head order r rest =
    rw
      (
        sym (lines-head (order r.headers ++ automatic r) (r.body ++ rest)),
        header_lines-append (order r.headers) (automatic r),
        auto_lines-header_lines r,
      )
      (simp append_assoc)
