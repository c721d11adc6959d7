-- ===== src/Http/Response/Framing.antt =====
-- src/http/HttpResponse.cpp: what `serialize` writes is what a client reads.
use user_center.Base.{
  ℕ, zero, suc, ◌+◌, ◌<◌, ◌≤◌, ◌≡◌, ◌∙◌, ◌++◌, refl, ap, inl, inr, [], ◌∷◌, none, some, Bool, true,
  false, not, ◌&&◌, Bytes, codes, bytes_eq, arith, to_string, length, length-append, leb,
  if◌then◌else◌, Bool-cases, ◌==◌,
}
use user_center.Base.Searching.{
  lacks, lacks-append, find_byte_at, take_front, drop_front, drop_behind,
}
use user_center.Base.Strtol.{int_max}
use user_center.Buffer.{find_crlf_bytes}
use user_center.Http.Request.{Headers, find_header, length_of_value}
use user_center.Http.Request.Length.{to_string-length_of_value}
use user_center.Http.Context.Lines.{find_crlf-line}
use user_center.Http.Context.Fields.{lacks_cr-to_string}
use user_center.Http.Context.Messages.{header_line, head, lacks_length}
use user_center.Http.Response.{HttpResponse, is_empty, is_missing, serialize}
use user_center.Http.Response.Client.{
  read_headers, Received, body_length, take_response, with_headers, read_response,
}
use user_center.Http.Response.Lines.{
  is_sendable, automatic_of, automatic, status_text_line, serialize-head,
}

-- A response that fits the protocol: nothing breaks a line, the length is not set by hand, and it is an
-- int.
pub record IsSendable (order : Headers → Headers) (r : HttpResponse) : Type 0 where
  pub message : lacks 13 r.status_message ≡ true
  pub headers : is_sendable (order r.headers) ≡ true
  pub no_length : lacks_length (order r.headers) ≡ true
  pub length_missing : find_header (codes "Content-Length") r.headers ≡ none
  pub body : length r.body ≤ int_max

sendable-append :
    (hs ks : Headers)
    → is_sendable hs ≡ true
    → is_sendable ks ≡ true
    → is_sendable (hs ++ ks) ≡ true
sendable-append [] ks h k = k
sendable-append ((name, value) ∷ hs) ks h k = ground (arith, sendable-append hs ks)

sendable_if :
    (b : Bool) (hs : Headers) → is_sendable hs ≡ true → is_sendable (if b then hs else []) ≡ true
sendable_if true hs h = h
sendable_if false hs h = refl

three_sendable :
    (a b c : Bool) (x y z : Headers)
    → is_sendable x ≡ true
    → is_sendable y ≡ true
    → is_sendable z ≡ true
    → is_sendable ((if a then x else []) ++ (if b then y else []) ++ (if c then z else [])) ≡ true
three_sendable a b c x y z h k l =
    sendable-append ((if a then x else []) ++ (if b then y else [])) (if c then z else [])
      (sendable-append (if a then x else []) (if b then y else []) (sendable_if a x h)
        (sendable_if b y k))
      (sendable_if c z l)

automatic-is_sendable :
    (body : Bytes) (headers : Headers) → is_sendable (automatic_of body headers) ≡ true
automatic-is_sendable body headers =
    three_sendable
      (not (is_empty body) && is_missing (find_header (codes "Content-Length") headers))
      (not (is_empty body) && is_missing (find_header (codes "Content-Type") headers))
      (is_missing (find_header (codes "Server") headers))
      ((codes "Content-Length", to_string (length body)) ∷ [])
      ((codes "Content-Type", codes "text/plain") ∷ [])
      ((codes "Server", codes "MyCppServer/1.0") ∷ []) (rw (lacks_cr-to_string (length body)) refl)
      refl refl

find_header-behind :
    (hs ks : Headers)
    → lacks_length hs ≡ true
    → find_header (codes "Content-Length") (hs ++ ks) ≡ find_header (codes "Content-Length") ks
unfolding find_header
find_header-behind [] ks h = refl
find_header-behind ((name, value) ∷ hs) ks h =
    let other : bytes_eq name (codes "Content-Length") ≡ false = ground arith in
    rw (other, find_header-behind hs ks (ground arith), find_header) refl

-- The length that the client takes from the headers that were added.
automatic-length :
    (body : Bytes) (headers : Headers)
    → find_header (codes "Content-Length") headers ≡ none
    → length body ≤ int_max
    → body_length (automatic_of body headers) ≡ some (length body)
unfolding find_header bytes_eq
automatic-length [] headers h k =
    elim (Bool-cases (is_missing (find_header (codes "Server") headers))) [
      | inl named ↦ rw named refl
      | inr free ↦ rw free refl
    ]
automatic-length (a ∷ s) headers h k = rw (h) (to_string-length_of_value (length (a ∷ s)) k)

head-longer : (hs : Headers) (rest : Bytes) → length hs < length (head hs rest)
head-longer [] rest = omega arith
head-longer ((k, v) ∷ hs) rest =
    omega (arith, head-longer hs rest, length-append (header_line (k, v)) (13 ∷ 10 ∷ head hs rest))

read_headers-head :
    (f : ℕ) (hs : Headers) (rest : Bytes)
    → is_sendable hs ≡ true
    → length hs < f
    → read_headers f (head hs rest) ≡ some (hs, rest)
unfolding read_headers find_crlf_bytes
read_headers-head zero hs rest h k = absurd (omega arith)
read_headers-head (suc f) [] rest h k = refl
read_headers-head (suc f) ((name, value) ∷ hs) rest h k =
    let line = header_line (name, value) in
    let no_cr : lacks 13 line ≡ true =
      lacks-append 13 name (58 ∷ 32 ∷ value) (ground arith) (ground arith) in
    let some_line : (length line == 0) ≡ false =
      ground (arith, length-append name (58 ∷ 32 ∷ value)) in
    rw
      (
        find_crlf-line line (head hs rest) no_cr,
        some_line,
        take_front line (13 ∷ 10 ∷ head hs rest),
        drop_behind 2 (length line + 2) line (13 ∷ 10 ∷ head hs rest) refl,
        find_byte_at 58 name (32 ∷ value) (ground arith),
        read_headers-head f hs rest (ground arith) (omega arith),
        take_front name (58 ∷ 32 ∷ value),
        drop_behind 2 (length name + 2) name (58 ∷ 32 ∷ value) refl,
        read_headers,
      )
      refl

-- What the client is to make of a response.
abbrev pub received : (Headers → Headers) → HttpResponse → Bytes → Received
received order r rest = record {
  status = status_text_line r;
  headers = order r.headers ++ automatic r;
  body = r.body;
  unread = rest;
}

take_response_lem :
    (status : Bytes) (headers : Headers) (body rest : Bytes)
    → take_response status headers (body ++ rest) (some (length body))
      ≡ some (record { status = status; headers = headers; body = body; unread = rest })
unfolding take_response
take_response_lem status headers body rest =
    let enough : leb (length body) (length (body ++ rest)) ≡ true =
      ground (arith, length-append body rest) in
    rw (enough, take_front body rest, drop_front body rest, take_response) refl

with_headers_lem :
    (order : Headers → Headers) (r : HttpResponse) (rest : Bytes)
    → IsSendable order r
    → with_headers (status_text_line r) (some (order r.headers ++ automatic r, r.body ++ rest))
      ≡ some (received order r rest)
unfolding with_headers
with_headers_lem order r rest h =
    let long : body_length (order r.headers ++ automatic r) ≡ some (length r.body) =
      ap (λ o. elim o [ none ↦ some 0 | some value ↦ length_of_value value ])
        (find_header-behind (order r.headers) (automatic r) h.no_length)
      ∙ automatic-length r.body r.headers h.length_missing h.body in
    ap (take_response (status_text_line r) (order r.headers ++ automatic r) (r.body ++ rest)) long
    ∙ take_response_lem (status_text_line r) (order r.headers ++ automatic r) r.body rest

status_lacks :
    (r : HttpResponse) → lacks 13 r.status_message ≡ true → lacks 13 (status_text_line r) ≡ true
status_lacks r h =
    lacks-append 13 (codes "HTTP/1.1 " ++ to_string r.status_code ++ codes " ") r.status_message
      (lacks-append 13 (to_string r.status_code) (codes " ") (lacks_cr-to_string r.status_code)
        refl)
      h

read_response-head :
    (line : Bytes) (hs : Headers) (rest : Bytes)
    → lacks 13 line ≡ true
    → is_sendable hs ≡ true
    → read_response (line ++ 13 ∷ 10 ∷ head hs rest) ≡ with_headers line (some (hs, rest))
unfolding read_response
read_response-head line hs rest h k =
    let behind = head hs rest in
    rw
      (
        find_crlf-line line behind h,
        take_front line (13 ∷ 10 ∷ behind),
        drop_behind 2 (length line + 2) line (13 ∷ 10 ∷ behind) refl,
        read_headers-head (length (line ++ 13 ∷ 10 ∷ behind)) hs rest k
            (omega (arith, head-longer hs rest, length-append line (13 ∷ 10 ∷ behind))),
        read_response,
      )
      refl

-- A response that is sent is read back, in a stream with anything behind it: the client gets the status
-- line, the headers that were set in the order in which they are walked and the added ones, and the whole
-- body, and what is behind stays unread. That is when nothing breaks a line, Content-Length is not set by
-- hand and the body's length is an int.
pub read_response-serialize :
    (order : Headers → Headers) (r : HttpResponse) (rest : Bytes)
    → IsSendable order r
    → read_response (serialize order r ++ rest) ≡ some (received order r rest)
read_response-serialize order r rest h =
    ap read_response (serialize-head order r rest)
    ∙ read_response-head (status_text_line r) (order r.headers ++ automatic r) (r.body ++ rest)
        (status_lacks r h.message)
        (sendable-append (order r.headers) (automatic r) h.headers
          (automatic-is_sendable r.body r.headers))
    ∙ with_headers_lem order r rest h
