-- ===== src/Http/Context.antt =====
-- include/http/HttpContext.h and src/http/Context.cpp: the parser as a state machine. One turn of
-- the loop in `parse` is `round`; the loop itself takes fuel.
pub mod Stream
pub mod Turns
pub mod Chunks
pub mod Prefixes
pub mod Lines
pub mod Fields
pub mod Messages
use user_center.Base.{
  ℕ, zero, suc, ◌+◌, ◌-◌, ◌≡◌, List, [], ◌∷◌, Option, none, some, Bool, true, false, ◌||◌, Bytes,
  codes, bytes_eq, find_byte, take, drop, length, ltb, leb, if◌then◌else◌, ◌==◌,
}
use mathlib.Core.Option
use user_center.Buffer.{Buffer, find_crlf, peek_string, retrieve, readable_bytes}
use user_center.Http.Request.{Method, HttpRequest, empty_request, add_header, get_content_length}

pub data ParseState : Type 0 where
  expect_request_line expect_headers expect_body got_all error : ParseState

pub record HttpContext : Type 0 where
  pub state : ParseState
  pub request : HttpRequest

unfoldable pub reset : HttpContext
reset = record { state = expect_request_line; request = empty_request }

abbrev pub is_got_all : ParseState → Bool
is_got_all got_all = true
is_got_all _ = false

abbrev pub is_error : ParseState → Bool
is_error error = true
is_error _ = false

-- `s.substr(pos, n)` and `s.substr(pos)`
abbrev pub substr : Bytes → ℕ → ℕ → Bytes
substr s pos n = take n (drop pos s)

-- `s.find(c, start)`
abbrev pub find_from : ℕ → ℕ → Bytes → Option ℕ
find_from c start s = Option.map (λ n. start + n) (find_byte c (drop start s))

unfoldable pub method_of : Bytes → Option Method
method_of s =
    if bytes_eq s (codes "GET")
    then some Method.get
    else if bytes_eq s (codes "POST")
    then some Method.post
    else if bytes_eq s (codes "PUT")
    then some Method.put
    else if bytes_eq s (codes "DELETE")
    then some Method.delete
    else if bytes_eq s (codes "HEAD")
    then some Method.head
    else if bytes_eq s (codes "PATCH")
    then some Method.patch
    else none

-- The path and the query of a URI; without a question mark the query is not set.
unfoldable pub set_uri : Bytes → HttpRequest → HttpRequest
set_uri uri r = elim (find_byte b'?' uri) [
  | some q ↦ record r { path = take q uri; query = drop (q + 1) uri }
  | none ↦ record r { path = uri }
]

-- The version comes last, so a wrong one leaves the rest of the line in the request.
unfoldable pub set_version : Bytes → HttpRequest → HttpRequest × Bool
set_version version r =
    if bytes_eq version (codes "HTTP/1.0") || bytes_eq version (codes "HTTP/1.1")
    then (record r { version = version }, true)
    else (r, false)

unfoldable pub set_line : Bytes → Bytes → Bytes → HttpRequest → HttpRequest × Bool
unfolding method_of set_uri set_version
set_line method_text uri version r = elim (method_of method_text) [
  | none ↦ (r, false)
  | some m ↦ set_version version (set_uri uri (record r { method = m }))
]

unfoldable pub parse_request_line : Bytes → HttpRequest → HttpRequest × Bool
unfolding set_line
parse_request_line line r = elim (find_byte 32 line) [
  | none ↦ (r, false)
  | some pos1 ↦ elim (find_from 32 (pos1 + 1) line) [
    | none ↦ (r, false)
    | some pos2 ↦
        set_line (take pos1 line) (substr line (pos1 + 1) (pos2 - pos1 - 1)) (drop (pos2 + 1) line)
          r
  ]
]

unfoldable pub is_blank : ℕ → Bool
is_blank c = c == 32 || c == 9

-- From the first byte that is no blank; a text of blanks is kept.
unfoldable pub first_not_blank : Bytes → Option ℕ
unfolding is_blank
first_not_blank [] = none
first_not_blank (c ∷ s) = if is_blank c then Option.map suc (first_not_blank s) else some 0

unfoldable pub last_not_blank : Bytes → Option ℕ
unfolding is_blank
last_not_blank [] = none
last_not_blank (c ∷ s) = elim (last_not_blank s) [
  | some n ↦ some (suc n)
  | none ↦ if is_blank c then none else some 0
]

unfoldable pub trim_left : Bytes → Bytes
unfolding first_not_blank
trim_left s = elim (first_not_blank s) [ some n ↦ drop n s | none ↦ s ]

unfoldable pub trim_right : Bytes → Bytes
unfolding last_not_blank
trim_right s = elim (last_not_blank s) [ some n ↦ take (n + 1) s | none ↦ s ]

unfoldable pub parse_header : Bytes → HttpRequest → HttpRequest × Bool
unfolding trim_left trim_right
parse_header line r = elim (find_byte b':' line) [
  | none ↦ (r, false)
  | some colon ↦
      (add_header (take colon line) (trim_right (trim_left (drop (colon + 1) line))) r, true)
]

-- What one turn of the loop does: goes on, breaks out, or returns.
pub data Round {ℓ} (B : Type ℓ) : Type ℓ where
  again : HttpContext → B → Round B
  stop : HttpContext → B → Round B
  return : HttpContext → B → Bool → Round B

-- The request line, or a refusal with the state set to `error`.
unfoldable pub line_round {ℓ} : {B : Type ℓ} → HttpRequest × Bool → ParseState → B → B → Round B
line_round (r, ok) next before after =
    if ok
    then again (record { state = next; request = r }) after
    else return (record { state = error; request = r }) before false

-- The state after the empty line: a positive length asks for a body.
unfoldable pub after_headers : HttpRequest → ParseState
after_headers r = elim (get_content_length r) [
  | none ↦ got_all
  | some n ↦ if ltb 0 n then expect_body else got_all
]

unfoldable pub request_line_round : HttpContext → Buffer → Round Buffer
unfolding line_round
request_line_round c b = elim (find_crlf b) [
  | none ↦ stop c b
  | some pos ↦
      line_round (parse_request_line (peek_string pos b) c.request) expect_headers b
        (retrieve (pos + 2) b)
]

unfoldable pub header_round : HttpContext → Buffer → Round Buffer
unfolding line_round after_headers
header_round c b = elim (find_crlf b) [
  | none ↦ stop c b
  | some pos ↦
      if pos == 0
      then again (record c { state = after_headers c.request }) (retrieve 2 b)
      else line_round (parse_header (peek_string pos b) c.request) expect_headers b
          (retrieve (pos + 2) b)
]

-- With `need` bytes there the body is taken.
unfoldable pub take_body : ℕ → HttpContext → Buffer → Round Buffer
take_body need c b =
    if leb need (readable_bytes b)
    then return
        (record { state = got_all; request = record (c.request) { body = peek_string need b } })
        (retrieve need b) true
    else stop c b

unfoldable pub body_round : HttpContext → Buffer → Round Buffer
unfolding take_body
body_round c b = elim (get_content_length c.request) [
  | none ↦ return (record c { state = got_all }) b true
  | some need ↦
      if need == 0 then return (record c { state = got_all }) b true else take_body need c b
]

-- The loop's test is on the state: a finished parser does no turn.
unfoldable pub dispatch : ParseState → HttpContext → Buffer → Round Buffer
unfolding request_line_round header_round body_round
dispatch expect_request_line c b = request_line_round c b
dispatch expect_headers c b = header_round c b
dispatch expect_body c b = body_round c b
dispatch got_all c b = stop c b
dispatch error c b = stop c b

unfoldable pub round : HttpContext → Buffer → Round Buffer
unfolding dispatch
round c b = dispatch c.state c b

pub record Parsed {ℓ} (B : Type ℓ) : Type ℓ where
  pub context : HttpContext
  pub buffer : B
  pub complete : Bool

abbrev pub after_turn {ℓ} :
    {B : Type ℓ} → (HttpContext → B → Option (Parsed B)) → Round B → Option (Parsed B)
after_turn rest (again c b) = rest c b
after_turn rest (stop c b) =
    some (record { context = c; buffer = b; complete = is_got_all c.state })
after_turn rest (return c b done) = some (record { context = c; buffer = b; complete = done })

-- The loop over any kind of turn; `none` means that the fuel ran out.
unfoldable pub loop {ℓ} :
    {B : Type ℓ} → (HttpContext → B → Round B) → ℕ → HttpContext → B → Option (Parsed B)
loop turn zero c b = none
loop turn (suc fuel) c b = after_turn (loop turn fuel) (turn c b)

unfoldable pub parse_fuel : ℕ → HttpContext → Buffer → Option (Parsed Buffer)
unfolding loop
parse_fuel fuel c b = loop round fuel c b

-- Each turn that goes on takes two bytes or leaves the headers for the body.
unfoldable pub parse : HttpContext → Buffer → Option (Parsed Buffer)
unfolding parse_fuel
parse c b = parse_fuel (readable_bytes b + 2) c b
