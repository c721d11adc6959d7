-- ===== src/Http/Response/Client.antt =====
-- The other side of src/http/HttpResponse.cpp: a client that reads responses from one stream. It takes the
-- status line and the header lines up to the empty line, and as many bytes of body as the header
-- Content-Length says; without that header there is no body.
use user_center.Base.{
  ℕ, zero, suc, ◌+◌, [], ◌∷◌, Option, none, some, true, false, Bytes, codes, find_byte, take, drop,
  length, leb, if◌then◌else◌, ◌==◌,
}
use user_center.Buffer.{find_crlf_bytes}
use user_center.Http.Request.{Headers, find_header, length_of_value}

-- The headers up to the empty line, and what is behind it.
abbrev pub add_line : Bytes → Option ℕ → Option (Headers × Bytes) → Option (Headers × Bytes)
add_line line none more = none
add_line line (some colon) none = none
add_line line (some colon) (some (headers, rest)) =
    some ((take colon line, drop (colon + 2) line) ∷ headers, rest)

unfoldable pub read_headers : ℕ → Bytes → Option (Headers × Bytes)
read_headers zero xs = none
read_headers (suc fuel) xs = elim (find_crlf_bytes xs) [
  | none ↦ none
  | some pos ↦ elim (pos == 0) [
    | true ↦ some ([], drop 2 xs)
    | false ↦
        add_line (take pos xs) (find_byte b':' (take pos xs))
          (read_headers fuel (drop (pos + 2) xs))
  ]
]

pub record Received : Type 0 where
  pub status : Bytes
  pub headers : Headers
  pub body : Bytes
  pub unread : Bytes

abbrev pub body_length : Headers → Option ℕ
body_length headers = elim (find_header (codes "Content-Length") headers) [
  | none ↦ some 0
  | some value ↦ length_of_value value
]

unfoldable pub take_response : Bytes → Headers → Bytes → Option ℕ → Option Received
take_response status headers rest none = none
take_response status headers rest (some n) =
    if leb n (length rest)
    then some
        (record { status = status; headers = headers; body = take n rest; unread = drop n rest })
    else none

unfoldable pub with_headers : Bytes → Option (Headers × Bytes) → Option Received
unfolding take_response find_header length_of_value
with_headers status none = none
with_headers status (some (headers, rest)) = take_response status headers rest (body_length headers)

unfoldable pub read_response : Bytes → Option Received
unfolding read_headers with_headers
read_response xs = elim (find_crlf_bytes xs) [
  | none ↦ none
  | some pos ↦ with_headers (take pos xs) (read_headers (length xs) (drop (pos + 2) xs))
]
