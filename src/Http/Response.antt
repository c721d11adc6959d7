-- ===== src/Http/Response.antt =====
-- include/http/HttpResponse.h and src/http/HttpResponse.cpp. The order in which an unordered map is
-- walked is a parameter of `serialize`.
pub mod Client
pub mod Lines
pub mod Framing
use user_center.Base.{
  ℕ, [], ◌∷◌, ◌++◌, Option, none, some, Bool, true, false, not, ◌&&◌, Bytes, codes, to_string,
  length, if◌then◌else◌, ◌==◌,
}
use user_center.Http.Request.{Headers, put_header, find_header}

pub record HttpResponse : Type 0 where
  pub status_code : ℕ
  pub status_message : Bytes
  pub body : Bytes
  pub headers : Headers

abbrev pub new_response : HttpResponse
new_response = record { status_code = 200; status_message = codes "OK"; body = []; headers = [] }

-- The table of messages.
unfoldable pub status_text : ℕ → Bytes
status_text code =
    if code == 200
    then codes "OK"
    else if code == 201
    then codes "Created"
    else if code == 204
    then codes "No Content"
    else if code == 301
    then codes "Moved Permanently"
    else if code == 302
    then codes "Found"
    else if code == 400
    then codes "Bad Request"
    else if code == 403
    then codes "Forbidden"
    else if code == 404
    then codes "Not Found"
    else if code == 405
    then codes "Method Not Allowed"
    else if code == 413
    then codes "Payload Too Large"
    else if code == 500
    then codes "Internal Server Error"
    else if code == 501
    then codes "Not Implemented"
    else codes "Unknown"

unfoldable pub set_status_code : ℕ → HttpResponse → HttpResponse
unfolding status_text
set_status_code code r = record r { status_code = code; status_message = status_text code }

abbrev pub set_status_message : Bytes → HttpResponse → HttpResponse
set_status_message msg r = record r { status_message = msg }

abbrev pub set_body : Bytes → HttpResponse → HttpResponse
set_body body r = record r { body = body }

unfoldable pub set_header : Bytes → Bytes → HttpResponse → HttpResponse
unfolding put_header
set_header key value r = record r { headers = put_header key value r.headers }

unfoldable pub set_content_type : Bytes → HttpResponse → HttpResponse
unfolding set_header
set_content_type kind r = set_header (codes "Content-Type") kind r

abbrev pub crlf : Bytes
crlf = 13 ∷ 10 ∷ []

unfoldable pub header_lines : Headers → Bytes
header_lines [] = []
header_lines ((k, v) ∷ rest) = (k ++ codes ": " ++ v ++ crlf) ++ header_lines rest

abbrev pub is_empty : Bytes → Bool
is_empty [] = true
is_empty (c ∷ s) = false

abbrev pub is_missing : {A : Type 0} → Option A → Bool
is_missing none = true
is_missing (some v) = false

-- The header that `serialize` adds under a test.
abbrev pub auto_line : Bool → Bytes → Bytes → Bytes
auto_line test key value = if test then key ++ codes ": " ++ value ++ crlf else []

unfoldable pub status_line : HttpResponse → Bytes
status_line r =
    codes "HTTP/1.1 " ++ to_string r.status_code ++ codes " " ++ r.status_message ++ crlf

unfoldable pub auto_lines : HttpResponse → Bytes
unfolding find_header
auto_lines r =
    auto_line (not (is_empty r.body) && is_missing (find_header (codes "Content-Length") r.headers))
      (codes "Content-Length") (to_string (length r.body))
    ++ auto_line
        (not (is_empty r.body) && is_missing (find_header (codes "Content-Type") r.headers))
        (codes "Content-Type") (codes "text/plain")
    ++ auto_line (is_missing (find_header (codes "Server") r.headers)) (codes "Server")
        (codes "MyCppServer/1.0")

module _ (order : Headers → Headers) where
  unfoldable pub serialize : HttpResponse → Bytes
  unfolding status_line header_lines auto_lines
  serialize r = status_line r ++ header_lines (order r.headers) ++ auto_lines r ++ crlf ++ r.body
