-- ===== src/Http/Request.antt =====
-- include/http/HttpRequest.h and src/http/HttpRequest.cpp. The header map is an association list
-- with one entry for each key; `std::tolower` is that of the C locale.
pub mod Length
use user_center.Base.{
  ℕ, ◌+◌, ◌-◌, ◌*◌, ◌^◌, List, [], ◌∷◌, map, Option, none, some, Bool, true, false, not, ◌&&◌, ◌||◌,
  Bytes, codes, bytes_eq, ltb, leb, if◌then◌else◌, ◌==◌,
}
use user_center.Base.Strtol.{int_max, skip_space, strtol}

pub data Method : Type 0 where
  invalid get post put delete head patch : Method

abbrev pub Headers : Type 0
Headers = List (Bytes × Bytes)

pub record HttpRequest : Type 0 where
  pub method : Method
  pub path : Bytes
  pub version : Bytes
  pub query : Bytes
  pub body : Bytes
  pub headers : Headers

abbrev pub empty_request : HttpRequest
empty_request = record {
  method = Method.invalid;
  path = [];
  version = [];
  query = [];
  body = [];
  headers = [];
}

-- `headers_.find(key)`
unfoldable pub find_header : Bytes → Headers → Option Bytes
find_header key [] = none
find_header key ((k, v) ∷ rest) = if bytes_eq k key then some v else find_header key rest

-- `headers_[key] = value`
unfoldable pub put_header : Bytes → Bytes → Headers → Headers
put_header key value [] = (key, value) ∷ []
put_header key value ((k, v) ∷ rest) =
    if bytes_eq k key then (k, value) ∷ rest else (k, v) ∷ put_header key value rest

unfoldable pub add_header : Bytes → Bytes → HttpRequest → HttpRequest
unfolding put_header
add_header key value r = record r { headers = put_header key value r.headers }

unfoldable pub to_lower : ℕ → ℕ
to_lower c = if leb b'A' c && leb c b'Z' then c + 32 else c

-- A missing header reads as the empty string.
abbrev pub or_empty : Option Bytes → Bytes
or_empty none = []
or_empty (some v) = v

unfoldable pub get_header : Bytes → HttpRequest → Bytes
unfolding find_header to_lower
get_header key r = elim (find_header key r.headers) [
  | some v ↦ v
  | none ↦ or_empty (find_header (map to_lower key) r.headers)
]

-- `*endptr == '\0'`
abbrev pub at_end : Bytes → Bool
at_end [] = true
at_end (c ∷ s) = c == 0

-- The number after the leading spaces; `none` is the source's -1.
unfoldable pub checked_length : Option (Bool × ℕ × Bytes) → Option ℕ
checked_length none = none
checked_length (some (negative, n, rest)) =
    if not (at_end rest) || negative && ltb 0 n || ltb int_max n then none else some n

unfoldable pub length_of_value : Bytes → Option ℕ
length_of_value value = checked_length (strtol (skip_space value))

unfoldable pub get_content_length : HttpRequest → Option ℕ
get_content_length r = elim (find_header (codes "Content-Length") r.headers) [
  | none ↦ none
  | some value ↦ length_of_value value
]
