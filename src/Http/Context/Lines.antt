-- ===== src/Http/Context/Lines.antt =====
-- src/http/Context.cpp: the request line as a client writes it, and what the parser reads in it.
use user_center.Base.{
  suc, ◌+◌, ◌-◌, ◌≡◌, ◌∙◌, ◌++◌, refl, ap, [], ◌∷◌, some, Bool, true, false, Bytes, codes, bytes_eq,
  arith, length, drop,
}
use user_center.Base.Searching.{
  lacks, find_byte-lacks, find_byte_at, take_front, lacks-append, drop_behind,
}
use user_center.Buffer.{find_crlf_bytes}
use user_center.Http.Request.{Method, HttpRequest}
use user_center.Http.Context.{
  method_of, set_uri, set_version, set_line, parse_request_line, substr, find_from,
}

-- A line without a carriage return ends at the first line end.
pub find_crlf-line :
    (s t : Bytes) → lacks 13 s ≡ true → find_crlf_bytes (s ++ 13 ∷ 10 ∷ t) ≡ some (length s)
unfolding find_crlf_bytes
find_crlf-line [] t h = refl
find_crlf-line (a ∷ []) t h = ground arith
find_crlf-line (a ∷ b ∷ s) t h = ground (arith, find_crlf-line (b ∷ s) t)

-- A path, with a query or without.
pub data Target : Type 0 where
  plain : Bytes → Target
  queried : Bytes → Bytes → Target

pub data Version : Type 0 where
  http10 http11 : Version

abbrev pub token : Method → Bytes
token Method.invalid = []
token Method.get = codes "GET"
token Method.post = codes "POST"
token Method.put = codes "PUT"
token Method.delete = codes "DELETE"
token Method.head = codes "HEAD"
token Method.patch = codes "PATCH"

abbrev pub uri : Target → Bytes
uri (plain path) = path
uri (queried path query) = path ++ 63 ∷ query

abbrev pub version_text : Version → Bytes
version_text http10 = codes "HTTP/1.0"
version_text http11 = codes "HTTP/1.1"

abbrev pub request_line : Method → Target → Version → Bytes
request_line m t v = token m ++ 32 ∷ (uri t ++ 32 ∷ version_text v)

-- No space and no carriage return in the target, and no question mark in the path.
abbrev pub IsTarget : Target → Type 0
IsTarget (plain path) = (lacks 32 path ≡ true) × (lacks 13 path ≡ true) × (lacks 63 path ≡ true)
IsTarget (queried path query) =
    (lacks 32 (path ++ 63 ∷ query) ≡ true)
    × (lacks 13 (path ++ 63 ∷ query) ≡ true)
    × (lacks 63 path ≡ true)

abbrev pub is_method : Method → Bool
is_method Method.invalid = false
is_method _ = true

-- The request with what its first line says.
abbrev pub lined : Method → Target → Version → HttpRequest → HttpRequest
lined m (plain path) v r = record r { method = m; path = path; version = version_text v }
lined m (queried path query) v r = record r {
  method = m;
  path = path;
  query = query;
  version = version_text v;
}

method_of-token : (m : Method) → is_method m ≡ true → method_of (token m) ≡ some m
unfolding method_of bytes_eq
method_of-token Method.invalid h = cc
method_of-token Method.get h = refl
method_of-token Method.post h = refl
method_of-token Method.put h = refl
method_of-token Method.delete h = refl
method_of-token Method.head h = refl
method_of-token Method.patch h = refl

lacks-token : (m : Method) → lacks 32 (token m) ≡ true
lacks-token Method.invalid = refl
lacks-token Method.get = refl
lacks-token Method.post = refl
lacks-token Method.put = refl
lacks-token Method.delete = refl
lacks-token Method.head = refl
lacks-token Method.patch = refl

lacks-uri : (t : Target) → IsTarget t → lacks 32 (uri t) ≡ true
lacks-uri (plain path) h = h.0
lacks-uri (queried path query) h = h.0

lacks_cr-token : (m : Method) → lacks 13 (token m) ≡ true
lacks_cr-token Method.invalid = refl
lacks_cr-token Method.get = refl
lacks_cr-token Method.post = refl
lacks_cr-token Method.put = refl
lacks_cr-token Method.delete = refl
lacks_cr-token Method.head = refl
lacks_cr-token Method.patch = refl

lacks_cr-uri : (t : Target) → IsTarget t → lacks 13 (uri t) ≡ true
lacks_cr-uri (plain path) h = h.1
lacks_cr-uri (queried path query) h = h.1

lacks_cr-version : (v : Version) → lacks 13 (version_text v) ≡ true
lacks_cr-version http10 = refl
lacks_cr-version http11 = refl

pub lacks_cr-request_line :
    (m : Method) (t : Target) (v : Version) → IsTarget t → lacks 13 (request_line m t v) ≡ true
lacks_cr-request_line m t v h =
    lacks-append 13 (token m) (32 ∷ (uri t ++ 32 ∷ version_text v)) (lacks_cr-token m)
      (lacks-append 13 (uri t) (32 ∷ version_text v) (lacks_cr-uri t h) (lacks_cr-version v))

set_uri-uri :
    (t : Target) (v : Version) (r : HttpRequest)
    → IsTarget t
    → set_version (version_text v) (set_uri (uri t) r) ≡ (lined r.method t v r, true)
unfolding set_uri set_version bytes_eq
set_uri-uri (plain path) http10 r (_, _, k) = rw (find_byte-lacks 63 path k, set_uri) refl
set_uri-uri (plain path) http11 r (_, _, k) = rw (find_byte-lacks 63 path k, set_uri) refl
set_uri-uri (queried path query) http10 r (_, _, k) =
    rw
      (
        find_byte_at 63 path query k,
        take_front path (63 ∷ query),
        drop_behind 1 (length path + 1) path (63 ∷ query) refl,
        set_uri,
      )
      refl
set_uri-uri (queried path query) http11 r (_, _, k) =
    rw
      (
        find_byte_at 63 path query k,
        take_front path (63 ∷ query),
        drop_behind 1 (length path + 1) path (63 ∷ query) refl,
        set_uri,
      )
      refl

lined_again :
    (m : Method) (t : Target) (v : Version) (r : HttpRequest)
    → lined m t v (record r { method = m }) ≡ lined m t v r
lined_again m (plain path) v r = refl
lined_again m (queried path query) v r = refl

set_line_of :
    (s : Bytes) (m : Method) (t : Target) (v : Version) (r : HttpRequest)
    → method_of s ≡ some m
    → IsTarget t
    → set_line s (uri t) (version_text v) r ≡ (lined m t v r, true)
unfolding set_line
set_line_of s m t v r h k =
    rw (h, set_line)
      (set_uri-uri t v (record r { method = m }) k ∙ ap (λ q. (q, true)) (lined_again m t v r))

second_space :
    (a u w : Bytes)
    → lacks 32 u ≡ true
    → find_from 32 (length a + 1) (a ++ 32 ∷ (u ++ 32 ∷ w)) ≡ some (length a + 1 + length u)
second_space a u w h =
    rw (drop_behind 1 (length a + 1) a (32 ∷ (u ++ 32 ∷ w)) refl, find_byte_at 32 u w h) refl

second_word :
    (a u w : Bytes)
    → substr (a ++ 32 ∷ (u ++ 32 ∷ w)) (length a + 1) (length a + 1 + length u - length a - 1) ≡ u
second_word a u w =
    let e : length a + 1 + length u - length a - 1 ≡ length u = omega arith in
    rw (drop_behind 1 (length a + 1) a (32 ∷ (u ++ 32 ∷ w)) refl, e) (take_front u (32 ∷ w))

third_word : (a u w : Bytes) → drop (length a + 1 + length u + 1) (a ++ 32 ∷ (u ++ 32 ∷ w)) ≡ w
third_word a u w =
    drop_behind (suc (length u + 1)) (length a + 1 + length u + 1) a (32 ∷ (u ++ 32 ∷ w))
      (omega arith)
    ∙ drop_behind 1 (length u + 1) u (32 ∷ w) refl

parse_request_line-set_line :
    (a u w : Bytes) (r : HttpRequest)
    → lacks 32 a ≡ true
    → lacks 32 u ≡ true
    → parse_request_line (a ++ 32 ∷ (u ++ 32 ∷ w)) r ≡ set_line a u w r
unfolding parse_request_line
parse_request_line-set_line a u w r h k =
    rw
      (
        find_byte_at 32 a (u ++ 32 ∷ w) h,
        second_space a u w k,
        take_front a (32 ∷ (u ++ 32 ∷ w)),
        second_word a u w,
        third_word a u w,
        parse_request_line,
      )
      refl

pub parse_request_line-lined :
    (m : Method) (t : Target) (v : Version) (r : HttpRequest)
    → is_method m ≡ true
    → IsTarget t
    → parse_request_line (request_line m t v) r ≡ (lined m t v r, true)
parse_request_line-lined m t v r h k =
    parse_request_line-set_line (token m) (uri t) (version_text v) r (lacks-token m) (lacks-uri t k)
    ∙ set_line_of (token m) m t v r (method_of-token m h) k
