-- ===== src/Http/Context/Messages/Fields.antt =====
-- include/http/HttpRequest.h: what the header lines of a message leave in the request.
use user_center.Base.{
  ℕ, ◌≤◌, ◌≡◌, ◌∙◌, ◌++◌, refl, ap, [], ◌∷◌, none, some, true, Bytes, codes, arith, length,
}
use user_center.Base.Strtol.{int_max}
use user_center.Http.Request.{
  find_header, Method, Headers, HttpRequest, empty_request, add_header, get_content_length,
}
use user_center.Http.Request.Length.{find-put_header-other, add_header-content_length}
use user_center.Http.Context.Lines.{Target, Version, lined}
use user_center.Http.Context.Fields.{lacks_cr-to_string, to_string-is_tight}
use user_center.Http.Context.Messages.{
  Message, IsMessage, framing, headed, are_lines, lacks_length, so_far,
}

pub headed-append :
    (hs ks : Headers) (r : HttpRequest) → headed (hs ++ ks) r ≡ headed ks (headed hs r)
headed-append [] ks r = refl
headed-append ((name, value) ∷ hs) ks r = headed-append hs ks (add_header name value r)

pub headed-body : (hs : Headers) (r : HttpRequest) → (headed hs r).body ≡ r.body
unfolding add_header
headed-body [] r = refl
headed-body ((name, value) ∷ hs) r = headed-body hs (add_header name value r)

pub lined-body :
    (m : Method) (t : Target) (v : Version) (r : HttpRequest) → (lined m t v r).body ≡ r.body
lined-body m (Target.plain path) v r = refl
lined-body m (Target.queried path query) v r = refl

lined-headers :
    (m : Method) (t : Target) (v : Version) (r : HttpRequest) → (lined m t v r).headers ≡ r.headers
lined-headers m (Target.plain path) v r = refl
lined-headers m (Target.queried path query) v r = refl

pub lines-append :
    (hs ks : Headers) → are_lines hs ≡ true → are_lines ks ≡ true → are_lines (hs ++ ks) ≡ true
lines-append [] ks h k = k
lines-append (x ∷ hs) ks h k = ground (arith, lines-append hs ks)

pub framing-are_lines : (body : Bytes) → are_lines (framing body) ≡ true
framing-are_lines [] = refl
framing-are_lines (a ∷ s) =
    rw (lacks_cr-to_string (length (a ∷ s)), to_string-is_tight (length (a ∷ s))) refl

headed-no_length :
    (hs : Headers) (r : HttpRequest)
    → lacks_length hs ≡ true
    → find_header (codes "Content-Length") (headed hs r).headers
      ≡ find_header (codes "Content-Length") r.headers
unfolding add_header
headed-no_length [] r h = refl
headed-no_length ((name, value) ∷ hs) r h =
    headed-no_length hs (add_header name value r) (ground arith)
    ∙ find-put_header-other (codes "Content-Length") name value r.headers (ground arith)

pub no_length : (m : Message) → IsMessage m → get_content_length (so_far m m.headers) ≡ none
unfolding get_content_length find_header
no_length m h =
    let e =
      headed-no_length m.headers (lined m.method m.target m.version empty_request) h.no_length
      ∙ ap (find_header (codes "Content-Length"))
          (lined-headers m.method m.target m.version empty_request) in
    rw (e, get_content_length) refl

pub with_length :
    (r : HttpRequest) (hs : Headers) (a : ℕ) (s : Bytes)
    → length (a ∷ s) ≤ int_max
    → get_content_length (headed (hs ++ framing (a ∷ s)) r) ≡ some (length (a ∷ s))
with_length r hs a s h =
    ap get_content_length (headed-append hs (framing (a ∷ s)) r)
    ∙ add_header-content_length (length (a ∷ s)) (headed hs r) h
