-- ===== src/Http/Request/Length.antt =====
-- src/http/HttpRequest.cpp: `Content-Length` as a number that a client prints.
use user_center.Base.{
  ℕ, ◌≤◌, ◌≡◌, Bytes, some, to_string, codes, arith, bytes_eq, Bool-cases, inl, inr, [], ◌∷◌,
  bytes_eq_refl, bytes_eq→eq, ap, ◌∙◌, refl, false,
}
use user_center.Base.Strtol.{int_max}
use user_center.Base.Decimal.{to_string-strtol}
use user_center.Http.Request.{
  HttpRequest, Headers, find_header, put_header, add_header, checked_length, length_of_value,
  get_content_length,
}

find-put_header :
    (key value : Bytes) (headers : Headers)
    → find_header key (put_header key value headers) ≡ some value
unfolding find_header put_header
find-put_header key value [] = rw (bytes_eq_refl key)
find-put_header key value ((k, v) ∷ rest) = elim (Bool-cases (bytes_eq k key)) [
  | inl e ↦ rw (e, e)
  | inr e ↦ rw (e, e) (find-put_header key value rest)
]

-- Another key's value is not touched.
pub find-put_header-other :
    (key name value : Bytes) (headers : Headers)
    → bytes_eq name key ≡ false
    → find_header key (put_header name value headers) ≡ find_header key headers
unfolding find_header put_header
find-put_header-other key name value [] h = rw (h, find_header) refl
find-put_header-other key name value ((k, v) ∷ rest) h = elim (Bool-cases (bytes_eq k name)) [
  | inl e ↦
      let other : bytes_eq k key ≡ false = ap (λ n. bytes_eq n key) (bytes_eq→eq k name e) ∙ h in
      rw (e, other, find_header) refl
  | inr e ↦ rw (e, find-put_header-other key name value rest h, find_header) refl
]

-- A length that is printed is read as a number.
pub to_string-length_of_value : (n : ℕ) → n ≤ int_max → length_of_value (to_string n) ≡ some n
unfolding length_of_value checked_length
to_string-length_of_value n h = rw (to_string-strtol n, length_of_value) (ground arith)

-- Every length within an int that a client prints in decimal as its `Content-Length` header is read
-- back as that number, whatever headers the request had before.
pub add_header-content_length :
    (n : ℕ) (r : HttpRequest)
    → n ≤ int_max
    → get_content_length (add_header (codes "Content-Length") (to_string n) r) ≡ some n
unfolding get_content_length add_header length_of_value checked_length
add_header-content_length n r h =
    rw
      (
        get_content_length,
        add_header,
        find-put_header (codes "Content-Length") (to_string n) r.headers,
        length_of_value,
        to_string-strtol n,
      )
      (ground arith)
