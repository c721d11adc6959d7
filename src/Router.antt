-- ===== src/Router.antt =====
-- include/router/Router.h and src/router/Router.cpp. The route table is an association list with one
-- entry for each pair of path and method; the hash of its keys cannot be seen.
pub mod Matching
use user_center.Base.{
  ℕ, ◌-◌, List, [], ◌∷◌, Option, none, some, Bool, true, false, ◌&&◌, Bytes, codes, bytes_eq,
  length, take, ltb, if◌then◌else◌, ◌==◌,
}
use user_center.Http.Request.{HttpRequest, Method}
use user_center.Http.Response.{
  HttpResponse, set_status_code, set_status_message, set_body, set_content_type,
}

abbrev pub method_number : Method → ℕ
method_number Method.invalid = 0
method_number Method.get = 1
method_number Method.post = 2
method_number Method.put = 3
method_number Method.delete = 4
method_number Method.head = 5
method_number Method.patch = 6

pub record RouteKey : Type 0 where
  pub path : Bytes
  pub method : Method

-- operator==
unfoldable pub same_key : RouteKey → RouteKey → Bool
same_key a b = bytes_eq a.path b.path && method_number a.method == method_number b.method

-- `path.back() == '/'`
unfoldable pub ends_with_slash : Bytes → Bool
ends_with_slash [] = false
ends_with_slash (c ∷ []) = c == b'/'
ends_with_slash (c ∷ d ∷ s) = ends_with_slash (d ∷ s)

-- The answer 404 with its page.
unfoldable pub not_found : HttpResponse → HttpResponse
unfolding set_status_code set_content_type
not_found resp = set_content_type (codes "text/html") (
    set_body (codes "<html><body><h1>404 Not Found</h1></body></html>")
      (set_status_message (codes "Not Found") (set_status_code 404 resp)))

-- `H` is the type of a handler.
module _ {H : Type 0} where
  unfoldable pub find_route : RouteKey → List (RouteKey × H) → Option H
  unfolding same_key
  find_route key [] = none
  find_route key ((k, h) ∷ rest) = if same_key k key then some h else find_route key rest

  unfoldable pub put_route : RouteKey → H → List (RouteKey × H) → List (RouteKey × H)
  unfolding same_key
  put_route key h [] = (key, h) ∷ []
  put_route key h ((k, g) ∷ rest) =
      if same_key k key then (k, h) ∷ rest else (k, g) ∷ put_route key h rest

  unfoldable pub add_route : Bytes → Method → H → List (RouteKey × H) → List (RouteKey × H)
  unfolding put_route
  add_route path method h routes = put_route (record { path = path; method = method }) h routes

  -- The second look-up, without the slash at the end.
  unfoldable pub find_trimmed : Bytes → Method → List (RouteKey × H) → Option H
  unfolding find_route ends_with_slash
  find_trimmed path method routes =
      if ltb 1 (length path) && ends_with_slash path
      then find_route (record { path = take (length path - 1) path; method = method }) routes
      else none

  -- The handler that `dispatch` calls; `none` is the answer 404.
  unfoldable pub choose : HttpRequest → List (RouteKey × H) → Option H
  unfolding find_trimmed
  choose req routes = elim (find_route (record { path = req.path; method = req.method }) routes) [
    | some h ↦ some h
    | none ↦ find_trimmed req.path req.method routes
  ]

-- A handler gives its response as an `R`, in the services a computation that may throw.
unfoldable pub dispatch :
    {R : Type 0}
    → (HttpResponse → R)
    → List (RouteKey × (HttpRequest → HttpResponse → R))
    → HttpRequest
    → HttpResponse
    → R
unfolding choose not_found
dispatch done routes req resp = elim (choose req routes) [
  | some h ↦ h req resp
  | none ↦ done (not_found resp)
]
