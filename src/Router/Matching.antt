-- ===== src/Router/Matching.antt =====
-- src/router/Router.cpp: which handler a request reaches.
use user_center.Base.{
  ℕ, ◌+◌, ◌-◌, ◌≡◌, ◌∙◌, inl, inr, refl, ap, List, [], ◌∷◌, ◌++◌, none, some, Bool, true, false,
  ◌&&◌, Bytes, codes, bytes_eq, bytes_eq→eq, bytes_eq_refl, length, length-append, take,
  take-append, take_all, ltb, lt→ltb, if◌then◌else◌, ◌==◌, ==_iff, Bool-cases, arith,
}
use user_center.Http.Request.{HttpRequest, Method}
use user_center.Router.{
  method_number, RouteKey, same_key, ends_with_slash, find_route, put_route, add_route,
  find_trimmed, choose,
}

and-cases : (a b : Bool) → (a && b) ≡ true → (a ≡ true) × (b ≡ true)
and-cases true b e = (refl, e)
and-cases false b e = cc

same_key_refl : (k : RouteKey) → same_key k k ≡ true
unfolding same_key
same_key_refl k =
    rw (bytes_eq_refl k.path, (==_iff (method_number k.method) (method_number k.method)).1 refl)

-- Equal keys compare alike with any third.
same_key_left : (a b c : RouteKey) → same_key a b ≡ true → same_key a c ≡ same_key b c
unfolding same_key
same_key_left a b c e =
    let (paths, methods) =
      and-cases (bytes_eq a.path b.path) (method_number a.method == method_number b.method) e in
    ap (λ p. bytes_eq p c.path && method_number a.method == method_number c.method)
      (bytes_eq→eq a.path b.path paths)
    ∙ ap (λ m. bytes_eq b.path c.path && m == method_number c.method)
        ((==_iff (method_number a.method) (method_number b.method)).0 methods)

module _ {H : Type 0} where
  -- The handler registered last for a path and a method is the one found.
  find-put_self :
      (key : RouteKey) (h : H) (routes : List (RouteKey × H))
      → find_route key (put_route key h routes) ≡ some h
  unfolding find_route put_route
  find-put_self key h [] = rw (same_key_refl key)
  find-put_self key h ((k, g) ∷ rest) = elim (Bool-cases (same_key k key)) [
    | inl e ↦ rw (e, e)
    | inr e ↦ rw (e, e) (find-put_self key h rest)
  ]

  find-put_other :
      (key j : RouteKey) (h : H) (routes : List (RouteKey × H))
      → same_key key j ≡ false
      → find_route j (put_route key h routes) ≡ find_route j routes
  unfolding find_route put_route
  find-put_other key j h [] other = rw other
  find-put_other key j h ((k, g) ∷ rest) other = elim (Bool-cases (same_key k key)) [
    | inl e ↦ rw (e, same_key_left k key j e ∙ other)
    | inr e ↦
        rw e (ap (λ r. if same_key k j then some g else r) (find-put_other key j h rest other))
  ]

module _ {H : Type 0} (req : HttpRequest) (routes : List (RouteKey × H)) (h : H) where
  choose_first :
      find_route (record { path = req.path; method = req.method }) routes ≡ some h
      → choose req routes ≡ some h
  unfolding choose
  choose_first e = rw (choose, e) refl

  choose_second :
      find_route (record { path = req.path; method = req.method }) routes ≡ none
      → ltb 1 (length req.path) ≡ true
      → ends_with_slash req.path ≡ true
      → find_route
          (record { path = take (length req.path - 1) req.path; method = req.method })
          routes
        ≡ some h
      → choose req routes ≡ some h
  unfolding choose find_trimmed
  choose_second e long slash found = rw (choose, e, find_trimmed, long, slash, found) refl

ends_with_slash_lem : (p : Bytes) → ends_with_slash (p ++ codes "/") ≡ true
unfolding ends_with_slash
ends_with_slash_lem [] = refl
ends_with_slash_lem (c ∷ []) = refl
ends_with_slash_lem (c ∷ d ∷ p) = ends_with_slash_lem (d ∷ p)

trim_size : {n m : ℕ} → n ≡ m + 1 → n - 1 ≡ m
trim_size e = omega arith

key_eq :
    {p q : Bytes} {m n : Method}
    → p ≡ q
    → m ≡ n
    → ◌≡◌ {A = RouteKey} (record { path = p; method = m }) (record { path = q; method = n })
key_eq e f = cc

module _ {H : Type 0} (path : Bytes) (method : Method) (h : H) (routes : List (RouteKey × H)) where
  abbrev target : RouteKey
  target = record { path = path; method = method }

  -- A request for a registered path and method reaches the handler registered last for them.
  exact :
      (req : HttpRequest)
      → req.path ≡ path
      → req.method ≡ method
      → choose req (add_route path method h routes) ≡ some h
  unfolding add_route
  exact req e m = choose_first req (put_route target h routes) h (
      ap (λ k. find_route k (put_route target h routes)) (key_eq e m)
      ∙ find-put_self target h routes)

  slash :
      (req : HttpRequest) (c : ℕ) (p : Bytes)
      → path ≡ c ∷ p
      → req.path ≡ path ++ codes "/"
      → req.method ≡ method
      → find_route
          (record { path = req.path; method = req.method })
          (add_route path method h routes)
        ≡ none
      → choose req (add_route path method h routes) ≡ some h
  unfolding add_route
  slash req c p long e m missing =
      let more = length-append path (codes "/") in
      let size : length req.path ≡ length path + 1 = omega (arith, ap length e, more) in
      let trimmed : take (length req.path - 1) req.path ≡ path =
        ap (λ n. take n req.path) (trim_size size)
        ∙ ap (take (length path)) e
        ∙ take-append (length path) path (codes "/") (omega arith)
        ∙ take_all (length path) path (omega arith) in
      choose_second req (put_route target h routes) h missing
        (lt→ltb 1 (length req.path) (omega (arith, size, ap length long)))
        (ap ends_with_slash e ∙ ends_with_slash_lem path)
        (ap (λ k. find_route k (put_route target h routes)) (key_eq trimmed m)
          ∙ find-put_self target h routes)

-- After a handler is registered for a path and a method, a request for that path and method reaches
-- it, whatever was registered for them before; so does a request with one slash more at the end,
-- unless that path has a handler of its own. A key that differs finds what it found before.
pub add_route-choose :
    {H : Type 0} (method : Method) (h : H) (routes : List (RouteKey × H)) (c : ℕ) (p : Bytes)
    (req : HttpRequest) (other : RouteKey)
    → req.method ≡ method
    → find_route
        (record { path = (c ∷ p) ++ codes "/"; method = req.method })
        (add_route (c ∷ p) method h routes)
      ≡ none
    → same_key (record { path = c ∷ p; method = method }) other ≡ false
    → (choose (record req { path = c ∷ p }) (add_route (c ∷ p) method h routes) ≡ some h)
      × (choose (record req { path = (c ∷ p) ++ codes "/" }) (add_route (c ∷ p) method h routes)
          ≡ some h)
      × (find_route other (add_route (c ∷ p) method h routes) ≡ find_route other routes)
unfolding add_route
add_route-choose method h routes c p req other m missing differs = (
  exact (c ∷ p) method h routes (record req { path = c ∷ p }) refl m,
  slash (c ∷ p) method h routes (record req { path = (c ∷ p) ++ codes "/" }) c p refl refl m
      missing,
  find-put_other (record { path = c ∷ p; method = method }) other h routes differs,
)
