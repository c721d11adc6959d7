-- ===== src/Http/Context/Turns.antt =====
-- One turn of the parser on a text, and on the same text with more behind it.
use user_center.Base.{
  ℕ, ◌+◌, ◌≤◌, ◌≡◌, refl, ap, ◌⊎◌, inl, inr, [], ◌∷◌, ◌++◌, some, Bool, true, false, Bytes, arith,
  length, length-drop, length-append, take-append, drop-append, leb, ◌==◌, Option-cases, Bool-cases,
}
use user_center.Buffer.{find_crlf_bytes}
use user_center.Http.Request.{HttpRequest, get_content_length}
use user_center.Http.Context.{
  HttpContext, ParseState, expect_request_line, expect_headers, expect_body, got_all, error, Round,
  again, stop, return, line_round, after_headers,
}
use user_center.Http.Context.Stream.{
  text_request_line_round, text_header_round, text_take_body, text_body_round, text_dispatch,
  text_round, find_crlf_bound,
}

-- The states in which the loop does no more turns, with what `parse` returns in them.
abbrev pub Ended : HttpContext → Bool → Type 0
Ended c k = ((c.state ≡ got_all) × (k ≡ true)) ⊎ ((c.state ≡ error) × (k ≡ false))

-- A turn that goes on takes two bytes at least, one that breaks out changes nothing, and one that
-- returns has ended the parse.
abbrev pub Progress : HttpContext → Bytes → Round Bytes → Type 0
Progress c xs (again d r) = length r + 2 ≤ length xs
Progress c xs (stop d r) = (d ≡ c) × (r ≡ xs)
Progress c xs (return d r k) = Ended d k

-- Bytes that come later change nothing of a turn that did not wait for them.
abbrev pub Extends : Bytes → Round Bytes → Round Bytes → Type 0
Extends ys (again d r) after = after ≡ again d (r ++ ys)
Extends ys (stop d r) after = Unit {0}
Extends ys (return d r k) after = after ≡ return d (r ++ ys) k

find_crlf-append :
    (xs ys : Bytes) (p : ℕ) → find_crlf_bytes xs ≡ some p → find_crlf_bytes (xs ++ ys) ≡ some p
unfolding find_crlf_bytes
find_crlf-append [] ys p e = cc
find_crlf-append (a ∷ []) ys p e = cc
find_crlf-append (a ∷ b ∷ s) ys p e = elim (Option-cases (find_crlf_bytes (b ∷ s))) [
  | inl none_left ↦ ground arith
  | inr (q, later) ↦ ground (arith, find_crlf-append (b ∷ s) ys q later)
]

line_round-Progress :
    (c : HttpContext) (r : HttpRequest × Bool) (next : ParseState) (xs rest : Bytes)
    → length rest + 2 ≤ length xs
    → Progress c xs (line_round r next xs rest)
unfolding line_round
line_round-Progress c (r, true) next xs rest h = h
line_round-Progress c (r, false) next xs rest h = inr (refl, refl)

line_round-Extends :
    (r : HttpRequest × Bool) (next : ParseState) (xs rest ys : Bytes)
    → Extends ys (line_round r next xs rest) (line_round r next (xs ++ ys) (rest ++ ys))
unfolding line_round
line_round-Extends (r, true) next xs rest ys = refl
line_round-Extends (r, false) next xs rest ys = refl

module _ (c : HttpContext) (xs : Bytes) where
  request_line-Progress : Progress c xs (text_request_line_round c xs)
  unfolding text_request_line_round
  request_line-Progress = elim (Option-cases (find_crlf_bytes xs)) [
    | inl e ↦ rw (e, Progress, text_request_line_round) (refl, refl)
    | inr (pos, e) ↦
        rw (e, Progress, text_request_line_round)
          (line_round-Progress c _ expect_headers xs _
            (omega (arith, find_crlf_bound xs pos e, length-drop (pos + 2) xs)))
  ]

  header-Progress : Progress c xs (text_header_round c xs)
  unfolding text_header_round
  header-Progress = elim (Option-cases (find_crlf_bytes xs)) [
    | inl e ↦ rw (e, Progress, text_header_round) (refl, refl)
    | inr (pos, e) ↦
        let bound = find_crlf_bound xs pos e in
        elim (Bool-cases (pos == 0)) [
          | inl blank ↦ rw (e, blank, Progress, text_header_round) (omega (arith, length-drop 2 xs))
          | inr line ↦
              rw (e, line, Progress, text_header_round)
                (line_round-Progress c _ expect_headers xs _
                  (omega (arith, length-drop (pos + 2) xs)))
        ]
  ]

  body-Progress : Progress c xs (text_body_round c xs)
  unfolding text_body_round text_take_body
  body-Progress = ground arith

  dispatch-Progress : (s : ParseState) → Progress c xs (text_dispatch s c xs)
  unfolding text_dispatch
  dispatch-Progress expect_request_line = request_line-Progress
  dispatch-Progress expect_headers = header-Progress
  dispatch-Progress expect_body = body-Progress
  dispatch-Progress got_all = (refl, refl)
  dispatch-Progress error = (refl, refl)

  pub round-Progress : Progress c xs (text_round c xs)
  unfolding text_round
  round-Progress = dispatch-Progress c.state

  module _ (ys : Bytes) where
    request_line-Extends :
        Extends ys (text_request_line_round c xs) (text_request_line_round c (xs ++ ys))
    unfolding text_request_line_round
    request_line-Extends = elim (Option-cases (find_crlf_bytes xs)) [
      | inl e ↦ rw (e, Extends, text_request_line_round) tt
      | inr (pos, e) ↦
          let bound = find_crlf_bound xs pos e in
          rw
            (
              e,
              find_crlf-append xs ys pos e,
              take-append pos xs ys (omega arith),
              drop-append (pos + 2) xs ys bound,
              Extends,
              text_request_line_round,
            )
            (line_round-Extends _ expect_headers xs _ ys)
    ]

    header-Extends : Extends ys (text_header_round c xs) (text_header_round c (xs ++ ys))
    unfolding text_header_round
    header-Extends = elim (Option-cases (find_crlf_bytes xs)) [
      | inl e ↦ rw (e, Extends, text_header_round) tt
      | inr (pos, e) ↦
          let bound = find_crlf_bound xs pos e in
          elim (Bool-cases (pos == 0)) [
            | inl blank ↦
                rw (e, find_crlf-append xs ys pos e, blank, Extends, text_header_round)
                  (ap (again (record c { state = after_headers c.request }))
                    (drop-append 2 xs ys (omega arith)))
            | inr line ↦
                rw
                  (
                    e,
                    find_crlf-append xs ys pos e,
                    line,
                    take-append pos xs ys (omega arith),
                    drop-append (pos + 2) xs ys bound,
                    Extends,
                    text_header_round,
                  )
                  (line_round-Extends _ expect_headers xs _ ys)
          ]
    ]

    take_body-Extends :
        (need : ℕ) → Extends ys (text_take_body need c xs) (text_take_body need c (xs ++ ys))
    unfolding text_take_body
    take_body-Extends need = elim (Bool-cases (leb need (length xs))) [
      | inl enough ↦
          let h : need ≤ length xs = ground arith in
          let more : leb need (length (xs ++ ys)) ≡ true = ground (arith, length-append xs ys) in
          rw
            (
              enough,
              more,
              take-append need xs ys h,
              drop-append need xs ys h,
              Extends,
              text_take_body,
            )
            refl
      | inr short ↦ rw (short, Extends, text_take_body) tt
    ]

    body-Extends : Extends ys (text_body_round c xs) (text_body_round c (xs ++ ys))
    unfolding text_body_round
    body-Extends = elim (Option-cases (get_content_length c.request)) [
      | inl e ↦ rw (e, Extends, text_body_round) refl
      | inr (need, e) ↦ elim (Bool-cases (need == 0)) [
        | inl nothing ↦ rw (e, nothing, Extends, text_body_round) refl
        | inr body ↦ rw (e, body, Extends, text_body_round) (take_body-Extends need)
      ]
    ]

    dispatch-Extends :
        (s : ParseState) → Extends ys (text_dispatch s c xs) (text_dispatch s c (xs ++ ys))
    unfolding text_dispatch
    dispatch-Extends expect_request_line = request_line-Extends
    dispatch-Extends expect_headers = header-Extends
    dispatch-Extends expect_body = body-Extends
    dispatch-Extends got_all = tt
    dispatch-Extends error = tt

    pub round-Extends : Extends ys (text_round c xs) (text_round c (xs ++ ys))
    unfolding text_round
    round-Extends = dispatch-Extends c.state

-- A parse that has ended does no turn.
pub round-Ended :
    (c : HttpContext) (k : Bool) (xs : Bytes) → Ended c k → text_round c xs ≡ stop c xs
unfolding text_round text_dispatch
round-Ended c k xs (inl (e, _)) = rw (e, text_dispatch)
round-Ended c k xs (inr (e, _)) = rw (e, text_dispatch)
