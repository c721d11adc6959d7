-- ===== src/Http/Context/Stream.antt =====
-- HttpContext::parse seen without the buffer: the same state machine on a plain byte string, and
-- the proof that the one on the buffer runs in step with it.
use user_center.Base.{
  ℕ, ◌+◌, ◌≤◌, ◌≡◌, refl, inl, inr, [], ◌∷◌, none, some, Bool, true, false, Bytes, arith, take,
  drop, length, leb, if◌then◌else◌, ◌==◌, Option-cases, Bool-cases,
}
use user_center.Buffer.{
  Buffer, contents, find_crlf, find_crlf_bytes, peek_string, retrieve, readable_bytes,
}
use user_center.Buffer.Memory.{
  IsValid, length-contents, peek_string_lem, retrieve-IsValid, contents-retrieve,
}
use user_center.Http.Request.{HttpRequest, get_content_length}
use user_center.Http.Context.{
  HttpContext, ParseState, expect_request_line, expect_headers, expect_body, got_all, error, Round,
  again, stop, return, parse_request_line, parse_header, line_round, after_headers,
  request_line_round, header_round, take_body, body_round, dispatch, round,
}

unfoldable pub text_request_line_round : HttpContext → Bytes → Round Bytes
text_request_line_round c xs = elim (find_crlf_bytes xs) [
  | none ↦ stop c xs
  | some pos ↦
      line_round (parse_request_line (take pos xs) c.request) expect_headers xs (drop (pos + 2) xs)
]

unfoldable pub text_header_round : HttpContext → Bytes → Round Bytes
text_header_round c xs = elim (find_crlf_bytes xs) [
  | none ↦ stop c xs
  | some pos ↦
      if pos == 0
      then again (record c { state = after_headers c.request }) (drop 2 xs)
      else line_round (parse_header (take pos xs) c.request) expect_headers xs (drop (pos + 2) xs)
]

unfoldable pub text_take_body : ℕ → HttpContext → Bytes → Round Bytes
text_take_body need c xs =
    if leb need (length xs)
    then return (record { state = got_all; request = record (c.request) { body = take need xs } })
        (drop need xs) true
    else stop c xs

unfoldable pub text_body_round : HttpContext → Bytes → Round Bytes
text_body_round c xs = elim (get_content_length c.request) [
  | none ↦ return (record c { state = got_all }) xs true
  | some need ↦
      if need == 0 then return (record c { state = got_all }) xs true else text_take_body need c xs
]

unfoldable pub text_dispatch : ParseState → HttpContext → Bytes → Round Bytes
text_dispatch expect_request_line c xs = text_request_line_round c xs
text_dispatch expect_headers c xs = text_header_round c xs
text_dispatch expect_body c xs = text_body_round c xs
text_dispatch got_all c xs = stop c xs
text_dispatch error c xs = stop c xs

unfoldable pub text_round : HttpContext → Bytes → Round Bytes
text_round c xs = text_dispatch c.state c xs

abbrev pub Shows : Buffer → Bytes → Type 0
Shows b xs = IsValid b × (contents b ≡ xs)

abbrev pub SameRound : Round Buffer → Round Bytes → Type 0
SameRound (again c b) (again d xs) = (c ≡ d) × Shows b xs
SameRound (stop c b) (stop d xs) = (c ≡ d) × Shows b xs
SameRound (return c b k) (return d xs l) = (c ≡ d) × Shows b xs × (k ≡ l)
SameRound _ _ = ⊥

-- A line end that is found lies wholly inside the text.
pub find_crlf_bound : (xs : Bytes) (p : ℕ) → find_crlf_bytes xs ≡ some p → p + 2 ≤ length xs
unfolding find_crlf_bytes
find_crlf_bound [] p e = cc
find_crlf_bound (a ∷ []) p e = cc
find_crlf_bound (a ∷ b ∷ s) p e = elim (Option-cases (find_crlf_bytes (b ∷ s))) [
  | inl none_left ↦ ground arith
  | inr (q, later) ↦ ground (arith, find_crlf_bound (b ∷ s) q later)
]

line_round_same :
    (r : HttpRequest × Bool) (next : ParseState) (b : Buffer) (after : Buffer) (xs rest : Bytes)
    → Shows b xs
    → Shows after rest
    → SameRound (line_round r next b after) (line_round r next xs rest)
unfolding line_round
line_round_same (r, true) next b after xs rest s t = (refl, t)
line_round_same (r, false) next b after xs rest s t = (refl, s, refl)

module _ (b : Buffer) (v : IsValid b) where
  Shows-retrieve : (n : ℕ) → n ≤ length (contents b) → Shows (retrieve n b) (drop n (contents b))
  Shows-retrieve n h =
      (retrieve-IsValid n b v, contents-retrieve n b v (omega (arith, length-contents b v)))

  peek : (n : ℕ) → n ≤ length (contents b) → peek_string n b ≡ take n (contents b)
  peek n h = peek_string_lem n b (omega (arith, length-contents b v))

  request_line_round_same :
      (c : HttpContext)
      → SameRound (request_line_round c b) (text_request_line_round c (contents b))
  unfolding request_line_round text_request_line_round find_crlf
  request_line_round_same c = elim (Option-cases (find_crlf_bytes (contents b))) [
    | inl e ↦ rw (e, SameRound, request_line_round, text_request_line_round) (refl, (v, refl))
    | inr (pos, e) ↦
        let bound = find_crlf_bound (contents b) pos e in
        rw (e, peek pos (omega arith), SameRound, request_line_round, text_request_line_round)
          (line_round_same _ expect_headers b _ _ _ (v, refl) (Shows-retrieve (pos + 2) bound))
  ]

  header_round_same :
      (c : HttpContext) → SameRound (header_round c b) (text_header_round c (contents b))
  unfolding header_round text_header_round find_crlf
  header_round_same c = elim (Option-cases (find_crlf_bytes (contents b))) [
    | inl e ↦ rw (e, SameRound, header_round, text_header_round) (refl, (v, refl))
    | inr (pos, e) ↦
        let bound = find_crlf_bound (contents b) pos e in
        elim (Bool-cases (pos == 0)) [
          | inl blank ↦
              rw (e, blank, SameRound, header_round, text_header_round)
                (refl, Shows-retrieve 2 (omega arith))
          | inr line ↦
              rw (e, line, peek pos (omega arith), SameRound, header_round, text_header_round)
                (line_round_same _ expect_headers b _ _ _ (v, refl)
                  (Shows-retrieve (pos + 2) bound))
        ]
  ]

  take_body_same :
      (need : ℕ) (c : HttpContext)
      → SameRound (take_body need c b) (text_take_body need c (contents b))
  unfolding take_body text_take_body
  take_body_same need c =
      rw (length-contents b v) (elim (Bool-cases (leb need (readable_bytes b))) [
        | inl enough ↦
            let h : need ≤ length (contents b) = ground (arith, length-contents b v) in
            rw (enough, peek need h) (refl, Shows-retrieve need h, refl)
        | inr short ↦ rw short (refl, (v, refl))
      ])

  body_round_same : (c : HttpContext) → SameRound (body_round c b) (text_body_round c (contents b))
  unfolding body_round text_body_round
  body_round_same c = elim (Option-cases (get_content_length c.request)) [
    | inl e ↦ rw (e, SameRound, body_round, text_body_round) (refl, (v, refl), refl)
    | inr (need, e) ↦ elim (Bool-cases (need == 0)) [
      | inl nothing ↦
          rw (e, nothing, SameRound, body_round, text_body_round) (refl, (v, refl), refl)
      | inr body ↦ rw (e, body, SameRound, body_round, text_body_round) (take_body_same need c)
    ]
  ]

  dispatch_same :
      (s : ParseState) (c : HttpContext)
      → SameRound (dispatch s c b) (text_dispatch s c (contents b))
  unfolding dispatch text_dispatch
  dispatch_same expect_request_line c = request_line_round_same c
  dispatch_same expect_headers c = header_round_same c
  dispatch_same expect_body c = body_round_same c
  dispatch_same got_all c = (refl, (v, refl))
  dispatch_same error c = (refl, (v, refl))

  pub round_same : (c : HttpContext) → SameRound (round c b) (text_round c (contents b))
  unfolding round text_round
  round_same c = dispatch_same c.state c
