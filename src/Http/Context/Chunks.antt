-- ===== src/Http/Context/Chunks.antt =====
-- HttpContext::parse as a whole: the loop ends, and where the network cuts the stream does not
-- matter.
use user_center.Base.{
  some_eq, ℕ, zero, suc, ◌+◌, ◌<◌, ◌≡◌, ◌∙◌, refl, sym, ap, subst, inl, inr, ◌++◌, Option, none,
  some, Bool, Bytes, arith, length, length-append,
}
use user_center.Buffer.{Buffer, contents, readable_bytes, append}
use user_center.Buffer.Memory.{IsValid, length-contents}
use user_center.Buffer.Effects.{append-IsValid, contents-append}
use user_center.Http.Context.{
  HttpContext, Round, again, stop, return, loop, after_turn, Parsed, is_got_all, parse, round,
}
use user_center.Http.Context.Stream.{text_round, Shows, SameRound, round_same}
use user_center.Http.Context.Turns.{
  Ended, Progress, Extends, round-Progress, round-Extends, round-Ended,
}

abbrev pub text_loop : ℕ → HttpContext → Bytes → Option (Parsed Bytes)
text_loop = loop text_round

-- With more fuel than bytes the loop gives a result, and more fuel gives the same one.
pub loop_steady :
    (f g : ℕ) (c : HttpContext) (xs : Bytes)
    → length xs < f
    → length xs < g
    → text_loop f c xs ≡ text_loop g c xs
unfolding loop
loop_steady zero g c xs h k = absurd (omega arith)
loop_steady (suc f) zero c xs h k = absurd (omega arith)
loop_steady (suc f) (suc g) c xs h k =
    (elim (text_round c xs)
        as (λ r.
          text_round c xs ≡ r → Progress c xs r → text_loop (suc f) c xs ≡ text_loop (suc g) c xs) [
            | again d ys ↦
                λ e p. rw (e, loop, after_turn) (loop_steady f g d ys (omega arith) (omega arith))
            | stop d ys ↦ λ e p. rw (e, loop, after_turn)
            | return d ys b ↦ λ e p. rw (e, loop, after_turn)
          ])
      refl (round-Progress c xs)

pub loop_total :
    (f : ℕ) (c : HttpContext) (xs : Bytes)
    → length xs < f
    → (p : Parsed Bytes) × (text_loop f c xs ≡ some p)
unfolding loop
loop_total zero c xs h = absurd (omega arith)
loop_total (suc f) c xs h =
    (elim (text_round c xs)
        as (λ r.
          text_round c xs ≡ r
          → Progress c xs r
          → (p : Parsed Bytes) × (text_loop (suc f) c xs ≡ some p)) [
            | again d ys ↦ λ e p.
                let (q, found) = loop_total f d ys (omega arith) in
                (q, rw (e, loop, after_turn) found)
            | stop d ys ↦ λ e p. (
              record { context = d; buffer = ys; complete = is_got_all d.state },
              rw (e, loop, after_turn),
            )
            | return d ys b ↦
                λ e p. (record { context = d; buffer = ys; complete = b }, rw (e, loop, after_turn))
          ])
      refl (round-Progress c xs)

pub Ended-complete : (c : HttpContext) (k : Bool) → Ended c k → k ≡ is_got_all c.state
Ended-complete c k (inl (e, t)) = rw (e, t)
Ended-complete c k (inr (e, t)) = rw (e, t)

-- A parse of some bytes and then of more is a parse of all of them.
pub loop-append :
    (f : ℕ) (c : HttpContext) (xs ys : Bytes) (p : Parsed Bytes) (g h : ℕ)
    → text_loop f c xs ≡ some p
    → length (xs ++ ys) < g
    → length (p.buffer ++ ys) < h
    → text_loop h p.context (p.buffer ++ ys) ≡ text_loop g c (xs ++ ys)
unfolding loop
loop-append zero c xs ys p g h e _ _ = cc
loop-append (suc f) c xs ys p zero h e gh hh = absurd (omega arith)
loop-append (suc f) c xs ys p (suc g) zero e gh hh = absurd (omega arith)
loop-append (suc f) c xs ys p (suc g) (suc h) e gh hh =
    (elim (text_round c xs)
        as (λ r.
          text_round c xs ≡ r
          → Progress c xs r
          → Extends ys r (text_round c (xs ++ ys))
          → text_loop (suc h) p.context (p.buffer ++ ys) ≡ text_loop (suc g) c (xs ++ ys)) [
            | again d rest ↦ λ turn less more.
                rw (more, loop, after_turn)
                  (loop-append f d rest ys p g (suc h) (rw (turn, loop, after_turn) at e)
                    (omega (arith, length-append xs ys, length-append rest ys)) hh)
            | stop d rest ↦ λ turn same _.
                let was = some_eq (rw (turn, loop, after_turn) at e) in
                let at_c : p.context ≡ c = sym (ap (λ q. q.context) was) ∙ same.0 in
                let at_xs : p.buffer ≡ xs = sym (ap (λ q. q.buffer) was) ∙ same.1 in
                rw (at_c, at_xs)
                  (loop_steady (suc h) (suc g) c (xs ++ ys)
                    (omega (arith, ap (λ q. length (q ++ ys)) at_xs)) gh)
            | return d rest k ↦ λ turn ended more.
                let was = some_eq (rw (turn, loop, after_turn) at e) in
                rw (
                  sym (ap (λ q. q.context) was),
                  sym (ap (λ q. q.buffer) was),
                  more,
                  round-Ended d k (rest ++ ys) ended,
                  Ended-complete d k ended,
                  loop,
                  after_turn,
                )
          ])
      refl (round-Progress c xs) (round-Extends c xs ys)

-- The outcome of the loop on a buffer and on a text: the same context and answer, and a buffer that
-- shows the text that is left.
abbrev pub SameParsed : Option (Parsed Buffer) → Option (Parsed Bytes) → Type 0
SameParsed none none = Unit {0}
SameParsed (some p) (some q) =
    (p.context ≡ q.context) × Shows p.buffer q.buffer × (p.complete ≡ q.complete)
SameParsed _ _ = ⊥

after_turn_same :
    (f : ℕ) (r : Round Buffer) (s : Round Bytes)
    → SameRound r s
    → ((c : HttpContext) (b : Buffer)
        → IsValid b
        → SameParsed (loop round f c b) (text_loop f c (contents b)))
    → SameParsed (after_turn (loop round f) r) (after_turn (text_loop f) s)
after_turn_same f (again c b) (again d xs) (e, (v, same)) ih =
    subst (λ d'. SameParsed (loop round f c b) (text_loop f d' xs)) e
      (subst (λ ys. SameParsed (loop round f c b) (text_loop f c ys)) same (ih c b v))
after_turn_same f (stop c b) (stop d xs) (e, shows) ih = (e, shows, ap (λ k. is_got_all k.state) e)
after_turn_same f (return c b k) (return d xs l) (e, shows, done) ih = (e, shows, done)
after_turn_same f (again c b) (stop d xs) h ih = elim h [ ]
after_turn_same f (again c b) (return d xs l) h ih = elim h [ ]
after_turn_same f (stop c b) (again d xs) h ih = elim h [ ]
after_turn_same f (stop c b) (return d xs l) h ih = elim h [ ]
after_turn_same f (return c b k) (again d xs) h ih = elim h [ ]
after_turn_same f (return c b k) (stop d xs) h ih = elim h [ ]

loop_same :
    (f : ℕ) (c : HttpContext) (b : Buffer)
    → IsValid b
    → SameParsed (loop round f c b) (text_loop f c (contents b))
unfolding loop
loop_same zero c b v = tt
loop_same (suc f) c b v =
    after_turn_same f (round c b) (text_round c (contents b)) (round_same b v c)
      (λ c' b' v'. loop_same f c' b' v')

-- What a parse on a buffer answers, read off the run on the text.
abbrev pub Answers : Option (Parsed Buffer) → Parsed Bytes → Type 0
Answers o t =
    (p : Parsed Buffer) × (o ≡ some p)
    × (p.context ≡ t.context)
    × Shows p.buffer t.buffer
    × (p.complete ≡ t.complete)

answers : (o : Option (Parsed Buffer)) (t : Parsed Bytes) → SameParsed o (some t) → Answers o t
answers (some p) t (e, shows, done) = (p, refl, e, shows, done)
answers none t h = elim h [ ]

pub parse-Answers :
    (c : HttpContext) (b : Buffer) (t : Parsed Bytes)
    → IsValid b
    → text_loop (readable_bytes b + 2) c (contents b) ≡ some t
    → Answers (parse c b) t
unfolding parse
parse-Answers c b t v e =
    answers _ t (subst (SameParsed (loop round (readable_bytes b + 2) c b)) e (loop_same _ c b v))

-- The fuel of `parse` is enough: on a well-formed buffer the parser always gives an answer, and
-- leaves a well-formed buffer.
pub parse_total :
    (c : HttpContext) (b : Buffer)
    → IsValid b
    → (p : Parsed Buffer) × (parse c b ≡ some p) × IsValid p.buffer
parse_total c b v =
    let (t, found) =
      loop_total (readable_bytes b + 2) c (contents b) (omega (arith, length-contents b v)) in
    let (p, e, _, shows, _) = parse-Answers c b t v found in (p, e, shows.0)

-- The run on the text that is left with more bytes behind it is the run on all of the text.
resumed :
    (c : HttpContext) (b : Buffer) (more : Bytes) (p : Parsed Buffer) (t : Parsed Bytes)
    → IsValid b
    → IsValid p.buffer
    → text_loop (readable_bytes b + 2) c (contents b) ≡ some t
    → p.context ≡ t.context
    → contents p.buffer ≡ t.buffer
    → text_loop
        (readable_bytes (append more p.buffer) + 2)
        p.context
        (contents (append more p.buffer))
      ≡ text_loop (readable_bytes (append more b) + 2) c (contents (append more b))
resumed c b more p t v w found ctx left =
    let all = contents-append more b v in
    let rest = contents-append more p.buffer w in
    let size_all = length-contents (append more b) (append-IsValid more b v) in
    let size_rest = length-contents (append more p.buffer) (append-IsValid more p.buffer w) in
    rw (all, rest, ctx, left)
      (loop-append (readable_bytes b + 2) c (contents b) more t (readable_bytes (append more b) + 2)
        (readable_bytes (append more p.buffer) + 2) found (omega (arith, size_all, ap length all))
        (omega (arith, size_rest, ap length rest, ap (λ q. length (q ++ more)) left)))

-- Where the network cuts the byte stream does not matter. Parsing what has arrived, appending more
-- bytes to the buffer that is left and parsing again ends in the same context and state, with the
-- same bytes unread and the same answer, as appending first and parsing once.
pub parse-append :
    (c : HttpContext) (b : Buffer) (more : Bytes) (p : Parsed Buffer)
    → IsValid b
    → parse c b ≡ some p
    → (q r : Parsed Buffer) × (parse p.context (append more p.buffer) ≡ some q)
      × (parse c (append more b) ≡ some r)
      × (q.context ≡ r.context)
      × (contents q.buffer ≡ contents r.buffer)
      × (q.complete ≡ r.complete)
parse-append c b more p v e =
    let (t, found) =
      loop_total (readable_bytes b + 2) c (contents b) (omega (arith, length-contents b v)) in
    let (p', e', ctx, shows, _) = parse-Answers c b t v found in
    let same : p' ≡ p = some_eq (sym e' ∙ e) in
    let w : IsValid p.buffer = subst (λ z. IsValid z.buffer) same shows.0 in
    let left : contents p.buffer ≡ t.buffer = ap (λ z. contents z.buffer) (sym same) ∙ shows.1 in
    let at : p.context ≡ t.context = ap (λ z. z.context) (sym same) ∙ ctx in
    let b2 = append more b in
    let v2 = append-IsValid more b v in
    let (u, found2) =
      loop_total (readable_bytes b2 + 2) c (contents b2) (omega (arith, length-contents b2 v2)) in
    let (r, er, r_ctx, r_shows, r_done) = parse-Answers c b2 u v2 found2 in
    let (q, eq, q_ctx, q_shows, q_done) =
      parse-Answers p.context (append more p.buffer) u (append-IsValid more p.buffer w)
        (resumed c b more p t v w found at left ∙ found2) in
    (q, r, eq, er, q_ctx ∙ sym r_ctx, q_shows.1 ∙ sym r_shows.1, q_done ∙ sym r_done)
