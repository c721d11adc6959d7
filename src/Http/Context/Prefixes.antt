-- ===== src/Http/Context/Prefixes.antt =====
-- include/http/HttpContext.h: what a parse of the beginning of a text says of the parse of all of it.
use user_center.Base.{
  ◌⊎◌, inl, inr, zero, suc, ℕ, ◌+◌, ◌≡◌, ◌∙◌, ◌++◌, refl, sym, ap, subst, List, [], ◌∷◌, Option,
  some, Bool, true, false, Bytes, arith, length, some_eq,
}
use user_center.Http.Context.{
  HttpContext, Parsed, reset, is_error, is_got_all, loop, after_turn, again, stop, return,
  ParseState, expect_request_line, expect_headers, expect_body, got_all, error,
}
use user_center.Http.Context.Stream.{text_round}
use user_center.Http.Context.Turns.{Ended, Progress, round-Progress, round-Ended}
use user_center.Http.Context.Chunks.{text_loop, loop-append, Ended-complete}

-- The parse of a text from a fresh context.
abbrev pub text_parse : Bytes → Option (Parsed Bytes)
text_parse xs = text_loop (length xs + 2) reset xs

abbrev pub joined : List Bytes → Bytes
joined [] = []
joined (s ∷ rest) = s ++ joined rest

-- Neither a request nor an error.
pub record Waits (t : Parsed Bytes) : Type 0 where
  pub error : is_error t.context.state ≡ false
  pub complete : t.complete ≡ false

-- What the loop answers is whether it has a request.
loop-complete :
    (f : ℕ) (c : HttpContext) (xs : Bytes) (p : Parsed Bytes)
    → text_loop f c xs ≡ some p
    → p.complete ≡ is_got_all p.context.state
unfolding loop
loop-complete zero c xs p e = cc
loop-complete (suc f) c xs p e =
    (elim (text_round c xs)
        as (λ r. text_round c xs ≡ r → Progress c xs r → p.complete ≡ is_got_all p.context.state) [
          | again d ys ↦ λ turn _. loop-complete f d ys p (rw (turn, loop, after_turn) at e)
          | stop d ys ↦ λ turn _.
              subst (λ q. q.complete ≡ is_got_all q.context.state)
                (some_eq (rw (turn, loop, after_turn) at e)) refl
          | return d ys k ↦ λ turn ended.
              subst (λ q. q.complete ≡ is_got_all q.context.state)
                (some_eq (rw (turn, loop, after_turn) at e)) (Ended-complete d k ended)
        ])
      refl (round-Progress c xs)

-- A loop whose parse has ended goes no further.
loop-Ended :
    (f : ℕ) (c : HttpContext) (k : Bool) (xs : Bytes) (t : Parsed Bytes)
    → Ended c k
    → text_loop f c xs ≡ some t
    → t.context ≡ c
unfolding loop
loop-Ended zero c k xs t ended e = cc
loop-Ended (suc f) c k xs t ended e =
    ap (λ q. q.context) (some_eq (sym (rw (round-Ended c k xs ended, loop, after_turn) at e)))

state-cases :
    (s : ParseState) (c : HttpContext)
    → c.state ≡ s
    → ((k : Bool) × Ended c k) ⊎ ((is_error c.state ≡ false) × (is_got_all c.state ≡ false))
state-cases expect_request_line c e = inr (rw e, rw e)
state-cases expect_headers c e = inr (rw e, rw e)
state-cases expect_body c e = inr (rw e, rw e)
state-cases got_all c e = inl (true, inl (e, refl))
state-cases error c e = inl (false, inr (e, refl))

Ended-Waits :
    (t : Parsed Bytes) (k : Bool)
    → Ended t.context k
    → t.complete ≡ is_got_all t.context.state
    → Waits t
    → ⊥
Ended-Waits t k (inl (e, _)) done w = let a = w.complete in cc (e, done, a)
Ended-Waits t k (inr (e, _)) done w = let a = w.error in cc (e, a)

-- What is behind some bytes does not end the parse of the bytes before it.
pub prefix-Waits :
    (xs ys : Bytes) (u t : Parsed Bytes)
    → text_parse xs ≡ some u
    → text_parse (xs ++ ys) ≡ some t
    → Waits t
    → Waits u
prefix-Waits xs ys u t e e' w = elim (state-cases u.context.state u.context refl) [
  | inr (fine, going) ↦ record { error = fine; complete = loop-complete _ reset xs u e ∙ going }
  | inl (k, ended) ↦
      let run =
        loop-append (length xs + 2) reset xs ys u (length (xs ++ ys) + 2)
          (length (u.buffer ++ ys) + 2) e (omega arith) (omega arith)
        ∙ e' in
      let same = loop-Ended _ u.context k (u.buffer ++ ys) t ended run in
      absurd (
        Ended-Waits t k (subst (λ c. Ended c k) (sym same) ended)
          (loop-complete _ reset (xs ++ ys) t e') w)
]

-- Nor does it read on.
loop-Ended_buffer :
    (f : ℕ) (c : HttpContext) (k : Bool) (xs : Bytes) (t : Parsed Bytes)
    → Ended c k
    → text_loop f c xs ≡ some t
    → t.buffer ≡ xs
unfolding loop
loop-Ended_buffer zero c k xs t ended e = cc
loop-Ended_buffer (suc f) c k xs t ended e =
    ap (λ q. q.buffer) (some_eq (sym (rw (round-Ended c k xs ended, loop, after_turn) at e)))

nothing_behind : (xs ys : Bytes) → xs ++ ys ≡ [] → ys ≡ []
nothing_behind [] ys e = e
nothing_behind (a ∷ xs) ys e = cc

-- A text that is parsed to its end is not parsed before its last byte has come.
pub before_end-Waits :
    (xs : Bytes) (c : ℕ) (s : Bytes) (u t : Parsed Bytes)
    → text_parse xs ≡ some u
    → text_parse (xs ++ c ∷ s) ≡ some t
    → t.buffer ≡ []
    → Waits u
before_end-Waits xs c s u t e e' whole = elim (state-cases u.context.state u.context refl) [
  | inr (fine, going) ↦ record { error = fine; complete = loop-complete _ reset xs u e ∙ going }
  | inl (k, ended) ↦
      let ys = c ∷ s in
      let run =
        loop-append (length xs + 2) reset xs ys u (length (xs ++ ys) + 2)
          (length (u.buffer ++ ys) + 2) e (omega arith) (omega arith)
        ∙ e' in
      let left = loop-Ended_buffer _ u.context k (u.buffer ++ ys) t ended run in
      let none_left : c ∷ s ≡ [] = nothing_behind u.buffer ys (sym left ∙ whole) in absurd (cc)
]
