-- ===== src/Db/Pool/Waiting/Sleepers.antt =====
-- src/db/MySQLConnectionPool.cpp: which callers sleep on `cond_`, whatever the order of the calls.
use user_center.Base.{
  ℕ, suc, Option, none, some, ◌<◌, ◌≤◌, ◌≡◌, ◌∙◌, refl, sym, ap, subst, List, [], ◌∷◌, ◌++◌, true,
  false, arith, ltb, length, length-append, if◌then◌else◌, if_true, if_false, Bool-cases, inl, inr,
}
use user_center.Db.Pool.{
  ConnectionPool, Answers, Outcome, waits, null, leased, can_serve, hand_out, open_new, pick,
  get_connection, return_connection, init, new_pool, is_none,
}
use user_center.Db.Pool.Waiting.{
  WaitingPool, notify_one, notify_all, after_wait, ask_connection, return_and_notify,
  close_and_notify, Reconnects, Calls, here, asks, goes_on, wakes_up, gives_back, closes, Announced,
}

module _ {C : Type 0} where
  hand_out-Reconnects :
      (a : Answers C) (c : C) (p : ConnectionPool C) → Reconnects a → hand_out a c p ≡ leased c p
  unfolding hand_out
  hand_out-Reconnects a c p h = elim (Bool-cases (a.is_up c)) [
    | inl up ↦ if_true _ _ up
    | inr down ↦ if_false _ _ down ∙ if_true {b = a.connects c} _ _ (ground (arith, down, h c))
  ]

  -- The test of the wait.
  served :
      (a : Answers C) (p : ConnectionPool C)
      → p.stop ≡ false
      → can_serve p ≡ true
      → get_connection a p ≡ pick a p.idle p
  unfolding get_connection
  served a p going can = if_false _ _ going ∙ if_true _ _ can

  shut : (a : Answers C) (p : ConnectionPool C) → p.stop ≡ true → get_connection a p ≡ null p
  unfolding get_connection
  shut a p closed = if_true _ _ closed

  sleeps :
      (a : Answers C) (p : ConnectionPool C)
      → p.stop ≡ false
      → can_serve p ≡ false
      → get_connection a p ≡ waits
  unfolding get_connection
  sleeps a p going cannot = if_false _ _ going ∙ if_false _ _ cannot

  nothing_free :
      (cs : List C) (p : ConnectionPool C)
      → (if is_none cs then ltb p.current_size p.max_size else true) ≡ false
      → (length cs ≡ 0) × (p.max_size ≤ p.current_size)
  unfolding is_none
  nothing_free [] p e = (refl, ground (arith, e))
  nothing_free (c ∷ cs) p e = cc

  -- With all places taken, a caller that passes the test takes the first idle connection.
  takes_idle :
      (a : Answers C) (cs : List C) (p : ConnectionPool C)
      → Reconnects a
      → p.max_size ≤ p.current_size
      → (if is_none cs then ltb p.current_size p.max_size else true) ≡ true
      → (c : C) × (rest : List C) × (length cs ≡ suc (length rest))
        × (pick a cs p ≡ leased c (record p { idle = rest }))
  unfolding is_none pick
  takes_idle a [] p h full can = absurd (ground (arith, can))
  takes_idle a (c ∷ rest) p h full can =
      (c, rest, refl, hand_out-Reconnects a c (record p { idle = rest }) h)

  -- A caller that passes the test does not go to sleep.
  hand_out-asleep :
      (a : Answers C) (c : C) (p : ConnectionPool C) (r : WaitingPool C)
      → (after_wait (hand_out a c p) r).asleep ≡ r.asleep
  unfolding hand_out after_wait
  hand_out-asleep a c p r = elim (Bool-cases (a.is_up c)) [
    | inl up ↦ rw up refl
    | inr down ↦ elim (Bool-cases (a.connects c)) [
      | inl again ↦ rw (down, again) refl
      | inr lost ↦ rw (down, lost) refl
    ]
  ]

  open_new-asleep :
      (a : Answers C) (o : Option C) (p : ConnectionPool C) (r : WaitingPool C)
      → (after_wait (open_new a o p) r).asleep ≡ r.asleep
  unfolding open_new after_wait
  open_new-asleep a none p r = refl
  open_new-asleep a (some c) p r = hand_out-asleep a c _ r

  pick-asleep :
      (a : Answers C) (cs : List C) (p : ConnectionPool C) (r : WaitingPool C)
      → (after_wait (pick a cs p) r).asleep ≡ r.asleep
  unfolding pick after_wait
  pick-asleep a [] p r = elim (Bool-cases (ltb p.current_size p.max_size)) [
    | inl room ↦
        ap (λ o. (after_wait o r).asleep) (if_true _ _ room) ∙ open_new-asleep a a.created p r
    | inr full ↦ ap (λ o. (after_wait o r).asleep) (if_false _ _ full)
  ]
  pick-asleep a (c ∷ rest) p r = hand_out-asleep a c _ r

  -- Nobody sleeps.
  none_asleep : (late : ℕ) (r : WaitingPool C) → r.asleep ≡ 0 → Announced late r
  none_asleep late r e = record {
    full = λ x. absurd (omega (arith, e, x));
    on_the_way = λ x. absurd (omega (arith, e, x));
    unless_closed = λ _. e;
  }

  ask-Announced :
      (a : Answers C) (r : WaitingPool C)
      → Reconnects a
      → Announced 1 r
      → Announced 0 (ask_connection a r)
  unfolding ask_connection after_wait can_serve
  ask-Announced a r h v =
      let p = r.pool in
      let On : Outcome C → Type 0 = λ o. Announced 0 (after_wait o r) in
      elim (Bool-cases p.stop) [
        | inl closed ↦ subst On (sym (shut a p closed)) (none_asleep 0 r (v.unless_closed closed))
        | inr going ↦ elim (Bool-cases (can_serve p)) [
          | inr cannot ↦
              let (none_idle, full) = nothing_free p.idle p cannot in
              subst On (sym (sleeps a p going cannot)) (record {
                full = λ _. full;
                on_the_way = λ _. omega (arith, none_idle);
                unless_closed = λ x. absurd (let y = sym going ∙ x in cc);
              })
          | inl can ↦ elim (Bool-cases (ltb 0 r.asleep)) [
            | inr nobody ↦ subst On (sym (served a p going can)) (
                none_asleep 0 (after_wait (pick a p.idle p) r)
                  (pick-asleep a p.idle p r ∙ ground (arith, nobody)))
            | inl sleepers ↦
                let some_asleep : 0 < r.asleep = ground (arith, sleepers) in
                let full = v.full some_asleep in
                let few = v.on_the_way some_asleep in
                let (c, rest, one_less, got) = takes_idle a p.idle p h full can in
                subst On (sym (served a p going can ∙ got)) (record {
                  full = λ _. full;
                  on_the_way = λ _. omega (arith, few, one_less);
                  unless_closed = λ x. absurd (let y = sym going ∙ x in cc);
                })
          ]
        ]
      ]

  return-Announced :
      (c : C) (r : WaitingPool C) → Announced 0 r → Announced 0 (return_and_notify c r)
  unfolding return_and_notify return_connection notify_one
  return-Announced c r v =
      let p = r.pool in
      let back : WaitingPool C = record r { pool = return_connection c p } in
      let kept = record p { idle = p.idle ++ c ∷ [] } in
      elim (Bool-cases p.stop) [
        | inl closed ↦
            subst (Announced 0) (sym (if_true back (notify_one back) closed))
              (none_asleep 0 back (v.unless_closed closed))
        | inr going ↦
            let same : return_connection c p ≡ kept = if_false _ kept going in
            let at : return_and_notify c r ≡ notify_one (record r { pool = kept }) =
              if_false back (notify_one back) going
              ∙ ap (λ q. notify_one (record r { pool = q })) same in
            subst (Announced 0) (sym at) (elim (Bool-cases (ltb 0 r.asleep)) [
              | inr nobody ↦
                  subst (Announced 0) (sym (if_false _ (record r { pool = kept }) nobody))
                    (none_asleep 0 (record r { pool = kept }) (ground (arith, nobody)))
              | inl sleepers ↦
                  let some_asleep : 0 < r.asleep = ground (arith, sleepers) in
                  let full = v.full some_asleep in
                  let few = v.on_the_way some_asleep in
                  let one_more = length-append p.idle (c ∷ []) in
                  subst (Announced 0) (sym (if_true _ (record r { pool = kept }) sleepers))
                    (record {
                      full = λ _. full;
                      on_the_way = λ _. omega (arith, few, one_more);
                      unless_closed = λ x. absurd (let y = sym going ∙ x in cc);
                    })
            ])
      ]

  kept-Announced : (r s : WaitingPool C) → Calls r s → Announced 0 r → Announced 0 s
  unfolding close_and_notify notify_all
  kept-Announced r s here v = v
  kept-Announced r s (asks a h rest) v = kept-Announced (ask_connection a r) s rest (
      ask-Announced a r h (record {
        full = v.full;
        on_the_way = λ x. let few = v.on_the_way x in omega (arith, few);
        unless_closed = v.unless_closed;
      }))
  kept-Announced r s (goes_on a n h e rest) v =
      kept-Announced (ask_connection a (record r { woken = n })) s rest (
        ask-Announced a (record r { woken = n }) h
          (record {
            full = v.full;
            on_the_way = λ x. let few = v.on_the_way x in omega (arith, few, e);
            unless_closed = v.unless_closed;
          }))
  kept-Announced r s (wakes_up a n h e rest) v =
      kept-Announced (ask_connection a (record r { asleep = n })) s rest (
        ask-Announced a (record r { asleep = n }) h
          (record {
            full = λ x. v.full (omega (arith, x, e));
            on_the_way = λ x. let few = v.on_the_way (omega (arith, x, e)) in omega (arith, few);
            unless_closed = λ x. let none = v.unless_closed x in absurd (omega (arith, none, e));
          }))
  kept-Announced r s (gives_back c rest) v =
      kept-Announced (return_and_notify c r) s rest (return-Announced c r v)
  kept-Announced r s (closes rest) v =
      kept-Announced (close_and_notify r) s rest (none_asleep 0 (close_and_notify r) refl)

  -- No wake-up is lost while every connection that is handed out is up or comes up again: after any calls
  -- from `init` on, in any order and with any wake-ups for no reason, callers sleep only while all places
  -- of the pool are taken, with at most as many idle connections as there are callers that were notified
  -- and are on their way to take one; and nobody sleeps on a pool that is closed.
  pub calls-Announced :
      (min max : ℕ) (created : ℕ → Option C) (s : WaitingPool C)
      → Calls (record { pool = init min max created new_pool; asleep = 0; woken = 0 }) s
      → Announced 0 s
  calls-Announced min max created s calls = kept-Announced _ s calls (none_asleep 0 _ refl)
