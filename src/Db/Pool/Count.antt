-- ===== src/Db/Pool/Count.antt =====
-- src/db/MySQLConnectionPool.cpp: `currentSize_` counts the idle connections and the leased ones, and
-- stays within `maxSize_`.
use Prim.Native.Nat.{◌<◌, ◌≤◌}
use user_center.Base.{
  ℕ, zero, suc, ◌+◌, ◌≡◌, List, [], ◌∷◌, ◌++◌, Option, none, some, true, false, ltb, ltb→lt, ap,
  sym, ◌∙◌, subst, length, length-append, refl, if◌then◌else◌, Bool-cases, inl, inr, arith,
}
use user_center.Db.Pool.{
  ConnectionPool, size_range, increment, decrement, is_none, add_created, create_initial, init,
  new_pool, Answers, Outcome, waits, null, leased, can_serve, hand_out, open_new, pick,
  get_connection, return_connection, close_all,
}

-- `n` connections are with clients.
abbrev pub IsCounted : {C : Type 0} → ConnectionPool C → ℕ → Type 0
IsCounted p n =
    (p.current_size ≡ length p.idle + n)
    × (p.current_size ≤ p.max_size)
    × (p.max_size < size_range)
    × (p.stop ≡ false)

increment_lem : (n m : ℕ) → n < m → m < size_range → increment n ≡ n + 1
unfolding increment
increment_lem n m h b = omega arith

decrement_lem : (n : ℕ) → n < size_range → decrement (n + 1) ≡ n
unfolding decrement
decrement_lem n b = omega arith

add_created-IsCounted :
    {C : Type 0} (o : Option C) (p : ConnectionPool C) (n : ℕ)
    → IsCounted p n
    → p.current_size < p.max_size
    → IsCounted (add_created o p) n
unfolding add_created
add_created-IsCounted none p n v room = v
add_created-IsCounted (some c) p n (count, bound, small, going) room =
    let raised = increment_lem p.current_size p.max_size room small in
    let more = length-append p.idle (c ∷ []) in
    (omega (arith, raised, more), omega (arith, raised), small, going)

add_created-max :
    {C : Type 0} (o : Option C) (p : ConnectionPool C) → (add_created o p).max_size ≡ p.max_size
unfolding add_created
add_created-max none p = refl
add_created-max (some c) p = refl

add_created-le :
    {C : Type 0} (o : Option C) (p : ConnectionPool C) (m : ℕ)
    → p.current_size < m
    → m < size_range
    → (add_created o p).current_size ≤ p.current_size + 1
unfolding add_created
add_created-le none p m h b = omega arith
add_created-le (some c) p m h b = omega (arith, increment_lem p.current_size m h b)

create_initial-IsCounted :
    {C : Type 0} (left i : ℕ) (created : ℕ → Option C) (p : ConnectionPool C) (n : ℕ)
    → IsCounted p n
    → p.current_size + left ≤ p.max_size
    → IsCounted (create_initial left i created p) n
unfolding create_initial
create_initial-IsCounted zero i created p n v room = v
create_initial-IsCounted (suc left) i created p n v room =
    let (count, bound, small, going) = v in
    let short : p.current_size < p.max_size = omega arith in
    let o = created i in
    create_initial-IsCounted left (suc i) created (add_created o p) n
      (add_created-IsCounted o p n v short)
      (omega (arith, add_created-le o p p.max_size short small, add_created-max o p))

-- A pool that `init` set up counts its connections, however many of them could be opened.
init-IsCounted :
    {C : Type 0} (min max : ℕ) (created : ℕ → Option C)
    → min ≤ max
    → max < size_range
    → IsCounted (init min max created new_pool) 0
unfolding init new_pool
init-IsCounted min max created h b =
    create_initial-IsCounted min 0 created _ 0 (refl, omega arith, b, refl) (omega arith)

-- What a caller has after `getConnection`: with `n` connections leased before.
abbrev pub Served : {C : Type 0} → Outcome C → ConnectionPool C → ℕ → Type 0
Served waits p n = n ≡ p.max_size
Served (null q) p n = IsCounted q n
Served (leased c q) p n = IsCounted q (n + 1)

-- A connection that has left the idle ones: it is handed out, or dropped from the count.
hand_out-Served :
    {C : Type 0} (a : Answers C) (c : C) (p q : ConnectionPool C) (n : ℕ)
    → IsCounted p (n + 1)
    → Served (hand_out a c p) q n
unfolding hand_out
hand_out-Served a c p q n v =
    let (count, bound, small, going) = v in
    let down : decrement p.current_size ≡ length p.idle + n =
      rw (count) (omega (arith, decrement_lem (length p.idle + n) (omega arith))) in
    elim (Bool-cases (a.is_up c)) [
      | inl up ↦ rw up v
      | inr dead ↦ elim (Bool-cases (a.connects c)) [
        | inl again ↦ rw (dead, again) v
        | inr lost ↦ rw (dead, lost) (down, omega (arith, down), small, going)
      ]
    ]

open_new-Served :
    {C : Type 0} (a : Answers C) (o : Option C) (p q : ConnectionPool C) (n : ℕ)
    → IsCounted p n
    → p.current_size < p.max_size
    → Served (open_new a o p) q n
unfolding open_new
open_new-Served a none p q n v room = v
open_new-Served a (some c) p q n (count, bound, small, going) room =
    let raised = increment_lem p.current_size p.max_size room small in
    hand_out-Served a c _ q n (omega (arith, raised), omega (arith, raised), small, going)

pick-Served :
    {C : Type 0} (a : Answers C) (cs : List C) (p q : ConnectionPool C) (n : ℕ)
    → p.idle ≡ cs
    → IsCounted p n
    → (if is_none cs then ltb p.current_size p.max_size else true) ≡ true
    → Served (pick a cs p) q n
unfolding pick is_none
pick-Served a [] p q n e v serves =
    rw serves (open_new-Served a a.created p q n v (ltb→lt p.current_size p.max_size serves))
pick-Served a (c ∷ cs) p q n e (count, bound, small, going) serves =
    hand_out-Served a c _ q n (omega (arith, ap length e), bound, small, going)

all_leased :
    {C : Type 0} (cs : List C) (p : ConnectionPool C) (n : ℕ)
    → p.idle ≡ cs
    → IsCounted p n
    → (if is_none cs then ltb p.current_size p.max_size else true) ≡ false
    → n ≡ p.max_size
unfolding is_none
all_leased [] p n e (count, bound, small, going) full = ground (arith, ap length e)
all_leased (c ∷ cs) p n e v full = cc

-- With `n` connections leased, `getConnection` leases one more, or leaves the count at `n`; the
-- condition of the wait fails only while the clients hold as many connections as the pool may open.
get_connection-Served :
    {C : Type 0} (a : Answers C) (p : ConnectionPool C) (n : ℕ)
    → IsCounted p n
    → Served (get_connection a p) p n
unfolding get_connection can_serve
get_connection-Served a p n v =
    let (count, bound, small, going) = v in
    let asks = ap (λ b. if b then null p else if can_serve p then pick a p.idle p else waits) in
    elim (Bool-cases (can_serve p)) [
      | inl serves ↦
          subst (λ o. Served o p n)
            (sym (asks going ∙ ap (λ b. if b then pick a p.idle p else waits) serves))
            (pick-Served a p.idle p p n refl v serves)
      | inr full ↦
          subst (λ o. Served o p n)
            (sym (asks going ∙ ap (λ b. if b then pick a p.idle p else waits) full))
            (all_leased p.idle p n refl v full)
    ]

return-IsCounted :
    {C : Type 0} (c : C) (p : ConnectionPool C) (n : ℕ)
    → IsCounted p (n + 1)
    → IsCounted (return_connection c p) n
unfolding return_connection
return-IsCounted c p n (count, bound, small, going) =
    let put_back = record p { idle = p.idle ++ (c ∷ []) } in
    subst (λ q. IsCounted q n)
      (sym (
        ap (λ b. if b then record p { current_size = decrement p.current_size } else put_back)
          going))
      (omega (arith, length-append p.idle (c ∷ [])), bound, small, going)

-- A pool and the number of connections that clients hold, and what one locked section does.
pub data Steps {C : Type 0} : ConnectionPool C → ℕ → Type 0 where
  start :
      (min max : ℕ) (created : ℕ → Option C)
      → min ≤ max
      → max < size_range
      → Steps (init min max created new_pool) 0
  lease :
      (a : Answers C) (p q : ConnectionPool C) (n : ℕ) (c : C)
      → Steps p n
      → get_connection a p ≡ leased c q
      → Steps q (n + 1)
  turn_away :
      (a : Answers C) (p q : ConnectionPool C) (n : ℕ)
      → Steps p n
      → get_connection a p ≡ null q
      → Steps q n
  give_back :
      (c : C) (p : ConnectionPool C) (n : ℕ) → Steps p (n + 1) → Steps (return_connection c p) n

-- Through any sequence of calls before the pool is closed, the count is the number of idle and leased
-- connections together, and stays within the maximum.
pub Steps-IsCounted : {C : Type 0} (p : ConnectionPool C) (n : ℕ) → Steps p n → IsCounted p n
Steps-IsCounted _ _ (start min max created h b) = init-IsCounted min max created h b
Steps-IsCounted _ _ (lease a p q n c s e) =
    subst (λ o. Served o p n) e (get_connection-Served a p n (Steps-IsCounted p n s))
Steps-IsCounted _ _ (turn_away a p q n s e) =
    subst (λ o. Served o p n) e (get_connection-Served a p n (Steps-IsCounted p n s))
Steps-IsCounted _ _ (give_back c p n s) = return-IsCounted c p n (Steps-IsCounted p (n + 1) s)

-- Closing the pool while a client holds a connection: its return counts the size down from 0, so
-- that `currentSize_` wraps to the largest `size_t`.
pub close_all-return :
    {C : Type 0} (c : C) (p : ConnectionPool C)
    → (return_connection c (close_all p)).current_size ≡ 18446744073709551615
unfolding return_connection close_all decrement
close_all-return c p = refl
