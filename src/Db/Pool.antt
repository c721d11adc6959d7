-- ===== src/Db/Pool.antt =====
-- include/db/MySQLConnectionPool.h and src/db/MySQLConnectionPool.cpp: the connection pool. What the
-- connector does when the pool asks it is an argument (`Answers`); a call that holds the mutex is one
-- function on the pool's state, and `waits` is a caller for whom the condition does not hold yet.
-- Waiting has the callers that sleep on the condition variable, and who is notified.
pub mod Count
pub mod Waiting
use Prim.Native.Nat.{◌%◌}
use user_center.Base.{
  ℕ, zero, suc, ◌+◌, List, [], ◌∷◌, ◌++◌, Option, none, some, Bool, true, false, ltb, if◌then◌else◌,
}

-- 2 ^ 64, for `size_t`
abbrev pub size_range : ℕ
size_range = 18446744073709551616

unfoldable pub increment : ℕ → ℕ
increment n = (n + 1) % size_range

unfoldable pub decrement : ℕ → ℕ
decrement n = (n + 18446744073709551615) % size_range

pub record ConnectionPool (C : Type 0) : Type 0 where
  pub idle : List C
  pub current_size : ℕ
  pub min_size : ℕ
  pub max_size : ℕ
  pub stop : Bool

unfoldable pub is_none : {C : Type 0} → List C → Bool
is_none [] = true
is_none (c ∷ rest) = false

-- An opened connection joins the pool; one that could not be opened is only logged.
unfoldable pub add_created : {C : Type 0} → Option C → ConnectionPool C → ConnectionPool C
unfolding increment
add_created none p = p
add_created (some c) p = record p {
  idle = p.idle ++ (c ∷ []);
  current_size = increment p.current_size;
}

-- `left` more rounds of the loop, from round `i` on; `created i` is what `createConnection` gave.
unfoldable pub create_initial :
    {C : Type 0} → ℕ → ℕ → (ℕ → Option C) → ConnectionPool C → ConnectionPool C
unfolding add_created
create_initial zero i created p = p
create_initial (suc left) i created p =
    create_initial left (suc i) created (add_created (created i) p)

unfoldable pub init : {C : Type 0} → ℕ → ℕ → (ℕ → Option C) → ConnectionPool C → ConnectionPool C
unfolding create_initial
init min max created p = create_initial min 0 created (record p { min_size = min; max_size = max })

-- The pool before `init`.
unfoldable pub new_pool : {C : Type 0} → ConnectionPool C
new_pool = record { idle = []; current_size = 0; min_size = 5; max_size = 20; stop = false }

-- What the connector answers within one `getConnection`.
pub record Answers (C : Type 0) : Type 0 where
  pub created : Option C
  pub is_up : C → Bool
  pub connects : C → Bool

pub data Outcome (C : Type 0) : Type 0 where
  waits : Outcome C
  null : ConnectionPool C → Outcome C
  leased : C → ConnectionPool C → Outcome C

-- The wait's condition once `stop_` is false.
unfoldable pub can_serve : {C : Type 0} → ConnectionPool C → Bool
unfolding is_none
can_serve p = if is_none p.idle then ltb p.current_size p.max_size else true

-- The last part: a dead connection gets one attempt, and is dropped if it fails.
unfoldable pub hand_out : {C : Type 0} → Answers C → C → ConnectionPool C → Outcome C
unfolding decrement
hand_out a c p =
    if a.is_up c
    then leased c p
    else if a.connects c
    then leased c p
    else null (record p { current_size = decrement p.current_size })

unfoldable pub open_new : {C : Type 0} → Answers C → Option C → ConnectionPool C → Outcome C
unfolding increment hand_out
open_new a none p = null p
open_new a (some c) p = hand_out a c (record p { current_size = increment p.current_size })

unfoldable pub pick : {C : Type 0} → Answers C → List C → ConnectionPool C → Outcome C
unfolding hand_out open_new
pick a [] p = if ltb p.current_size p.max_size then open_new a a.created p else null p
pick a (c ∷ rest) p = hand_out a c (record p { idle = rest })

unfoldable pub get_connection : {C : Type 0} → Answers C → ConnectionPool C → Outcome C
unfolding can_serve pick
get_connection a p = if p.stop then null p else if can_serve p then pick a p.idle p else waits

unfoldable pub return_connection : {C : Type 0} → C → ConnectionPool C → ConnectionPool C
unfolding decrement
return_connection c p =
    if p.stop
    then record p { current_size = decrement p.current_size }
    else record p { idle = p.idle ++ (c ∷ []) }

unfoldable pub close_all : {C : Type 0} → ConnectionPool C → ConnectionPool C
close_all p = record p { stop = true; idle = []; current_size = 0 }
