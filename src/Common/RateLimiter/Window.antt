-- ===== src/Common/RateLimiter/Window.antt =====
-- include/common/RateLimiter.h: how many requests of one window pass.
use Prim.Native.Nat.{min}
use user_center.Base.{
  ℕ, zero, suc, ◌-◌, ◌≡◌, ◌∙◌, refl, ap, Bytes, true, leb, ◌==◌, if◌then◌else◌, Bool-cases, inl,
  inr, arith,
}
use user_center.World.{Env, M, ok, ◌>>=◌, pure}
use user_center.Common.RateLimiter.{count_key, start_window, counted, is_allowed}

-- What Redis documents of its counters, within one window.
pub record CountLaws (env : Env) : Type 0 where
  pub count : env.World → Bytes → ℕ
  pub ready : (w : env.World) → env.has_redis w ≡ true
  pub incr_law :
      (k : Bytes) (w : env.World)
      → (v : env.World) × (env.redis_incr k w ≡ (ok (suc (count w k)), v))
        × (count v k ≡ suc (count w k))
  pub expire_law :
      (k : Bytes) (n : ℕ) (w : env.World)
      → (v : env.World) × (env.redis_expire k n w ≡ (ok tt, v)) × (count v k ≡ count w k)

one_more :
    (n limit c d : ℕ)
    → d ≡ suc c
    → (if leb (suc c) limit then suc (min n (limit - d)) else min n (limit - d))
      ≡ min (suc n) (limit - c)
one_more n limit c d e = ground (arith, e)

module _ (env : Env) (laws : CountLaws env) (key : Bytes) (limit period : ℕ) where
  open env use {World}
  open laws use {count}

  -- The number of requests that pass among `n` in a row.
  abbrev pub passed : ℕ → M World ℕ
  passed zero = pure 0
  passed (suc n) = do
    passes ← is_allowed env key limit period
    rest ← passed n
    pure (if passes then suc rest else rest)

  start_lem :
      (c : ℕ) (w : World)
      → (v : World) × (start_window env key period c w ≡ (ok tt, v))
        × (count v (count_key key) ≡ count w (count_key key))
  unfolding start_window
  start_lem c w =
      let (v, e, same) = laws.expire_law (count_key key) period w in
      elim (Bool-cases (c == 1)) [
        | inl first ↦ (v, rw (first, e), same)
        | inr later ↦ (w, rw later, refl)
      ]

  pub is_allowed_lem :
      (w : World)
      → (v : World) × (is_allowed env key limit period w
          ≡ (ok (leb (suc (count w (count_key key))) limit), v))
        × (count v (count_key key) ≡ suc (count w (count_key key)))
  unfolding is_allowed counted
  is_allowed_lem w =
      let (w1, e1, more) = laws.incr_law (count_key key) w in
      let (w2, e2, same) = start_lem (suc (count w (count_key key))) w1 in
      (w2, rw (laws.ready w, e1, e2), same ∙ more)

  -- While Redis counts as documented: among any number of requests in a row within one window, exactly
  -- as many pass as the limit leaves over what was counted before, and no more.
  pub passed-limit :
      (n : ℕ) (w : World)
      → (v : World) × (passed n w ≡ (ok (min n (limit - count w (count_key key))), v))
  passed-limit zero w = (w, ap (λ k. (ok k, w)) (omega arith))
  passed-limit (suc n) w =
      let (w1, e1, more) = is_allowed_lem w in
      let (v, e2) = passed-limit n w1 in
      (v, rw (e1, e2) (ap (λ k. (ok k, v)) (one_more n limit (count w (count_key key)) _ more)))
