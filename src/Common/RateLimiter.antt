-- ===== src/Common/RateLimiter.antt =====
-- include/common/RateLimiter.h: a fixed window counted by Redis.
pub mod Window
use user_center.Base.{ℕ, ◌++◌, Bool, true, Bytes, codes, leb, if◌then◌else◌, ◌==◌}
use user_center.World.{Env, M, ◌>>=◌, ◌>>◌, pure, try_catch, any_error}

abbrev pub count_key : Bytes → Bytes
count_key key = codes "rate_limit:" ++ key

module _ (env : Env) where
  open env use {World, has_redis, redis_incr, redis_expire}

  -- The window starts with the first request.
  unfoldable pub start_window : Bytes → ℕ → ℕ → M World (Unit {0})
  start_window key period count =
      if count == 1 then redis_expire (count_key key) period else pure tt

  unfoldable pub counted : Bytes → ℕ → ℕ → M World Bool
  unfolding start_window
  counted key limit period = do
    count ← redis_incr (count_key key)
    start_window key period count
    pure (leb count limit)

  -- Without Redis, and when a command throws, the request passes.
  unfoldable pub is_allowed : Bytes → ℕ → ℕ → M World Bool
  unfolding counted
  is_allowed key limit period w =
      if has_redis w
      then try_catch any_error (counted key limit period) (pure true) w
      else pure true w
