-- ===== src/Auth.antt =====
-- include/auth/TokenManager.h and src/auth/TokenManager.cpp: login tokens in Redis. A token is 64
-- hex digits; `token:<t>` holds its user, `user_tokens:<u>` the set of a user's tokens.
pub mod Tokens
use Prim.Native.Nat.{◌/◌, ◌%◌}
use user_center.Base.{
  ℕ, ◌+◌, List, [], ◌∷◌, ◌++◌, Option, none, some, Bool, true, false, Bytes, codes, ltb,
  if◌then◌else◌, ℤ, pos, negsuc, int_string,
}
use user_center.Base.Strtol.{stoi}
use user_center.World.{Env, M, Exn, ◌>>=◌, ◌>>◌, pure, raise, try_catch, is_redis_error}
use user_center.Http.Response.{is_empty}

unfoldable pub get_key : Bytes → Bytes
get_key token = codes "token:" ++ token

unfoldable pub set_key : ℤ → Bytes
unfolding int_string
set_key user_id = codes "user_tokens:" ++ int_string user_id

unfoldable pub hex_digit : ℕ → ℕ
hex_digit d = if ltb d 10 then d + b'0' else d + 87

-- Each byte as two digits, `std::hex << std::setw(2) << std::setfill('0')`.
unfoldable pub hex : Bytes → Bytes
unfolding hex_digit
hex [] = []
hex (c ∷ s) = hex_digit (c / 16) ∷ hex_digit (c % 16) ∷ hex s

-- `std::stoi` throws a std::exception that is no Redis error.
unfoldable pub user_of : {W : Type 0} → Bytes → M W ℤ
unfolding stoi
user_of value = elim (stoi value) [ none ↦ raise Exn.std_error | some n ↦ pure n ]

module _ (env : Env) where
  open env use {
    World, has_redis, redis_get, redis_setex, redis_sadd, redis_srem, redis_expire, redis_del,
    redis_smembers, rand_bytes, fallback_bytes,
  }

  -- The bytes of RAND_bytes, or of mt19937_64 where it fails.
  unfoldable pub random_buffer : ℕ → M World Bytes
  random_buffer n = do
    drawn ← rand_bytes n
    elim drawn [ some bytes ↦ pure bytes | none ↦ fallback_bytes n ]

  unfoldable pub generate_token : M World Bytes
  unfolding random_buffer hex
  generate_token = do buffer ← random_buffer 32; pure (hex buffer)

  unfoldable pub store_token : ℤ → ℕ → Bytes → M World Bytes
  unfolding get_key set_key
  store_token user_id expire token = do
    redis_setex (get_key token) expire (int_string user_id)
    redis_sadd (set_key user_id) token
    redis_expire (set_key user_id) expire
    pure token

  -- The empty string stands for a failure.
  unfoldable pub create_token : ℤ → ℕ → M World Bytes
  unfolding generate_token store_token
  create_token user_id expire w =
      if has_redis w
      then (do
        token ← generate_token
        try_catch is_redis_error (store_token user_id expire token) (pure []))
          w
      else pure [] w

  -- -1 for a token that is not there, -2 for an error of the system.
  unfoldable pub look_up : Bytes → M World ℤ
  unfolding get_key user_of
  look_up token = do
    found ← redis_get (get_key token)
    elim found [ some value ↦ user_of value | none ↦ pure (negsuc 0) ]

  unfoldable pub verify_token : Bytes → M World ℤ
  unfolding look_up
  verify_token token w =
      if has_redis w
      then if is_empty token
        then pure (negsuc 0) w
        else try_catch is_redis_error (look_up token) (pure (negsuc 1)) w
      else pure (negsuc 1) w

  unfoldable pub drop_token : Bytes → Bytes → M World (Unit {0})
  unfolding get_key set_key user_of
  drop_token token value = do
    user_id ← user_of value
    redis_srem (set_key user_id) token
    redis_del (get_key token)

  unfoldable pub find_and_drop : Bytes → M World (Unit {0})
  unfolding get_key drop_token
  find_and_drop token = do
    found ← redis_get (get_key token)
    elim found [ some value ↦ drop_token token value | none ↦ pure tt ]

  unfoldable pub remove_token : Bytes → M World (Unit {0})
  unfolding find_and_drop
  remove_token token w =
      if has_redis w
      then if is_empty token
        then pure tt w
        else try_catch is_redis_error (find_and_drop token) (pure tt) w
      else pure tt w

  unfoldable pub delete_all : List Bytes → M World (Unit {0})
  unfolding get_key
  delete_all [] = pure tt
  delete_all (token ∷ rest) = do redis_del (get_key token); delete_all rest

  unfoldable pub clear_set : ℤ → M World (Unit {0})
  unfolding set_key delete_all
  clear_set user_id = do
    tokens ← redis_smembers (set_key user_id)
    delete_all tokens
    redis_del (set_key user_id)

  unfoldable pub remove_all_tokens_for_user : ℤ → M World (Unit {0})
  unfolding clear_set
  remove_all_tokens_for_user user_id w =
      if has_redis w then try_catch is_redis_error (clear_set user_id) (pure tt) w else pure tt w
