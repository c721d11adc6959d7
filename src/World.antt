-- ===== src/World.antt =====
-- What the services use and the repository does not hold: redis-plus-plus, MySQL Connector/C++,
-- bcrypt, OpenSSL's random bytes, std::random_device and nlohmann/json. All of it is one parameter,
-- `Env`. A call is a function of the state of the outside world; it returns, or throws what the
-- library throws, and the world has changed in either case.
pub mod Laws
pub mod Redis
use user_center.Base.{ℕ, Bool, List, Option, Bytes, ℤ}

-- The exceptions that the sources catch, or let pass.
pub data Exn : Type 0 where
  redis_error : Exn
  sql_error : Exn
  json_parse_error : Exn
  json_type_error : Exn
  std_error : Exn

pub data Result (A : Type 0) : Type 0 where
  ok : A → Result A
  throw : Exn → Result A

abbrev pub M : Type 0 → Type 0 → Type 0
M W A = W → Result A × W

abbrev pub after_ok : {W A B : Type 0} → Result A × W → (A → M W B) → Result B × W
after_ok (ok a, w) f = f a w
after_ok (throw e, w) f = (throw e, w)

infixl 5 ◌>>=◌ ◌>>◌
abbrev pub ◌>>=◌ : {W A B : Type 0} → M W A → (A → M W B) → M W B
◌>>=◌ m f w = after_ok (m w) f

abbrev pub ◌>>◌ : {W A B : Type 0} → M W A → M W B → M W B
◌>>◌ m k w = after_ok (m w) (λ _. k)

abbrev pub pure : {W A : Type 0} → A → M W A
pure a w = (ok a, w)

abbrev pub raise : {W A : Type 0} → Exn → M W A
raise e w = (throw e, w)

-- `try { m } catch (…) { h }`, for the exceptions that the clause names.
abbrev pub caught : {W A : Type 0} → (Exn → Bool) → M W A → Result A × W → Result A × W
caught catches h (ok a, w) = (ok a, w)
caught catches h (throw e, w) = elim (catches e) [ Bool.true ↦ h w | Bool.false ↦ (throw e, w) ]

abbrev pub try_catch : {W A : Type 0} → (Exn → Bool) → M W A → M W A → M W A
try_catch catches m h w = caught catches h (m w)

-- `catch (const sw::redis::Error&)`, `catch (sql::SQLException&)`,
-- `catch (const json::parse_error&)` and `catch (const std::exception&)`
abbrev pub is_redis_error : Exn → Bool
is_redis_error redis_error = Bool.true
is_redis_error _ = Bool.false

abbrev pub is_sql_error : Exn → Bool
is_sql_error sql_error = Bool.true
is_sql_error _ = Bool.false

abbrev pub is_parse_error : Exn → Bool
is_parse_error json_parse_error = Bool.true
is_parse_error _ = Bool.false

abbrev pub any_error : Exn → Bool
any_error e = Bool.true

-- A value bound to a place of a prepared statement.
pub data Param : Type 0 where
  text : Bytes → Param
  int : ℤ → Param
  uint : ℕ → Param

pub record Env : Type 1 where
  pub World : Type 0
  -- TokenManager::redis_ and the commands of sw::redis::Redis.
  pub has_redis : World → Bool
  pub redis_get : Bytes → M World (Option Bytes)
  pub redis_setex : Bytes → ℕ → Bytes → M World (Unit {0})
  pub redis_sadd : Bytes → Bytes → M World (Unit {0})
  pub redis_srem : Bytes → Bytes → M World (Unit {0})
  pub redis_expire : Bytes → ℕ → M World (Unit {0})
  pub redis_del : Bytes → M World (Unit {0})
  pub redis_smembers : Bytes → M World (List Bytes)
  pub redis_incr : Bytes → M World ℕ
  -- The connector: a leased connection, statements by their text, rows by column.
  pub Handle : Type 0
  pub Row : Type 0
  pub is_valid : Handle → M World Bool
  pub sql_execute : Handle → Bytes → M World ℕ
  pub sql_select : Handle → Bytes → M World (List Row)
  pub sql_prepare : Handle → Bytes → M World (Unit {0})
  pub sql_query : Handle → Bytes → List Param → M World (Option (List Row))
  pub sql_update : Handle → Bytes → List Param → M World ℕ
  pub row_int : Row → Bytes → ℤ
  pub row_text : Row → Bytes → Bytes
  pub row_is_null : Row → Bytes → Bool
  pub row_uint : Row → ℕ → ℕ
  -- BCrypt, RAND_bytes (which may refuse) and the generator of the standard library.
  pub bcrypt_hash : Bytes → ℕ → M World Bytes
  pub bcrypt_check : Bytes → Bytes → M World Bool
  pub rand_bytes : ℕ → M World (Option Bytes)
  pub fallback_bytes : ℕ → M World Bytes
  pub random_below : ℕ → M World ℕ
  -- nlohmann::json
  pub Json : Type 0
  pub json_parse : Bytes → Option Json
  pub json_dump : Json → Result Bytes
  pub json_contains : Json → Bytes → Bool
  pub json_at : Json → Bytes → Json
  pub json_is_string : Json → Bool
  pub json_is_integer : Json → Bool
  pub json_to_text : Json → Result Bytes
  pub json_to_int : Json → ℤ
  pub json_value_text : Json → Bytes → Bytes → Result Bytes
  pub json_text : Bytes → Json
  pub json_int : ℤ → Json
  pub json_object : List (Bytes × Json) → Json
  pub json_empty : Json → Bool

-- A result of the JSON library, which touches nothing outside.
abbrev pub lift : {W A : Type 0} → Result A → M W A
lift r w = (r, w)
