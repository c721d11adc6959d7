-- ===== src/Service/Profile.antt =====
-- The user's information, its cache in Redis, and the profile update of
-- src/service/UserService.cpp.
pub mod Cache
pub mod Placeholders
use user_center.Base.{
  ℕ, ◌+◌, List, [], ◌∷◌, ◌++◌, Option, none, some, Bool, true, false, Bytes, codes, bytes_eq,
  if◌then◌else◌, ℤ, pos, int_string,
}
use user_center.World.{
  Env, M, Exn, ◌>>=◌, ◌>>◌, pure, raise, lift, try_catch, any_error, is_sql_error, Param, text, int,
}
use user_center.Common.ErrorCode.{ErrorCode, success, database_error, user_not_found}
use user_center.Db.Client.{MySqlClient}
use user_center.Service.Users.{connected_client, with_statement, first_row}

abbrev pub info_sql : Bytes
info_sql =
    codes
      "SELECT u.uuid, u.username, u.email, u.created_at, p.nickname, p.avatar_url, p.bio, p.gender FROM users u LEFT JOIN user_profiles p ON u.id = p.user_id WHERE u.id = ?"

abbrev pub upsert_sql : Bytes
upsert_sql =
    codes
      "INSERT INTO user_profiles (user_id, nickname, avatar_url, bio, gender) VALUES (?, ?, ?, ?, ?) ON DUPLICATE KEY UPDATE "

unfoldable pub cache_key : ℤ → Bytes
unfolding int_string
cache_key user_id = codes "user:info:" ++ int_string user_id

-- The mark of a user that is not there.
abbrev pub null_mark : Bytes
null_mark = codes "null"

-- The error code, or `Success` with the JSON that comes back by reference.
pub data Info (J : Type 0) : Type 0 where
  refused : ErrorCode → Info J
  found : J → Info J

pub record ProfileUpdate : Type 0 where
  pub nickname : Option Bytes
  pub avatar_url : Option Bytes
  pub bio : Option Bytes
  pub gender : Option ℤ

abbrev pub field_name : {A : Type 0} → Option A → Bytes → List Bytes
field_name none name = []
field_name (some a) name = name ∷ []

unfoldable pub fields_of : ProfileUpdate → List Bytes
fields_of u =
    field_name u.nickname (codes "nickname")
    ++ field_name u.avatar_url (codes "avatar_url")
    ++ field_name u.bio (codes "bio")
    ++ field_name u.gender (codes "gender")

-- `a = ?, b = ?`: the comma comes before every field but the first.
unfoldable pub set_rest : List Bytes → Bytes
set_rest [] = []
set_rest (f ∷ fs) = codes ", " ++ f ++ codes " = ?" ++ set_rest fs

unfoldable pub set_clause : List Bytes → Bytes
unfolding set_rest
set_clause [] = []
set_clause (f ∷ fs) = f ++ codes " = ?" ++ set_rest fs

abbrev pub text_or_empty : Option Bytes → Param
text_or_empty none = text []
text_or_empty (some s) = text s

abbrev pub int_or_zero : Option ℤ → Param
int_or_zero none = int (pos 0)
int_or_zero (some n) = int n

abbrev pub text_param : Option Bytes → List Param
text_param none = []
text_param (some s) = text s ∷ []

abbrev pub int_param : Option ℤ → List Param
int_param none = []
int_param (some n) = int n ∷ []

-- The parameter that the loop binds for one field.
unfoldable pub param_of : ProfileUpdate → Bytes → List Param
param_of u field =
    if bytes_eq field (codes "nickname")
    then text_param u.nickname
    else if bytes_eq field (codes "avatar_url")
    then text_param u.avatar_url
    else if bytes_eq field (codes "bio")
    then text_param u.bio
    else if bytes_eq field (codes "gender")
    then int_param u.gender
    else []

unfoldable pub params_of : ProfileUpdate → List Bytes → List Param
unfolding param_of
params_of u [] = []
params_of u (f ∷ fs) = param_of u f ++ params_of u fs

-- All parameters in the order of `idx`: five for the row, then one for each field.
unfoldable pub upsert_params : ℤ → ProfileUpdate → List Param
unfolding fields_of params_of
upsert_params user_id u =
    int user_id
    ∷ text_or_empty u.nickname
    ∷ text_or_empty u.avatar_url
    ∷ text_or_empty u.bio
    ∷ int_or_zero u.gender
    ∷ params_of u (fields_of u)

module _ (env : Env) (lease : M (env.World) (Option (MySqlClient (env.Handle)))) where
  open env use {
    World, Handle, Row, has_redis, redis_get, redis_setex, redis_del, sql_query, sql_update,
    row_int, row_text, row_is_null, random_below, Json, json_parse, json_dump, json_text, json_int,
    json_object,
  }

  abbrev pub text_or_blank : Row → Bytes → Bytes
  text_or_blank r column = if row_is_null r column then [] else row_text r column

  unfoldable pub row_json : Row → Json
  row_json r = json_object (
      (codes "uuid", json_text (row_text r (codes "uuid")))
      ∷ (codes "username", json_text (row_text r (codes "username")))
      ∷ (codes "email", json_text (row_text r (codes "email")))
      ∷ (codes "created_at", json_text (row_text r (codes "created_at")))
      ∷ (codes "nickname", json_text (text_or_blank r (codes "nickname")))
      ∷ (codes "avatar_url", json_text (text_or_blank r (codes "avatar_url")))
      ∷ (codes "bio", json_text (text_or_blank r (codes "bio")))
      ∷ (codes "gender", json_int (row_int r (codes "gender")))
      ∷ [])

  unfoldable pub info_on : MySqlClient Handle → ℤ → M World (Info Json)
  unfolding with_statement row_json
  info_on c user_id = with_statement env lease c info_sql (pure (refused database_error)) (λ h. do
    rows ← sql_query h info_sql (int user_id ∷ [])
    elim (first_row rows) [
      | none ↦ pure (refused user_not_found)
      | some r ↦ pure (found (row_json r))
    ])

  unfoldable pub get_user_info_json_from_db : ℤ → M World (Info Json)
  unfolding connected_client info_on
  get_user_info_json_from_db user_id = do
    conn ← connected_client env lease
    elim conn [ none ↦ pure (refused database_error) | some c ↦ info_on c user_id ]

  -- A value of the cache: the mark, or a text that must parse.
  unfoldable pub read_cached : Bytes → M World (Option (Info Json))
  read_cached cached =
      if bytes_eq cached null_mark
      then pure (some (refused user_not_found))
      else elim (json_parse cached) [
        | some j ↦ pure (some (found j))
        | none ↦ raise Exn.json_parse_error
      ]

  unfoldable pub get_cached : ℤ → M World (Option (Info Json))
  unfolding cache_key read_cached
  get_cached user_id = do
    cached ← redis_get (cache_key user_id)
    elim cached [ some value ↦ read_cached value | none ↦ pure none ]

  -- A cache that is absent or fails is a miss.
  unfoldable pub from_cache : ℤ → M World (Option (Info Json))
  unfolding get_cached
  from_cache user_id w =
      if has_redis w then try_catch any_error (get_cached user_id) (pure none) w else pure none w

  unfoldable pub write_cache : ℤ → Json → M World (Unit {0})
  unfolding cache_key
  write_cache user_id j = do
    dumped ← lift (json_dump j)
    extra ← random_below 301
    redis_setex (cache_key user_id) (3600 + extra) dumped

  -- Only a user that is not there is marked.
  unfoldable pub remember : ℤ → Info Json → M World (Unit {0})
  unfolding cache_key write_cache
  remember user_id (found j) = write_cache user_id j
  remember user_id (refused user_not_found) = redis_setex (cache_key user_id) 60 null_mark
  remember user_id (refused other) = pure tt

  unfoldable pub to_cache : ℤ → Info Json → M World (Unit {0})
  unfolding remember
  to_cache user_id info w =
      if has_redis w then try_catch any_error (remember user_id info) (pure tt) w else pure tt w

  unfoldable pub load_and_remember : ℤ → M World (Info Json)
  unfolding get_user_info_json_from_db to_cache
  load_and_remember user_id = do
    info ← get_user_info_json_from_db user_id
    to_cache user_id info
    pure info

  unfoldable pub get_user_info_json : ℤ → M World (Info Json)
  unfolding from_cache load_and_remember
  get_user_info_json user_id = do
    hit ← from_cache user_id
    elim hit [ some info ↦ pure info | none ↦ load_and_remember user_id ]

  unfoldable pub drop_cached : ℤ → M World (Unit {0})
  unfolding cache_key
  drop_cached user_id w = if has_redis w then redis_del (cache_key user_id) w else pure tt w

  -- The `try` of updateProfile catches an SQLException and no error of Redis.
  unfoldable pub upsert : Handle → Bytes → ℤ → ProfileUpdate → M World ErrorCode
  unfolding upsert_params drop_cached
  upsert h sql user_id u = do
    _ ← sql_update h sql (upsert_params user_id u)
    drop_cached user_id
    pure success

  unfoldable pub update_on : MySqlClient Handle → ℤ → ProfileUpdate → List Bytes → M World ErrorCode
  unfolding with_statement set_clause upsert
  update_on c user_id u [] = pure success
  update_on c user_id u (f ∷ fs) =
      with_statement env lease c (upsert_sql ++ set_clause (f ∷ fs)) (pure database_error) (λ h.
        try_catch is_sql_error (upsert h (upsert_sql ++ set_clause (f ∷ fs)) user_id u)
          (pure database_error))

  unfoldable pub update_profile : ℤ → ProfileUpdate → M World ErrorCode
  unfolding connected_client update_on fields_of
  update_profile user_id u = do
    conn ← connected_client env lease
    elim conn [ none ↦ pure database_error | some c ↦ update_on c user_id u (fields_of u) ]
