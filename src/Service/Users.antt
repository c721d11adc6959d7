-- ===== src/Service/Users.antt =====
-- Registration, login, the look-ups and the change of password of src/service/UserService.cpp. The
-- lease of a connection from the pool is a parameter; its return to the pool at the end of the scope
-- is not seen here.
pub mod Transactions
use user_center.Base.{
  ℕ, List, [], ◌∷◌, ◌++◌, Option, none, some, Bool, true, false, Bytes, codes, if◌then◌else◌, ℤ,
  ltb,
}
use user_center.World.{Env, M, ◌>>=◌, ◌>>◌, pure, try_catch, is_sql_error, Param, text, int, uint}
use user_center.Common.ErrorCode.{
  ErrorCode, success, database_error, user_exists, invalid_credentials, user_not_found,
}
use user_center.Db.Client.{
  MySqlClient, is_connected, execute_update, prepare_statement, get_last_insert_id,
}
use user_center.Auth.{create_token, remove_all_tokens_for_user}
use user_center.Service.Uuid.{generate_uuid}

abbrev pub check_sql : Bytes
check_sql = codes "SELECT id FROM users WHERE username = ? OR email = ?"

abbrev pub insert_sql : Bytes
insert_sql =
    codes
      "INSERT INTO users (uuid, username, email, password_hash, status, role) VALUES (?, ?, ?, ?, 1, 'user')"

abbrev pub profile_sql : Bytes
profile_sql = codes "INSERT INTO user_profiles (user_id) VALUES (?)"

abbrev pub by_name_sql : Bytes
by_name_sql = codes "SELECT id, password_hash FROM users WHERE username = ?"

abbrev pub nickname_sql : Bytes
nickname_sql = codes "SELECT nickname FROM user_profiles WHERE user_id = ?"

abbrev pub exists_sql : Bytes
exists_sql = codes "SELECT id FROM users WHERE username = ?"

abbrev pub password_sql : Bytes
password_sql = codes "SELECT password_hash FROM users WHERE id = ?"

abbrev pub set_password_sql : Bytes
set_password_sql = codes "UPDATE users SET password_hash = ? WHERE id = ?"

-- `res && res->next()`: the first row of a result that is there.
abbrev pub first_row : {R : Type 0} → Option (List R) → Option R
first_row none = none
first_row (some []) = none
first_row (some (r ∷ rest)) = some r

-- What loginUser returns and hands back through its two references.
pub record Login : Type 0 where
  pub code : ErrorCode
  pub token : Bytes
  pub nickname : Bytes

abbrev pub refused_login : ErrorCode → Login
refused_login code = record { code = code; token = []; nickname = [] }

module _ (env : Env) (lease : M (env.World) (Option (MySqlClient (env.Handle)))) where
  open env use {
    World, Handle, Row, sql_query, sql_update, row_int, row_text, bcrypt_hash, bcrypt_check,
  }

  unfoldable pub checked_client :
      Option (MySqlClient Handle) → M World (Option (MySqlClient Handle))
  unfolding is_connected
  checked_client none = pure none
  checked_client (some c) = do up ← is_connected env c; if up then pure (some c) else pure none

  -- `getConnection()`, and the test `!conn || !conn->isConnected()`.
  unfoldable pub connected_client : M World (Option (MySqlClient Handle))
  unfolding checked_client
  connected_client = do conn ← lease; checked_client conn

  unfoldable pub rollback : MySqlClient Handle → ErrorCode → M World ErrorCode
  unfolding execute_update
  rollback c code = do _ ← execute_update env c (codes "ROLLBACK"); pure code

  unfoldable pub commit : MySqlClient Handle → M World ErrorCode
  unfolding execute_update
  commit c = do _ ← execute_update env c (codes "COMMIT"); pure success

  -- A prepared statement's handle, or the way out without one.
  unfoldable pub with_statement :
      {A : Type 0} → MySqlClient Handle → Bytes → M World A → (Handle → M World A) → M World A
  unfolding prepare_statement
  with_statement c sql failed use_it = do
    stmt ← prepare_statement env c sql
    elim stmt [ none ↦ failed | some h ↦ use_it h ]

  unfoldable pub insert_profile : MySqlClient Handle → ℕ → M World ErrorCode
  insert_profile c user_id = with_statement c profile_sql (rollback c database_error) (λ h. do
    affected ← sql_update h profile_sql (uint user_id ∷ [])
    if ltb 0 affected then commit c else rollback c database_error)

  unfoldable pub insert_user :
      MySqlClient Handle → Bytes → Bytes → Bytes → Bytes → M World ErrorCode
  insert_user c uuid username email hash =
      with_statement c insert_sql (rollback c database_error) (λ h. do
        affected ← sql_update h insert_sql (text uuid ∷ text username ∷ text email ∷ text hash ∷ [])
        if ltb 0 affected
            then (do user_id ← get_last_insert_id env c; insert_profile c user_id)
            else rollback c database_error)

  unfoldable pub create_user : MySqlClient Handle → Bytes → Bytes → Bytes → M World ErrorCode
  create_user c username password email = do
    uuid ← generate_uuid env
    hash ← bcrypt_hash password 12
    insert_user c uuid username email hash

  unfoldable pub register_in_transaction :
      MySqlClient Handle → Bytes → Bytes → Bytes → M World ErrorCode
  register_in_transaction c username password email =
      with_statement c check_sql (rollback c database_error) (λ h. do
        rows ← sql_query h check_sql (text username ∷ text email ∷ [])
        elim (first_row rows) [
          | some r ↦ rollback c user_exists
          | none ↦ create_user c username password email
        ])

  unfoldable pub register_on : MySqlClient Handle → Bytes → Bytes → Bytes → M World ErrorCode
  register_on c username password email = do
    _ ← execute_update env c (codes "START TRANSACTION")
    register_in_transaction c username password email

  unfoldable pub register_user : Bytes → Bytes → Bytes → M World ErrorCode
  register_user username password email = do
    conn ← connected_client
    elim conn [ none ↦ pure database_error | some c ↦ register_on c username password email ]

  -- The nickname, empty where the statement or the row is missing.
  unfoldable pub nickname_of : MySqlClient Handle → ℤ → M World Bytes
  unfolding with_statement
  nickname_of c user_id = with_statement c nickname_sql (pure []) (λ h. do
    rows ← sql_query h nickname_sql (int user_id ∷ [])
    elim (first_row rows) [ some r ↦ pure (row_text r (codes "nickname")) | none ↦ pure [] ])

  unfoldable pub login_with : MySqlClient Handle → Bytes → Row → M World Login
  unfolding nickname_of create_token
  login_with c password row = do
    valid ← bcrypt_check password (row_text row (codes "password_hash"))
    if valid
        then (do
          nickname ← nickname_of c (row_int row (codes "id"))
          token ← create_token env (row_int row (codes "id")) 604800
          pure (record { code = success; token = token; nickname = nickname }))
        else pure (refused_login invalid_credentials)

  unfoldable pub login_on : MySqlClient Handle → Bytes → Bytes → M World Login
  unfolding with_statement login_with
  login_on c username password =
      with_statement c by_name_sql (pure (refused_login database_error)) (λ h. do
        rows ← sql_query h by_name_sql (text username ∷ [])
        elim (first_row rows) [
          | none ↦ pure (refused_login invalid_credentials)
          | some row ↦ login_with c password row
        ])

  unfoldable pub login_user : Bytes → Bytes → M World Login
  unfolding connected_client login_on
  login_user username password = do
    conn ← connected_client
    elim conn [ none ↦ pure (refused_login database_error) | some c ↦ login_on c username password ]

  -- `exists` comes back beside the code.
  unfoldable pub exists_on : MySqlClient Handle → Bytes → M World (ErrorCode × Bool)
  unfolding with_statement
  exists_on c username = with_statement c exists_sql (pure (database_error, false)) (λ h. do
    rows ← sql_query h exists_sql (text username ∷ [])
    elim rows [
      | none ↦ pure (database_error, false)
      | some found ↦ elim (first_row (some found)) [
        | none ↦ pure (success, false)
        | some r ↦ pure (success, true)
      ]
    ])

  unfoldable pub check_username_exist : Bytes → M World (ErrorCode × Bool)
  unfolding connected_client exists_on
  check_username_exist username = do
    conn ← connected_client
    elim conn [ none ↦ pure (database_error, false) | some c ↦ exists_on c username ]

  -- The id and the hash come with the code `success` alone.
  unfoldable pub by_username_on :
      MySqlClient Handle → Bytes → M World (ErrorCode × Option (ℤ × Bytes))
  unfolding with_statement
  by_username_on c username = with_statement c by_name_sql (pure (database_error, none)) (λ h. do
    rows ← sql_query h by_name_sql (text username ∷ [])
    elim (first_row rows) [
      | some r ↦ pure (success, some (row_int r (codes "id"), row_text r (codes "password_hash")))
      | none ↦ pure (user_not_found, none)
    ])

  unfoldable pub get_user_by_username : Bytes → M World (ErrorCode × Option (ℤ × Bytes))
  unfolding connected_client by_username_on
  get_user_by_username username = do
    conn ← connected_client
    elim conn [ none ↦ pure (database_error, none) | some c ↦ by_username_on c username ]

  -- An update of no row leaves the tokens.
  unfoldable pub store_password : Handle → ℤ → Bytes → M World ErrorCode
  unfolding remove_all_tokens_for_user
  store_password h user_id new_hash = do
    affected ← sql_update h set_password_sql (text new_hash ∷ int user_id ∷ [])
    if ltb 0 affected
        then (do _ ← remove_all_tokens_for_user env user_id; pure success)
        else pure success

  unfoldable pub replace_password : MySqlClient Handle → ℤ → Bytes → Bytes → Row → M World ErrorCode
  unfolding with_statement store_password
  replace_password c user_id old_password new_password row = do
    valid ← bcrypt_check old_password (row_text row (codes "password_hash"))
    if valid
        then (do
          new_hash ← bcrypt_hash new_password 12
          with_statement c set_password_sql (pure database_error)
              (λ h. store_password h user_id new_hash))
        else pure invalid_credentials

  unfoldable pub change_password_on : MySqlClient Handle → ℤ → Bytes → Bytes → M World ErrorCode
  unfolding with_statement replace_password
  change_password_on c user_id old_password new_password =
      with_statement c password_sql (pure database_error) (λ h. do
        rows ← sql_query h password_sql (int user_id ∷ [])
        elim (first_row rows) [
          | none ↦ pure user_not_found
          | some row ↦ replace_password c user_id old_password new_password row
        ])

  -- Here the client is not tested for its connection, and an SQLException is an answer.
  unfoldable pub change_password : ℤ → Bytes → Bytes → M World ErrorCode
  unfolding change_password_on
  change_password user_id old_password new_password = do
    conn ← lease
    elim conn [
      | none ↦ pure database_error
      | some c ↦
          try_catch is_sql_error (change_password_on c user_id old_password new_password)
            (pure database_error)
    ]
