-- ===== src/Db/Client.antt =====
-- include/db/MySQLClient.h and src/db/MySQLClient.cpp: the calls on one connection. `connect` and
-- `disconnect` are in the child module; here is what a leased client does.
pub mod Connect
use user_center.Base.{
  ℕ, List, [], ◌∷◌, Option, none, some, Bool, false, Bytes, codes, if◌then◌else◌,
}
use user_center.World.{Env, M, ◌>>=◌, ◌>>◌, pure, try_catch, is_sql_error}

-- `connected_` and `conn_`
pub record MySqlClient (H : Type 0) : Type 0 where
  pub connected : Bool
  pub handle : Option H

module _ (env : Env) where
  open env use {World, Handle, Row, is_valid, sql_execute, sql_select, sql_prepare, row_uint}

  -- `conn_ && conn_->isValid()`
  unfoldable pub handle_valid : Option Handle → M World Bool
  handle_valid none = pure false
  handle_valid (some h) = is_valid h

  unfoldable pub is_connected : MySqlClient Handle → M World Bool
  unfolding handle_valid
  is_connected c = if c.connected then handle_valid c.handle else pure false

  unfoldable pub guarded : {A : Type 0} → Option Handle → A → (Handle → M World A) → M World A
  guarded none failed call = pure failed
  guarded (some h) failed call = try_catch is_sql_error (call h) (pure failed)

  -- A call on the open connection, or the answer without one. An SQLException becomes the answer.
  unfoldable pub on_connection :
      {A : Type 0} → MySqlClient Handle → A → (Handle → M World A) → M World A
  unfolding is_connected guarded
  on_connection c failed call = do
    up ← is_connected c
    if up then guarded c.handle failed call else pure failed

  -- `none` is the source's -1.
  unfoldable pub execute_update : MySqlClient Handle → Bytes → M World (Option ℕ)
  unfolding on_connection
  execute_update c query =
      on_connection c none (λ h. do affected ← sql_execute h query; pure (some affected))

  -- `none` is the null pointer.
  unfoldable pub execute_query : MySqlClient Handle → Bytes → M World (Option (List Row))
  unfolding on_connection
  execute_query c query = on_connection c none (λ h. do rows ← sql_select h query; pure (some rows))

  -- A prepared statement, which its text stands for.
  unfoldable pub prepare_statement : MySqlClient Handle → Bytes → M World (Option Handle)
  unfolding on_connection
  prepare_statement c query = on_connection c none (λ h. do sql_prepare h query; pure (some h))

  -- The first row's first column; 0 where there is no row.
  unfoldable pub first_uint : List Row → ℕ
  first_uint [] = 0
  first_uint (r ∷ rest) = row_uint r 1

  unfoldable pub get_last_insert_id : MySqlClient Handle → M World ℕ
  unfolding on_connection first_uint
  get_last_insert_id c =
      on_connection c 0
        (λ h. do rows ← sql_select h (codes "SELECT LAST_INSERT_ID()"); pure (first_uint rows))
