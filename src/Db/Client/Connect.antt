-- ===== src/Db/Client/Connect.antt =====
-- src/db/MySQLClient.cpp: connect and disconnect. The driver with the host, the user, the password and
-- the name of the database is the parameter `driver`.
use user_center.Base.{Option, none, some, Bool, true, false}
use user_center.World.{Env, M, ◌>>=◌, ◌>>◌, pure, try_catch, is_sql_error}
use user_center.Db.Client.{MySqlClient}

-- The calls of MySQL Connector/C++ that open and close a connection.
pub record Driver (env : Env) : Type 0 where
  pub open_connection : M env.World env.Handle
  pub set_schema : env.Handle → M env.World (Unit {0})
  pub close_connection : env.Handle → M env.World (Unit {0})

module _ (env : Env) (driver : Driver env) where
  open env use {World, Handle}
  open driver use {open_connection, set_schema, close_connection}

  -- The new connection is kept even where its schema cannot be set.
  unfoldable pub use_schema : MySqlClient Handle → Handle → M World (Bool × MySqlClient Handle)
  use_schema c h =
      try_catch is_sql_error
        (set_schema h >> pure (true, record { connected = true; handle = some h }))
        (pure (false, record c { handle = some h }))

  unfoldable pub connect : MySqlClient Handle → M World (Bool × MySqlClient Handle)
  unfolding use_schema
  connect c = try_catch is_sql_error (open_connection >>= use_schema c) (pure (false, c))

  unfoldable pub close_handle : Option Handle → M World (Unit {0})
  close_handle none = pure tt
  close_handle (some h) = close_connection h

  unfoldable pub disconnect : MySqlClient Handle → M World (MySqlClient Handle)
  unfolding close_handle
  disconnect c = close_handle c.handle >> pure (record { connected = false; handle = none })
