-- ===== src/Db.antt =====
-- src/db and include/db: the client of one connection, and the pool of connections.
pub mod Client
pub mod Pool
