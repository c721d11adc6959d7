-- ===== src/Http.antt =====
-- src/http and include/http: requests, the incremental parser, and responses.
pub mod Request
pub mod Context
pub mod Response
