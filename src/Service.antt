-- ===== src/Service.antt =====
-- src/service and include/service: the user service and its HTTP handlers.
pub mod Uuid
pub mod Users
pub mod Profile
pub mod Handlers
