-- ===== src/Common.antt =====
-- include/common: error codes, the JSON answers, and the rate limiter.
pub mod ErrorCode
pub mod ResponseHelper
pub mod RateLimiter
