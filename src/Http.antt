-- ===== src/Http.antt =====
-- The middlewares of backend/src/middlewares and the helpers of backend/src/utils that they use.
pub mod Request
pub mod Auth
pub mod Guards
pub mod Routes
pub mod Access
pub mod Csrf
pub mod Errors
pub mod Address
pub mod RateLimit
pub mod Sanitize
