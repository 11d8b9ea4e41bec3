-- ===== src/Frontend.antt =====
-- The browser's side: frontend/src/lib.
pub mod Client
