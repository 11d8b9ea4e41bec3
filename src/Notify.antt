-- ===== src/Notify.antt =====
-- Notifications to browsers: backend/src/modules/notification.
pub mod Streams
