-- ===== src/Indexer.antt =====
-- backend/src/modules/indexer/indexer.service.ts: the block cursors, the catch-up over historical
-- blocks, and the reconnection of the WebSocket.
pub mod Cursor
pub mod CatchUp
pub mod Reconnect
pub mod Finalize
pub mod Dispatch
pub mod Entities
