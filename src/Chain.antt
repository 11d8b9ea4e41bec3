-- ===== src/Chain.antt =====
-- The way to the blockchain: backend/src/lib/blockchain.manager.ts and
-- backend/src/utils/blockchainErrorHandler.ts.
pub mod Errors
pub mod Receipt
pub mod Manager
pub mod Tracking
