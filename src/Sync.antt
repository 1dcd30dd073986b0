-- ===== src/Sync.antt =====
-- What two peers compare and exchange (include/VeritasSync/sync, src/sync).
pub mod Protocol
pub mod SyncManager
pub mod SyncSession
pub mod TransferManager
