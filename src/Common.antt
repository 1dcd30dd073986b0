-- ===== src/Common.antt =====
-- Helpers that every layer of the program uses (include/VeritasSync/common).
pub mod PathUtils
pub mod SyncKey
