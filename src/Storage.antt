-- ===== src/Storage.antt =====
-- What is kept on disk (include/VeritasSync/storage, src/storage).
pub mod Database
pub mod CachedFileStore
pub mod FileFilter
