-- ===== src/Sync/Protocol.antt =====
-- include/VeritasSync/sync/Protocol.h, and the modes of common/Config.h and the history record of
-- storage/Database.h that the synchronisation reads.
use veritas_sync.Base.{ℕ, Str, str_key, nat_key}

-- A time stamp (`int64_t`) is only carried along and compared, so a number stands for it.
pub record FileInfo : Type 0 where
  pub path : Str
  pub hash : Str
  pub modified_time : ℕ
  pub size : ℕ

pub record SyncHistory : Type 0 where
  pub hash : Str
  pub ts : ℕ

pub data SyncMode : Type 0 where
  one_way bi_directional : SyncMode

pub data SyncRole : Type 0 where
  source destination : SyncRole
