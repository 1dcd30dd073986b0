-- ===== src/Tests.antt =====
-- Concrete inputs at which the theorems are applied.
mod Common
mod Sync
mod Tracker
mod P2p
mod Storage
mod Net
mod FileFilter
mod Transfer
mod Broadcast
mod Resumed
mod Interrupted
