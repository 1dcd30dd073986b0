-- ===== src/Tracker.antt =====
-- The rendezvous server (src/tracker): sessions with clients, and the rooms they join.
pub mod State
pub mod TrackerServer
pub mod Session
pub mod Rooms
pub mod Joining
pub mod Consistency
pub mod Membership
pub mod Hygiene
