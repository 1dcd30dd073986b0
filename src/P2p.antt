-- ===== src/P2p.antt =====
-- Peers and what is sent between them (include/VeritasSync/p2p, src/p2p).
pub mod PeerController
pub mod PeerRegistry
pub mod MessageRouter
pub mod KcpScheduler
pub mod BroadcastManager
