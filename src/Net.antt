-- ===== src/Net.antt =====
-- The transport below the peers (include/VeritasSync/net, src/net).
pub mod KcpProto
pub mod KcpSession
