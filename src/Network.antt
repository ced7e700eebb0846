-- ===== src/Network.antt =====
-- src/network.
pub mod Pktline
