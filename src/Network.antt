-- ===== src/Network.antt =====
-- internal/zonelet/network: the host ports and the addresses that the zone gives out.
pub mod Scan
pub mod HostPort
pub mod Ipam
