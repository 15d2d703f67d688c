-- ===== src/Network.antt =====
-- The boot-network services, backend/internal/network.
mod Examples
pub mod Ip
pub mod Mac
pub mod LeasePool
pub mod Message
pub mod Pxe
pub mod DhcpServer
pub mod ProxyDhcp
pub mod Tftp
pub mod Observer
