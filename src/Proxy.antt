-- ===== src/Proxy.antt =====
-- src/proxy/mod.rs
pub mod Session
pub mod Net
pub mod Fallback
pub mod Relay
pub mod Tcp
pub mod Failure
pub mod Udp
