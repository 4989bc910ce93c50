-- ===== src/Protocol.antt =====
-- src/protocol/mod.rs
pub mod Command
pub mod Address
pub mod Header
