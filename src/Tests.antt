-- ===== src/Tests.antt =====
-- Parameters made concrete, and the theorems applied at concrete inputs.
mod Ext
mod Network
mod Data
mod Server
mod Proxy
mod Protocol
mod Reality
mod Accept
mod Config
mod Splice
mod Udp
mod Datagrams
mod Main
mod Passwords
mod Vision
