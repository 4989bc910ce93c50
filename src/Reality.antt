-- ===== src/Reality.antt =====
-- src/reality/: the Vision protocol, its state machine, the splicing relay and the handshake.
pub mod Vision
pub mod StateMachine
pub mod Splice
pub mod Handshake
