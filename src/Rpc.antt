-- ===== src/Rpc.antt =====
-- The sidecar's RPC layer.
pub mod Frame
pub mod Multiplexer
pub mod Server
