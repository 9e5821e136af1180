-- ===== src/Ctrl.antt =====
-- engine_ctrl.c: the engine that serves JSON-RPC calls which arrive as strings, each with its
-- terminating NUL, in the payloads of packets.
pub mod Split
pub mod Write
pub mod Paths
pub mod Rpc
pub mod Calls
pub mod Subscribe
pub mod Life
pub mod Notices
