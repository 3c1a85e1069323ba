-- ===== src/Game.antt =====
-- The game server: players, rooms, KCP sessions and the handlers that drive them.
pub mod State
pub mod Kcp
pub mod Player
pub mod Room
pub mod Rpc
pub mod Session
pub mod Udp
pub mod Keeps
pub mod Sound
