-- ===== src/Plexer.antt =====
-- src/YMPlexer.c
pub mod Link
pub mod Messages
pub mod State
pub mod Streams
pub mod Start
pub mod Service
pub mod Handshake
pub mod Delivery
pub mod Interruption
pub mod Identifiers
pub mod Faults
pub mod Reachability
