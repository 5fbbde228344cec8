-- ===== src/P2p.antt =====
-- The direct transfer of files between two browsers (ui/src/p2p).
pub mod Stream
pub mod Media
pub mod Reader
pub mod Chunks
pub mod Control
pub mod Links
pub mod Expiry
