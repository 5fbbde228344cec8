-- ===== src/Wall.antt =====
-- The Sharewall: a live wall that the host's tab keeps in memory (ui/src/wall).
pub mod Notes
pub mod Collab
pub mod Tasks
pub mod TaskWire
pub mod Board
pub mod Threads
pub mod ThreadWire
pub mod Model
pub mod Feed
pub mod FeedWire
pub mod PostWire
pub mod ItemWire
pub mod NotesWire
pub mod SearchWire
pub mod RtcWire
pub mod Messages
pub mod Requests
pub mod Updates
pub mod MessageWire
pub mod Store
pub mod Scope
pub mod Link
