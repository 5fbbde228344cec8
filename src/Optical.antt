-- ===== src/Optical.antt =====
-- The optical transfer from a screen to a camera (ui/src/qrferry).
pub mod Checksum
pub mod Frames
pub mod Source
pub mod Decoder
pub mod Bundle
