-- ===== src/Frames.antt =====
-- internal/stdioframe/stdioframe.go: the bounded frames of standard input.
pub mod Reader
pub mod Whole
pub mod Ended
pub mod Examples
