-- ===== src/Strict.antt =====
-- internal/strictjson/object.go: JSON values without ambiguity.
pub mod Decode
pub mod Clean
pub mod Accepts
pub mod Whole
pub mod Examples
