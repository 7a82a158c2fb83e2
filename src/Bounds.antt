-- ===== src/Bounds.antt =====
-- bridge/bounds.go: the effective limits of the bridge, a caller's values over the defaults.
pub mod Merge
pub mod Valid
pub mod Normalize
pub mod Examples
