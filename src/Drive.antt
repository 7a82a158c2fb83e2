-- ===== src/Drive.antt =====
-- internal/drivefs, internal/drivemcp: the bounded copy, files under a root, and the Drive paths.
pub mod Copy
pub mod CopyBounds
pub mod CopyLog
pub mod Confined
pub mod Transaction
pub mod Careful
pub mod Held
pub mod Published
pub mod FileExamples
pub mod Path
pub mod PathCanonical
pub mod Examples
