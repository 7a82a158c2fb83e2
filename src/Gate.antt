-- ===== src/Gate.antt =====
-- The gate of the Drive server (internal/drivemcp/gate.go).
pub mod Ensure
pub mod Phases
pub mod Turns
pub mod Order
pub mod Asked
pub mod Progress
mod Examples
