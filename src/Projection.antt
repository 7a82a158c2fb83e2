-- ===== src/Projection.antt =====
-- bridge/attachment_projection.go: the attachments of a message, by its structure.
pub mod Entity
pub mod Visit
pub mod Enumerate
pub mod Complete
pub mod Examples
