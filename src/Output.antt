-- ===== src/Output.antt =====
-- internal/mcpserver/output.go, internal/drivemcp/output.go: tool results within their output budget.
pub mod Encode
pub mod Faithful
pub mod Mail
pub mod Halves
pub mod MailResults
pub mod Drive
pub mod DriveResults
pub mod Examples
