-- ===== src/Wire.antt =====
-- bridge/imapclient.go: what stands between the IMAP client library and its connection.
pub mod Grammar
pub mod Lines
pub mod Sets
pub mod SetsOverlap
pub mod Spaces
pub mod ESearch
pub mod ESearchEnds
pub mod Observer
pub mod Chunks
pub mod Budget
pub mod BudgetSteps
pub mod Guard
pub mod GuardSafe
pub mod Examples
