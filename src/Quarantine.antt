-- ===== src/Quarantine.antt =====
-- bridge/structure_quarantine.go.
pub mod Lexical
pub mod Control
pub mod State
pub mod Fetch
pub mod Feed
pub mod Reader
pub mod Scanner
pub mod FetchBytes
pub mod Budgets
pub mod Effects
pub mod Lines
pub mod Segments
pub mod Framing
pub mod Release
pub mod Sound
pub mod Session
pub mod Accounts
pub mod Ended
pub mod Examples
