-- ===== src/Triage.antt =====
-- bridge/seen.go, bridge/move.go and what they use of bridge/bridge.go, messages.go and imapclient.go.
pub mod Result
pub mod Server
pub mod Source
pub mod Seen
pub mod Destination
pub mod Move
pub mod SeenOrder
pub mod SeenWrites
pub mod Execute
pub mod Sessions
pub mod DestinationSound
pub mod Examples
