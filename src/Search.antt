-- ===== src/Search.antt =====
-- bridge/search.go, and what it uses of bridge/imapclient.go: pages of messages and their identifiers.
pub mod Select
pub mod Highest
pub mod Ranges
pub mod RangesSafe
pub mod Fetched
pub mod FetchedAll
pub mod Identifier
pub mod Page
pub mod Falling
pub mod Weighed
pub mod PageBounds
pub mod Accepted
pub mod RoundTrip
pub mod Examples
