-- ===== src/Store.antt =====
-- The package store: Defs holds store/store.go and store/persistence.go, Steps the runs of concurrent
-- requests, Seen, Loaded and Durable what is found after a start and after a PUT among them, the other
-- children the proofs about them.
pub mod Defs
pub mod Macs
pub mod Put
pub mod Invariant
pub mod Forget
pub mod Load
pub mod Seen
pub mod Loaded
pub mod Forgotten
pub mod Steps
pub mod Race
pub mod Durable
pub mod Entries
pub mod Shared
mod Sample
mod Tests
mod RunTests
unfoldable pub use Defs.*
