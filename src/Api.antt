-- ===== src/Api.antt =====
-- The HTTP API: Defs holds the handlers of api/server.go, Router its routes, SharedError the error that
-- its requests share, Table the abstract view of /api/manifests/{id}, the other children the proofs
-- about them.
pub mod Defs
pub mod Router
pub mod Changes
pub mod SharedError
pub mod Alone
pub mod Turns
pub mod Calls
pub mod Interleaved
pub mod ErrorRace
pub mod ListRace
pub mod Access
pub mod Induction
pub mod Invariant
pub mod Effects
mod Sample
mod Tests
mod ErrorTests
mod RouterTests
unfoldable pub use Defs.*
pub mod Runs
pub mod Reachable
pub mod Table
pub mod Refines
pub mod Listing
