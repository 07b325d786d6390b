-- ===== src/Cmd.antt =====
-- The commands: Startup holds the server command of cmd/server.go, ArpInject the command of
-- cmd/arpinject.go, Flags the flags of all commands and their keys, Execute the end of cmd/root.go;
-- Ready, Notified and Services are the proofs about the start-up, Served and Rooted those about the store that
-- it leaves to the services, Levels those about the flags. Process has the runs of the
-- whole process, and Faults is what ends it.
pub mod Startup
pub mod Ready
pub mod Notified
pub mod Services
pub mod Process
pub mod Faults
pub mod Rooted
pub mod Served
pub mod Execute
pub mod Flags
pub mod Levels
pub mod ArpInject
mod Sample
mod Tests
mod ProcessTests
mod RootedTests
mod FlagTests
