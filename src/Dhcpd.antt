-- ===== src/Dhcpd.antt =====
-- The DHCP service: Packet is the interface of the packet library, Arp the package dhcpd/arp, Uint8 the
-- type of dhcpd/types.go, Host what the handler reads of the machine, Defs HandleMsg4 of
-- dhcpd/handler.go, Server dhcpd/server.go, Bound and Binding the proofs about it, and the other
-- children the proofs about the handler.
pub mod Packet
pub mod Uint8
pub mod Arp
pub mod Host
pub mod Defs
pub mod Options
pub mod Answer
pub mod Writable
pub mod Crash
pub mod Sent
pub mod Exact
pub mod Suspended
pub mod Kept
pub mod Local
pub mod Asking
pub mod Conflict
pub mod Stored
pub mod Server
pub mod Bound
pub mod Binding
pub mod Sample
mod Uint8Tests
mod ConflictTests
mod RunTests
mod ServerTests
mod Tests
