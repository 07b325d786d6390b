-- ===== src/Tftpd.antt =====
-- The TFTP service: Defs holds tftpReadHandler of tftpd/handler.go, Server tftpd/server.go,
-- Outcomes the cases of what it comes to, Reads the proofs about what is read and sent.
pub mod Defs
pub mod Server
pub mod Outcomes
pub mod Reads
mod Tests
