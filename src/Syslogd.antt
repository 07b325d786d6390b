-- ===== src/Syslogd.antt =====
-- The syslog service: Defs holds syslogd/handler.go and the addresses of syslogd/server.go, Entries the
-- proofs about what is logged, Serving the loop of Serve and what it logs.
pub mod Defs
pub mod Entries
pub mod Serving
mod Tests
